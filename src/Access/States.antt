-- ===== src/Access/States.antt =====
-- The state after the queries of syncmaster/db/repositories/repository_with_owner.py.
use syncmaster.Session.{ok}
use syncmaster.Prelude.{ℕ, ◌≡◌, arith, refl}
use syncmaster.Db.{User, Db}
use syncmaster.Access.{
  get_group_permission, get_resource_permission, Owned, get_resource_permission_with,
  resource_policy,
}

pub get_group_permission-state :
    (u : User) (gid : ℕ) (db : Db) → (get_group_permission u gid db).1 ≡ db
unfolding get_group_permission
get_group_permission-state u gid db = ground arith

pub get_resource_permission_lem :
    {Row : Type 0} (model : Owned Row) (u : User) (rid : ℕ) (db : Db)
    → get_resource_permission model u rid db
      ≡ (ok (get_resource_permission_with model resource_policy u rid db), db)
unfolding get_resource_permission
get_resource_permission_lem model u rid db = refl
