-- ===== src/Access/Laws.antt =====
-- The permission on a resource against that in its group: the queries of
-- syncmaster/db/repositories/repository_with_owner.py.
use mathlib.Core.Path.{fun_ext, ap}
use syncmaster.Prelude.{
  nat_eq, ℕ, ◌≡◌, refl, Bool, false, ◌&&◌, none, some, List, [], ◌∷◌, any, find?, arith, ◌==◌,
  Option-cases, inl, inr,
}
use syncmaster.Prelude.Tables.{get, Distinct}
use syncmaster.Db.{Db, User, GroupMemberRole}
use syncmaster.Access.{
  no_permission, Owned, group_permission, get_resource_permission_with, owns_resource,
  resource_membership, Permission, membership, owns_group,
}

-- A test on the row with a key, over a table with distinct keys.
module _ {Row : Type 0} (id : Row → ℕ) where
  any-get-none :
      (k : ℕ) (p : Row → Bool) (rs : List Row)
      → get id k rs ≡ none
      → any (λ r. id r == k && p r) rs ≡ false
  unfolding get
  any-get-none k p [] h = refl
  any-get-none k p (r ∷ rs) h = ground (arith, any-get-none k p rs)

  any-get-some :
      (k : ℕ) (p : Row → Bool) (rs : List Row) (r : Row)
      → Distinct id rs
      → get id k rs ≡ some r
      → any (λ s. id s == k && p s) rs ≡ p r
  unfolding get
  any-get-some k p [] r d h = ground arith
  any-get-some k p (s ∷ rs) r d h =
      ground (arith, any-get-some k p rs r d.1, any-get-none (id s) p rs d.0)

module _ {Row : Type 0} (model : Owned Row) where
  open model use {rows, id, group_id}

  module _ (u : User) (rid : ℕ) (db : Db) (r : Row) (d : Distinct id (rows db))
      (found : get id rid (rows db) ≡ some r) where
    owns_resource_lem : owns_resource model u rid db ≡ owns_group u (group_id r) db.groups
    owns_resource_lem =
        any-get-some id rid (λ r. owns_group u (group_id r) db.groups) (rows db) r d found

    resource_membership_lem :
        resource_membership model u rid db ≡ membership u (group_id r) db.user_groups
    resource_membership_lem =
        ap (λ p. find? p db.user_groups)
          (fun_ext λ m.
            rw (any-get-some id rid (λ r. group_id r == m.group_id) (rows db) r d found)
              (ground arith))

  -- In a database with distinct keys, whatever the repository's policy, the permission on a row is
  -- none if the row does not exist, and is what the permission query of the row's group finds
  -- otherwise.
  pub get_resource_permission-group_permission :
      (policy : GroupMemberRole → Permission) (u : User) (rid : ℕ) (db : Db)
      → Distinct id (rows db)
      → get_resource_permission_with model policy u rid db ≡ elim (get id rid (rows db)) [
        | none ↦ no_permission
        | some r ↦ group_permission policy u (group_id r) db
      ]
  unfolding get_resource_permission_with group_permission
  get_resource_permission-group_permission policy u rid db d =
      elim (Option-cases (get id rid (rows db))) [
        | inl missing ↦ rw missing
        | inr (r, found) ↦ rw (
          found,
          owns_resource_lem u rid db r d found,
          resource_membership_lem u rid db r d found,
        )
      ]
