-- ===== src/Access.antt =====
-- Who may do what: `Permission` (syncmaster/db/utils.py) and the permission queries of
-- syncmaster/db/repositories/repository_with_owner.py.
pub mod Laws
pub mod States
use syncmaster.Prelude.{
  nat_eq, ℕ, String, Bool, true, false, ◌&&◌, not, Option, none, some, List, any, find?, is_some,
  ltb, ◌==◌, if◌then◌else◌,
}
use syncmaster.Prelude.Tables.{get}
use syncmaster.Errors.{group_not_found}
use syncmaster.Db.{Db, User, Group, group_key, UserGroup, GroupMemberRole, maintainer, developer}
use syncmaster.Session.{M, gets, or_raise, ◌>>=◌, ◌>>◌}

-- An `IntEnum`.
pub data Permission : Type 0 where
  no_permission read write delete : Permission

abbrev pub level : Permission → ℕ
level no_permission = 0
level read = 1
level write = 2
level delete = 3

-- `p < q`
abbrev pub below : Permission → Permission → Bool
below p q = ltb (level p) (level q)

-- `p == Permission.NONE`
abbrev pub is_none : Permission → Bool
is_none p = level p == 0

-- The last statements of the permission queries: what a membership with a role gives.
unfoldable pub resource_policy : GroupMemberRole → Permission
resource_policy maintainer = delete
resource_policy developer = write
resource_policy _ = read

abbrev pub membership_permission : (GroupMemberRole → Permission) → Option UserGroup → Permission
membership_permission policy none = no_permission
membership_permission policy (some m) = policy m.role

-- `owner_query` for a group
abbrev pub owns_group : User → ℕ → List Group → Bool
owns_group u gid groups = any (λ g. g.owner_id == u.id && g.id == gid) groups

-- `group_role_query` for a group
abbrev pub membership : User → ℕ → List UserGroup → Option UserGroup
membership u gid ms = find? (λ m. m.group_id == gid && m.user_id == u.id) ms

-- What `get_group_permission` finds once the group is known to exist.
unfoldable pub group_permission : (GroupMemberRole → Permission) → User → ℕ → Db → Permission
group_permission policy u gid db =
    if u.is_superuser
    then delete
    else if owns_group u gid db.groups
    then delete
    else membership_permission policy (membership u gid db.user_groups)

unfoldable pub get_group_permission_with : (GroupMemberRole → Permission) → User → ℕ → M Permission
unfolding group_permission
get_group_permission_with policy u gid = do
  or_raise group_not_found (← gets (λ db. get group_key gid db.groups))
  gets (group_permission policy u gid)

-- `RepositoryWithOwner.get_group_permission`
unfoldable pub get_group_permission : User → ℕ → M Permission
unfolding get_group_permission_with resource_policy
get_group_permission = get_group_permission_with resource_policy

-- A model whose rows belong to a group, the parameter of `RepositoryWithOwner`.
pub record Owned (Row : Type 0) : Type 0 where
  pub rows : Db → List Row
  pub id : Row → ℕ
  pub group_id : Row → ℕ

module _ {Row : Type 0} (model : Owned Row) where
  open model use {rows, id, group_id}

  -- `owner_query`, with its join of the group
  abbrev pub owns_resource : User → ℕ → Db → Bool
  owns_resource u rid db =
      any (λ r. id r == rid && any (λ g. g.owner_id == u.id && g.id == group_id r) db.groups)
        (rows db)

  -- `group_role_query`, with its join of the model
  abbrev pub resource_membership : User → ℕ → Db → Option UserGroup
  resource_membership u rid db =
      find? (λ m. m.user_id == u.id && any (λ r. id r == rid && group_id r == m.group_id) (rows db))
        db.user_groups

  unfoldable pub get_resource_permission_with :
      (GroupMemberRole → Permission) → User → ℕ → Db → Permission
  get_resource_permission_with policy u rid db =
      if not (is_some (get id rid (rows db)))
      then no_permission
      else if u.is_superuser
      then delete
      else if owns_resource u rid db
      then delete
      else membership_permission policy (resource_membership u rid db)

  -- `RepositoryWithOwner.get_resource_permission`; it never raises.
  unfoldable pub get_resource_permission : User → ℕ → M Permission
  unfolding get_resource_permission_with resource_policy
  get_resource_permission u rid = gets (get_resource_permission_with resource_policy u rid)
