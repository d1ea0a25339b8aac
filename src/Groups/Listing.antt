-- ===== src/Groups/Listing.antt =====
-- The listings of groups: `paginate_for_superuser` and `paginate_for_user` of
-- syncmaster/db/repositories/group.py, and `read_groups` of syncmaster/server/api/v1/groups.py. The
-- search vectors of the database are a parameter, and so is its order by name.
use syncmaster.Access.{is_none}
use syncmaster.Groups
use syncmaster.Errors.{value_error, group_not_found}
use syncmaster.Role.{role_eq, roles_at_least, is_at_least_privilege_level, of_value}
use syncmaster.Prelude.Tables.{get}
use syncmaster.Pagination.{Pagination, paginate, pagination}
use syncmaster.Session.{M, pure, ◌>>=◌, gets, or_fail, ◌>>◌, raise_if}
use syncmaster.Prelude.{
  String, Bool, List, Option, ℕ, true, some, map, ◌∷◌, any, str_eq, if◌then◌else◌, none, keep, ◌||◌,
  take, ◌==◌, drop, ◌&&◌, ◌-◌, not, [], nat_eq, ◌*◌, ◌++◌, length, ◌+◌,
}
use syncmaster.Db.{
  Group, GroupMemberRole, User, Db, UserGroup, owner, group_key, superuser, user_key,
}

-- A group with the role of the user.
abbrev pub GroupItem : Type 0
GroupItem = Group × GroupMemberRole

module _ (matches : String → Group → Bool) (order : List GroupItem → List GroupItem) where
  -- `if search_query:`
  abbrev pub found : Option String → Group → Bool
  found none g = true
  found (some search_query) g = str_eq search_query "" || matches search_query g

  abbrev some_role : Option GroupMemberRole → Option (Option GroupMemberRole)
  some_role none = none
  some_role (some r) = some (some r)

  -- `if role`, and the `ValueError` of a text that is no role.
  abbrev pub role_filter : Option String → M (Option GroupMemberRole)
  role_filter none = pure none
  role_filter (some role) =
      if str_eq role "" then pure none else or_fail value_error (some_role (of_value role))

  abbrev pub owned_groups : ℕ → Option GroupMemberRole → Option String → Db → List GroupItem
  owned_groups uid role search_query db =
      let owned =
        order (
          map (λ g. (g, owner))
            (keep (λ g. g.owner_id == uid && found search_query g) db.groups)) in
      elim role [
        | none ↦ owned
        | some r ↦ if not (is_at_least_privilege_level owner r) then [] else owned
      ]

  abbrev pub role_passes : Option GroupMemberRole → GroupMemberRole → Bool
  role_passes none _ = true
  role_passes (some role) r = any (role_eq r) (roles_at_least role)

  -- A membership joined with its group, if the group passes.
  abbrev pub with_group :
      (Group → Bool) → GroupMemberRole → Option Group → List GroupItem → List GroupItem
  with_group passes role none rest = rest
  with_group passes role (some g) rest = if passes g then (g, role) ∷ rest else rest

  -- The memberships of the user, joined with their groups.
  abbrev pub joined :
      ℕ → Option GroupMemberRole → Option String → List Group → List UserGroup → List GroupItem
  joined uid role search_query groups [] = []
  joined uid role search_query groups (m ∷ ms) =
      with_group (λ g. m.user_id == uid && (role_passes role m.role && found search_query g)) m.role
        (get group_key m.group_id groups) (joined uid role search_query groups ms)

  abbrev pub user_groups : ℕ → Option GroupMemberRole → Option String → Db → List GroupItem
  user_groups uid role search_query db =
      order (joined uid role search_query db.groups db.user_groups)

  unfoldable pub paginate_for_user :
      ℕ → ℕ → ℕ → Option String → Option String → M (Pagination GroupItem)
  paginate_for_user page page_size current_user_id role search_query = do
    role_found ← role_filter role
    owned ← gets (owned_groups current_user_id role_found search_query)
    members ← gets (user_groups current_user_id role_found search_query)
    pure (
        pagination (take page_size (drop ((page - 1) * page_size) (owned ++ members))) page
          page_size (length owned + length members))

  unfoldable pub paginate_for_superuser : ℕ → ℕ → Option String → M (Pagination GroupItem)
  paginate_for_superuser page page_size search_query = gets (λ db.
      paginate (order (map (λ g. (g, superuser)) (keep (found search_query) db.groups))) page
        page_size)

  unfoldable pub read_groups :
      User → ℕ → ℕ → Option String → Option String → M (Pagination GroupItem)
  read_groups current_user page page_size role search_query =
      if current_user.is_superuser
      then paginate_for_superuser page page_size search_query
      else paginate_for_user page page_size current_user.id role search_query

-- A member of a group with the role of the membership.
abbrev pub Member : Type 0
Member = User × GroupMemberRole

abbrev pub with_user : GroupMemberRole → Option User → List Member → List Member
with_user role none rest = rest
with_user role (some u) rest = if u.is_active then (u, role) ∷ rest else rest

-- The memberships of a group, joined with the users that are active.
abbrev pub members : ℕ → List User → List UserGroup → List Member
members gid users [] = []
members gid users (m ∷ ms) =
    let rest = members gid users ms in
    if m.group_id == gid then with_user m.role (get user_key m.user_id users) rest else rest

unfoldable pub get_member_paginate : (List Member → List Member) → ℕ → ℕ → ℕ → M (Pagination Member)
get_member_paginate order page page_size group_id = do
  group ← Groups.read_by_id group_id
  gets (λ db. paginate (order (members group.id db.users db.user_groups)) page page_size)

unfoldable pub read_group_users :
    (List Member → List Member) → ℕ → User → ℕ → ℕ → M (Pagination Member)
read_group_users order group_id current_user page page_size = do
  resource_role ← Groups.get_group_permission current_user group_id
  raise_if (is_none resource_role) group_not_found
  get_member_paginate order page page_size group_id
