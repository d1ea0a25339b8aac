-- ===== src/Groups/Api.antt =====
-- The handlers of syncmaster/server/api/v1/groups.py. A handler takes the user that `get_user`
-- returned.
use syncmaster.Groups
use syncmaster.Prelude.{
  true, ℕ, String, not, ◌&&◌, Option, none, some, is_some, ◌==◌, if◌then◌else◌,
}
use syncmaster.Errors.{group_not_found, action_not_allowed, already_is_group_owner}
use syncmaster.Db.{User, Group, UserGroup, GroupMemberRole, guest}
use syncmaster.Session.{M, pure, raise_if, ◌>>=◌, ◌>>◌, unit_of_work}
use syncmaster.Access.{below, is_none, delete}
use syncmaster.CurrentUser.{authorize}
use syncmaster.Role.{is_public_role, of_value}

-- `AddUserSchema` of syncmaster/schemas/v1/groups.py: `none` is a validation error, which the
-- framework answers before the handler runs.
unfoldable pub add_user_schema : String → Option GroupMemberRole
add_user_schema role = if is_public_role role then of_value role else none

unfoldable pub create_group : User → String → String → M Group
create_group current_user name description =
    unit_of_work (Groups.create name description current_user.id)

-- `GroupWithUserRoleSchema`: the group with the caller's role in it.
unfoldable pub read_group : User → ℕ → M (Group × GroupMemberRole)
read_group current_user gid = do
  resource_role ← Groups.get_group_permission current_user gid
  raise_if (is_none resource_role) group_not_found
  group ← Groups.read_by_id gid
  user_role ← Groups.get_member_role current_user gid
  pure (group, user_role)

-- The guards of every handler that changes a group or its members.
unfoldable pub require_delete : User → ℕ → M Unit
require_delete current_user gid = do
  resource_rule ← Groups.get_group_permission current_user gid
  raise_if (is_none resource_rule) group_not_found
  raise_if (below resource_rule delete) action_not_allowed

-- The block of `update_group` for a new owner: the new owner leaves the members, if among them, and
-- the previous owner becomes a guest.
unfoldable pub hand_over : ℕ → ℕ → ℕ → M Unit
hand_over gid previous_owner_id owner_id = do
  new_owner_user_group ← Groups.get_user_group gid owner_id
  if is_some new_owner_user_group then Groups.delete_user gid owner_id else pure tt
  Groups.add_user gid previous_owner_id guest

unfoldable pub update_group : User → ℕ → String → String → ℕ → M Group
update_group current_user gid name description owner_id = do
  require_delete current_user gid
  unit_of_work do
    group ← Groups.read_by_id gid
    updated ← Groups.update gid name description owner_id
    if not (group.owner_id == owner_id) then hand_over gid group.owner_id owner_id else pure tt
    pure updated

unfoldable pub delete_group : User → ℕ → M Unit
delete_group current_user gid = do
  authorize true (some current_user)
  unit_of_work (Groups.delete gid)

unfoldable pub update_user_role_group : User → ℕ → ℕ → GroupMemberRole → M UserGroup
update_user_role_group current_user gid uid role = do
  require_delete current_user gid
  unit_of_work (Groups.update_member_role gid uid role)

unfoldable pub add_user_to_group : User → ℕ → ℕ → GroupMemberRole → M Unit
add_user_to_group current_user gid uid role = do
  require_delete current_user gid
  group ← Groups.read_by_id gid
  raise_if (group.owner_id == uid) already_is_group_owner
  unit_of_work (Groups.add_user gid uid role)

unfoldable pub delete_user_from_group : User → ℕ → ℕ → M Unit
delete_user_from_group current_user gid uid = do
  resource_rule ← Groups.get_group_permission current_user gid
  raise_if (is_none resource_rule) group_not_found
  raise_if (not (uid == current_user.id) && below resource_rule delete) action_not_allowed
  unit_of_work (Groups.delete_user gid uid)
