-- ===== src/Groups.antt =====
-- syncmaster/db/repositories/group.py, over the tables group and user_group of
-- syncmaster/db/models/group.py.
pub mod Statements
pub mod Api
pub mod Outcomes
pub mod Invariant
pub mod Requests
pub mod Rights
pub mod Listing
pub mod Visible
use syncmaster.Prelude.{
  ℕ, String, Bool, true, ◌&&◌, Option, none, some, List, [], ◌∷◌, map, keep, is_some, ◌==◌, nat_eq,
  pair_eq, if◌then◌else◌, not, ◌||◌,
}
use syncmaster.Prelude.Tables.{get}
use syncmaster.Errors.{
  SyncmasterError, syncmaster_error, entity_not_found, group_not_found, user_not_found,
  group_already_exists, already_is_group_member, already_is_not_group_member, Constraint,
  uq__group__name, fk__group__owner_id__user, pk__user_group, fk__user_group__group_id__group,
  fk__user_group__user_id__user,
}
use syncmaster.Db.{
  Db, User, user_key, Group, group_key, UserGroup, user_group_key, GroupMemberRole, superuser,
  owner,
}
use syncmaster.Session.{
  M, pure, gets, or_raise, one, ◌>>=◌, ◌>>◌, except_map, map_integrity, map_no_result, map_entity,
}
use syncmaster.Access.{Permission, no_permission, read, get_group_permission_with}
use Statements.{
  insert_group, update_group_row, delete_group_row, insert_user_group, update_user_group,
  delete_user_group,
}

-- `_raise_error`. PostgreSQL reports a missing group or user with the detail that the two regular
-- expressions match.
unfoldable pub raise_error : Constraint → SyncmasterError
raise_error fk__group__owner_id__user = user_not_found
raise_error uq__group__name = group_already_exists
raise_error pk__user_group = already_is_group_member
raise_error fk__user_group__group_id__group = group_not_found
raise_error fk__user_group__user_id__user = user_not_found
raise_error _ = syncmaster_error

unfoldable pub read_by_id : ℕ → M Group
read_by_id gid =
    except_map (map_no_result group_not_found) (do one (← gets (λ db. get group_key gid db.groups)))

unfoldable pub create : String → String → ℕ → M Group
create name description owner_id =
    except_map (map_integrity raise_error) (insert_group name description owner_id)

-- `GroupRepository.update`, by way of `Repository._update`
unfoldable pub update : ℕ → String → String → ℕ → M Group
update gid name description owner_id = except_map (map_integrity raise_error) (
    except_map (map_entity group_not_found) (
      except_map (map_no_result entity_not_found) (update_group_row gid name description owner_id)))

unfoldable pub get_member_role : User → ℕ → M GroupMemberRole
get_member_role u gid db =
    if u.is_superuser
    then pure superuser db
    else pure
        (elim (get user_group_key (gid, u.id) db.user_groups) [ none ↦ owner | some m ↦ m.role ]) db

-- `row_res.one_or_none()`, with `UserNotFoundError` on `None`
unfoldable pub update_member_role : ℕ → ℕ → GroupMemberRole → M UserGroup
update_member_role gid uid role = do
  obj ← update_user_group gid uid role
  or_raise user_not_found obj

unfoldable pub delete : ℕ → M Unit
delete gid =
    except_map (map_entity group_not_found)
      (except_map (map_no_result group_not_found) (do delete_group_row gid; pure tt))

unfoldable pub add_user : ℕ → ℕ → GroupMemberRole → M Unit
add_user gid new_user_id role =
    except_map (map_integrity raise_error) (insert_user_group gid new_user_id role)

abbrev pub group_policy : GroupMemberRole → Permission
group_policy _ = read

-- `GroupRepository.get_group_permission`: a member has no more than the right to read.
unfoldable pub get_group_permission : User → ℕ → M Permission
get_group_permission = get_group_permission_with group_policy

unfoldable pub get_user_group : ℕ → ℕ → M (Option UserGroup)
get_user_group gid uid = gets (λ db. get user_group_key (gid, uid) db.user_groups)

unfoldable pub delete_user : ℕ → ℕ → M Unit
delete_user gid target_user_id = do
  or_raise already_is_not_group_member
      (← gets (λ db. get user_group_key (gid, target_user_id) db.user_groups))
  delete_user_group gid target_user_id
