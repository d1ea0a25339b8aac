-- ===== src/Groups/Outcomes.antt =====
-- The states that the handlers of syncmaster/server/api/v1/groups.py leave behind.
use syncmaster.Db.Cascade.{delete_in_group}
use syncmaster.CurrentUser.{authorize}
use syncmaster.Errors.{raised, group_not_found}
use syncmaster.Access.{get_group_permission_with}
use syncmaster.Groups
use syncmaster.Groups.Api.{
  update_group, require_delete, hand_over, delete_group, add_user_to_group, delete_user_from_group,
  create_group, update_user_role_group,
}
use syncmaster.Groups.Statements.{
  set_group, update_group_row, insert_user_group, delete_user_group, update_user_group,
  insert_group, delete_group_row, set_role,
}
use syncmaster.Prelude.{
  refl, ℕ, String, ◌≡◌, some, [], ◌∷◌, ◌++◌, arith, ◌==◌, if◌then◌else◌, nat_eq, pair_eq, List, ◌⊎◌,
  false, none, ◌≢◌, ◌+◌,
}
use syncmaster.Prelude.Tables.{get, update, delete, delete_missing, get-update}
use syncmaster.Db.{Db, User, Group, group_key, UserGroup, user_group_key, guest, GroupMemberRole}
use syncmaster.Session.{ok, Result, err, unit_of_work, is_ok}

require_delete-state : (u : User) (gid : ℕ) (db : Db) → (require_delete u gid db).1 ≡ db
unfolding require_delete Groups.get_group_permission get_group_permission_with
require_delete-state u gid db = ground arith

-- A member row.
abbrev pub member : ℕ → ℕ → GroupMemberRole → UserGroup
member gid uid role = record { user_id = uid; group_id = gid; role = role }

-- How a call ended: it returned `a` and left `db'`, or it raised; the sequences are untouched.
abbrev Ends : {A : Type 0} → Result A × Db → A → Db → Db → Type 0
Ends r a db' db = (r.1.seq ≡ db.seq) × ((r ≡ (ok a, db')) ⊎ (is_ok r.0 ≡ false))

module _ (gid : ℕ) (name description : String) (o : ℕ) (db : Db) where
  abbrev pub updated_groups : List Group
  updated_groups = update group_key gid (set_group name description o) db.groups

  update_lem :
      (row : Group)
      → get group_key gid db.groups ≡ some row
      → Ends
          (Groups.update gid name description o db)
          (set_group name description o row)
          (record db { groups = updated_groups })
          db
  unfolding Groups.update update_group_row
  update_lem row found =
      ground
        (arith, get-update group_key gid gid (set_group name description o) db.groups (λ r. refl))

module _ (gid previous o : ℕ) (db : Db) where
  abbrev pub handed_over : List UserGroup
  handed_over = delete user_group_key (gid, o) db.user_groups ++ member gid previous guest ∷ []

  hand_over_lem : Ends (hand_over gid previous o db) tt (record db { user_groups = handed_over }) db
  unfolding hand_over Groups.get_user_group Groups.delete_user Groups.add_user insert_user_group
      delete_user_group
  hand_over_lem = ground (arith, delete_missing user_group_key (gid, o) db.user_groups)

-- A handler either raised and changed no row and no sequence, or returned with a known state.
abbrev pub Atomic : {A : Type 0} → Result A × Db → A → Db → Db → Type 0
Atomic r a db' db = ((r.1 ≡ db) × (is_ok r.0 ≡ false)) ⊎ (r ≡ (ok a, db'))

-- The state after a successful `update_group` of the group `row`.
abbrev pub group_updated : ℕ → String → String → ℕ → Group → Db → Db
group_updated gid name description o row db = record db {
  groups = updated_groups gid name description o db;
  user_groups = if row.owner_id == o then db.user_groups else handed_over gid row.owner_id o db;
}

module _ (u : User) (gid : ℕ) (name description : String) (o : ℕ) (db : Db) where
  pub update_group_lem :
      (row : Group)
      → get group_key gid db.groups ≡ some row
      → Atomic
          (update_group u gid name description o db)
          (set_group name description o row)
          (group_updated gid name description o row db)
          db
  unfolding update_group Groups.read_by_id unit_of_work
  update_group_lem row found = ground (
    arith,
    require_delete-state u gid db,
    update_lem gid name description o db row found,
    hand_over_lem gid row.owner_id o
        (record db { groups = updated_groups gid name description o db }),
  )

  pub update_group-missing :
      get group_key gid db.groups ≡ none
      → update_group u gid name description o db ≡ (err (raised group_not_found), db)
  unfolding update_group require_delete Groups.get_group_permission get_group_permission_with
  update_group-missing missing = ground arith

-- The state after a successful `create_group`, and the group that it returns.
abbrev pub new_group : User → String → String → Db → Group
new_group u name description db = record {
  id = db.seq.group;
  name = name;
  description = description;
  owner_id = u.id;
}

-- `create_group` consumes a key, and inserts the group or nothing.
pub create_group_lem :
    (u : User) (name description : String) (db : Db)
    → let next = record db { seq = record db.seq { group = db.seq.group + 1 } } in
      let new = new_group u name description db in
      ((create_group u name description db).1 ≡ next)
      ⊎ (create_group u name description db
          ≡ (ok new, record next { groups = db.groups ++ new ∷ [] }))
unfolding create_group Groups.create insert_group unit_of_work
create_group_lem u name description db = ground arith

pub update_user_role_group_lem :
    (u : User) (gid uid : ℕ) (role : GroupMemberRole) (db : Db)
    → let r = update_user_role_group u gid uid role db in
      (r.1 ≡ db)
      ⊎ (r.1 ≡ record db {
        user_groups = update user_group_key (gid, uid) (set_role role) db.user_groups;
      })
unfolding update_user_role_group Groups.update_member_role update_user_group unit_of_work
update_user_role_group_lem u gid uid role db = ground (arith, require_delete-state u gid db)

pub delete_user_from_group_lem :
    (u : User) (gid uid : ℕ) (db : Db)
    → let r = delete_user_from_group u gid uid db in
      Atomic r tt (record db { user_groups = delete user_group_key (gid, uid) db.user_groups }) db
unfolding delete_user_from_group Groups.delete_user delete_user_group Groups.get_group_permission
    get_group_permission_with unit_of_work
delete_user_from_group_lem u gid uid db = ground arith

module _ (u : User) (gid uid : ℕ) (role : GroupMemberRole) (db : Db) where
  -- The owner is refused, and so is a member.
  pub add_user_to_group_lem :
      (row : Group)
      → get group_key gid db.groups ≡ some row
      → let r = add_user_to_group u gid uid role db in
        ((r.1 ≡ db) × (is_ok r.0 ≡ false))
        ⊎ ((row.owner_id ≢ uid)
            × (get user_group_key (gid, uid) db.user_groups ≡ none)
            × (r ≡ (ok tt, record db { user_groups = db.user_groups ++ member gid uid role ∷ [] })))
  unfolding add_user_to_group Groups.read_by_id Groups.add_user insert_user_group unit_of_work
  add_user_to_group_lem row found = ground (arith, require_delete-state u gid db)

  pub add_user_to_group-missing :
      get group_key gid db.groups ≡ none
      → add_user_to_group u gid uid role db ≡ (err (raised group_not_found), db)
  unfolding add_user_to_group require_delete Groups.get_group_permission get_group_permission_with
  add_user_to_group-missing missing = ground arith

-- Only a superuser deletes a group.
pub delete_group_lem :
    (u : User) (gid : ℕ) (db : Db)
    → let r = delete_group u gid db in
      Atomic r tt (delete_in_group gid (record db { groups = delete group_key gid db.groups })) db
unfolding delete_group Groups.delete delete_group_row authorize unit_of_work
delete_group_lem u gid db = ground arith
