-- ===== src/Groups/Rights.antt =====
-- The rights in a group, for the handlers of syncmaster/server/api/v1/groups.py.
use syncmaster.Groups.Outcomes.{updated_groups, handed_over, group_updated}
use syncmaster.Groups.Requests.{IsValid}
use syncmaster.Groups.Statements.{
  delete_user_group, update_group_row, insert_user_group, set_group, fits_group,
}
use syncmaster.Session.{err, unit_of_work, ok}
use syncmaster.Groups
use syncmaster.Prelude.Tables.{get, delete_missing, get-delete, get-update}
use syncmaster.Errors.{SyncmasterError, group_not_found, action_not_allowed, raised}
use syncmaster.Db.{User, UserGroup, Db, group_key, GroupMemberRole, Group, user_group_key, user_key}
use syncmaster.Prelude.{
  Option, ℕ, ◌≡◌, some, false, is_some, none, true, String, ◌≢◌, nat_eq, arith, pair_eq, List, any,
  ◌∷◌, not, [], refl, ◌||◌, ◌==◌, ◌&&◌, str_eq,
}
use syncmaster.Groups.Api.{
  require_delete, update_group, update_user_role_group, add_user_to_group, delete_user_from_group,
  hand_over,
}
use syncmaster.Access.{owns_group, membership, group_permission, get_group_permission_with}
use syncmaster.Access.Laws.{}

-- The answer to a user without rights: members learn that they may not, others not even that the
-- group exists.
abbrev pub refusal : Option UserGroup → SyncmasterError
refusal none = group_not_found
refusal (some _) = action_not_allowed

module _ (u : User) (gid : ℕ) (db : Db) (plain : u.is_superuser ≡ false)
    (stranger : owns_group u gid db.groups ≡ false) where
  -- In an existing group.
  module _ (exists : is_some (get group_key gid db.groups) ≡ true) where
    require_delete-refusal :
        require_delete u gid db ≡ (err (raised (refusal (membership u gid db.user_groups))), db)
    unfolding require_delete Groups.get_group_permission get_group_permission_with group_permission
    require_delete-refusal = ground arith

    delete_other-refusal :
        (uid : ℕ)
        → uid ≢ u.id
        → delete_user_from_group u gid uid db
          ≡ (err (raised (refusal (membership u gid db.user_groups))), db)
    unfolding delete_user_from_group Groups.get_group_permission get_group_permission_with
        group_permission
    delete_other-refusal uid other = ground arith

    -- A user who neither owns an existing group nor is a superuser changes nothing in it, whether
    -- by updating it, by changing a role, by adding a member or by removing another member: a member
    -- is told that the action is not allowed, and anybody else that the group was not found. The
    -- role may be the user's own, and the user may be the one to add.
    pub refused :
        (name description : String) (o uid removed : ℕ) (role : GroupMemberRole)
        → removed ≢ u.id
        → let e = raised (refusal (membership u gid db.user_groups)) in
          (update_group u gid name description o db ≡ (err e, db))
          × (update_user_role_group u gid uid role db ≡ (err e, db))
          × (add_user_to_group u gid uid role db ≡ (err e, db))
          × (delete_user_from_group u gid removed db ≡ (err e, db))
    unfolding update_group update_user_role_group add_user_to_group
    refused name description o uid removed role other = (
      ground (arith, require_delete-refusal),
      ground (arith, require_delete-refusal),
      ground (arith, require_delete-refusal),
      delete_other-refusal removed other,
    )

-- The two ways in which the program looks a membership up find the same row.
pub membership-get :
    (u : User) (gid : ℕ) (ms : List UserGroup)
    → membership u gid ms ≡ get user_group_key (gid, u.id) ms
unfolding get
membership-get u gid [] = refl
membership-get u gid (m ∷ ms) = ground (arith, membership-get u gid ms)

owns_group-found :
    (u : User) (gid : ℕ) (gs : List Group) (row : Group)
    → get group_key gid gs ≡ some row
    → row.owner_id ≡ u.id
    → owns_group u gid gs ≡ true
unfolding get
owns_group-found u gid [] row found e = ground arith
owns_group-found u gid (g ∷ gs) row found e = ground (arith, owns_group-found u gid gs row)

-- A member can leave a group, whatever the role: the request returns, and exactly that membership
-- is gone.
pub leave :
    (u : User) (gid : ℕ) (db : Db)
    → is_some (get group_key gid db.groups) ≡ true
    → is_some (get user_group_key (gid, u.id) db.user_groups) ≡ true
    → delete_user_from_group u gid u.id db ≡ (
      ok tt,
      record db {
        user_groups = syncmaster.Prelude.Tables.delete user_group_key (gid, u.id) db.user_groups;
      },
    )
unfolding delete_user_from_group Groups.delete_user delete_user_group Groups.get_group_permission
    get_group_permission_with group_permission unit_of_work
leave u gid db exists inside = ground (arith, membership-get u gid db.user_groups)

module _ (u : User) (gid : ℕ) (name description : String) (o : ℕ) (row : Group) (db : Db) where
  require_delete-allowed :
      get group_key gid db.groups ≡ some row
      → (u.is_superuser || row.owner_id == u.id) ≡ true
      → require_delete u gid db ≡ (ok tt, db)
  unfolding require_delete Groups.get_group_permission get_group_permission_with group_permission
  require_delete-allowed found right = ground (arith, owns_group-found u gid db.groups row found)

  update-succeeds :
      get group_key gid db.groups ≡ some row
      → fits_group name description ≡ true
      → any (λ g. not (g.id == gid) && str_eq g.name name) db.groups ≡ false
      → is_some (get user_key o db.users) ≡ true
      → Groups.update gid name description o db ≡ (
        ok (set_group name description o row),
        record db { groups = updated_groups gid name description o db },
      )
  unfolding Groups.update update_group_row
  update-succeeds found fitting free known =
      ground
        (arith, get-update group_key gid gid (set_group name description o) db.groups (λ r. refl))

  hand_over-succeeds :
      IsValid db
      → get group_key gid db.groups ≡ some row
      → is_some (get user_key row.owner_id db.users) ≡ true
      → row.owner_id ≢ o
      → hand_over gid row.owner_id o
          (record db { groups = updated_groups gid name description o db })
        ≡ (
          ok tt,
          record db {
            groups = updated_groups gid name description o db;
            user_groups = handed_over gid row.owner_id o db;
          },
        )
  unfolding hand_over Groups.get_user_group Groups.delete_user Groups.add_user insert_user_group
      delete_user_group
  hand_over-succeeds v found known ne = ground (
    arith,
    delete_missing user_group_key (gid, o) db.user_groups,
    v.owner_outside gid row found,
    get-delete user_group_key (gid, o) (gid, row.owner_id) db.user_groups,
    get-update group_key gid gid (set_group name description o) db.groups (λ r. refl),
  )

  -- In a database whose groups and members are consistent, an owner of the group or a superuser who
  -- gives a name and a description that fit in their columns, a name that no other group has, and an
  -- existing user as the owner, gets the update, if the previous owner exists: the group has the new name, description and owner, and if the owner
  -- changed, the new owner is no longer among the members and the previous owner is a guest.
  pub update_group-succeeds :
      IsValid db
      → get group_key gid db.groups ≡ some row
      → (u.is_superuser || row.owner_id == u.id) ≡ true
      → fits_group name description ≡ true
      → any (λ g. not (g.id == gid) && str_eq g.name name) db.groups ≡ false
      → is_some (get user_key o db.users) ≡ true
      → is_some (get user_key row.owner_id db.users) ≡ true
      → update_group u gid name description o db
        ≡ (ok (set_group name description o row), group_updated gid name description o row db)
  unfolding update_group Groups.read_by_id unit_of_work
  update_group-succeeds v found right fitting free known previous_known = ground (
    arith,
    require_delete-allowed found right,
    update-succeeds found fitting free known,
    hand_over-succeeds v found previous_known,
  )
