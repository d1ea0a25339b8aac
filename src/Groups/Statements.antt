-- ===== src/Groups/Statements.antt =====
-- The statements on the tables group and user_group (syncmaster/db/models/group.py), with the
-- constraints of those tables. Unique constraints are checked before foreign keys.
use syncmaster.Prelude.{
  ℕ, ◌+◌, String, Bool, ◌&&◌, not, Option, none, List, [], ◌∷◌, ◌++◌, any, is_some, ◌==◌, nat_eq,
  pair_eq, if◌then◌else◌, str_eq, fits,
}
use syncmaster.Prelude.Tables.{get, update, delete}
use syncmaster.Errors.{
  uq__group__name, fk__group__owner_id__user, pk__user_group, fk__user_group__group_id__group,
  fk__user_group__user_id__user,
}
use syncmaster.Db.{Db, user_key, Group, group_key, UserGroup, user_group_key, GroupMemberRole}
use syncmaster.Db.Cascade.{delete_in_group}
use syncmaster.Session.{M, ok, pure, one, violates, out_of_range, ◌>>=◌}

abbrev has_user : ℕ → Db → Bool
has_user uid db = is_some (get user_key uid db.users)

abbrev has_group : ℕ → Db → Bool
has_group gid db = is_some (get group_key gid db.groups)

-- Another group with this name.
abbrev pub name_taken : String → List Group → Bool
name_taken name gs = any (λ g. str_eq g.name name) gs

-- `String(128)` and `String(512)`
unfoldable pub fits_group : String → String → Bool
fits_group name description = fits 128 name && fits 512 description

abbrev next_group : M ℕ
next_group db = (ok db.seq.group, record db { seq = record db.seq { group = db.seq.group + 1 } })

abbrev add_group : Group → M Group
add_group g db = (ok g, record db { groups = db.groups ++ g ∷ [] })

-- `insert(Group).values(…).returning(Group)`
unfoldable pub insert_group : String → String → ℕ → M Group
insert_group name description owner_id = do
  gid ← next_group
  λ db.
      if not (fits_group name description)
      then out_of_range db
      else if name_taken name db.groups
      then violates uq__group__name db
      else if not (has_user owner_id db)
      then violates fk__group__owner_id__user db
      else add_group
          (record { id = gid; name = name; description = description; owner_id = owner_id }) db

abbrev pub set_group : String → String → ℕ → Group → Group
set_group name description owner_id g = record g {
  name = name;
  description = description;
  owner_id = owner_id;
}

-- `update(Group).where(Group.id == gid).values(…).returning(Group)`, and `one()`
unfoldable pub update_group_row : ℕ → String → String → ℕ → M Group
update_group_row gid name description owner_id db =
    if not (has_group gid db)
    then one none db
    else if not (fits_group name description)
    then out_of_range db
    else if any (λ g. not (g.id == gid) && str_eq g.name name) db.groups
    then violates uq__group__name db
    else if not (has_user owner_id db)
    then violates fk__group__owner_id__user db
    else let db' = record db {
      groups = update group_key gid (set_group name description owner_id) db.groups;
    } in
      one (get group_key gid db'.groups) db'

-- `delete(Group).filter_by(id=gid).returning(Group)`, and `one()`. The foreign keys cascade.
unfoldable pub delete_group_row : ℕ → M Group
unfolding delete_in_group
delete_group_row gid db =
    one (get group_key gid db.groups)
      (delete_in_group gid (record db { groups = delete group_key gid db.groups }))

-- `insert(UserGroup).values(…)`
unfoldable pub insert_user_group : ℕ → ℕ → GroupMemberRole → M Unit
insert_user_group gid uid role db =
    if is_some (get user_group_key (gid, uid) db.user_groups)
    then violates pk__user_group db
    else if not (has_group gid db)
    then violates fk__user_group__group_id__group db
    else if not (has_user uid db)
    then violates fk__user_group__user_id__user db
    else pure tt (record db {
      user_groups = db.user_groups ++ record { user_id = uid; group_id = gid; role = role } ∷ [];
    })

abbrev pub set_role : GroupMemberRole → UserGroup → UserGroup
set_role role m = record m { role = role }

-- `update(UserGroup).where(…).values(…).returning(UserGroup)`; the key columns keep their values.
unfoldable pub update_user_group : ℕ → ℕ → GroupMemberRole → M (Option UserGroup)
update_user_group gid uid role db =
    let db' = record db {
      user_groups = update user_group_key (gid, uid) (set_role role) db.user_groups;
    } in
    pure (get user_group_key (gid, uid) db'.user_groups) db'

-- `session.delete(user_group)`
unfoldable pub delete_user_group : ℕ → ℕ → M Unit
delete_user_group gid uid db =
    pure tt (record db { user_groups = delete user_group_key (gid, uid) db.user_groups })
