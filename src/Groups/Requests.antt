-- ===== src/Groups/Requests.antt =====
-- The requests that change groups and their members, served one after the other by the handlers of
-- syncmaster/server/api/v1/groups.py.
use syncmaster.Prelude.Tables.{get}
use syncmaster.Db.Cascade.{delete_in_group, delete_transfers, delete_queues, delete_connections}
use syncmaster.Role.{is_public_role, is_public}
use syncmaster.Db.{Db, User, GroupMemberRole, Group, group_key}
use syncmaster.Prelude.{
  List, Option, String, ℕ, inl, some, ◌+◌, ◌≡◌, arith, true, inr, none, ◌∷◌, [], refl, Option-cases,
  nat_eq, Bool-cases, ◌==◌,
}
use syncmaster.Groups.Outcomes.{
  update_group_lem, update_group-missing, create_group_lem, update_user_role_group_lem,
  delete_user_from_group_lem, add_user_to_group_lem, add_user_to_group-missing, delete_group_lem,
  group_updated,
}
use syncmaster.Groups.Api.{
  create_group, update_group, delete_group, update_user_role_group, add_user_to_group,
  delete_user_from_group, add_user_schema,
}
use syncmaster.Groups.Invariant.{
  GroupsValid, later-GroupsValid, insert_group-GroupsValid, insert_member-GroupsValid,
  delete_member-GroupsValid, set_role-GroupsValid, delete_group-GroupsValid,
  set_group-GroupsValid_same, hand_over-GroupsValid,
}

pub data GroupRequest : Type 0 where
  create : String → String → GroupRequest
  update : ℕ → String → String → ℕ → GroupRequest
  delete : ℕ → GroupRequest
  set_role add : ℕ → ℕ → String → GroupRequest
  remove : ℕ → ℕ → GroupRequest

-- The body of a request is validated before its handler runs.
abbrev validated : Option GroupMemberRole → (GroupMemberRole → Db) → Db → Db
validated none f db = db
validated (some role) f db = f role

-- The database after a request.
unfoldable pub handle : User → GroupRequest → Db → Db
handle u (create name description) db = (create_group u name description db).1
handle u (update gid name description o) db = (update_group u gid name description o db).1
handle u (delete gid) db = (delete_group u gid db).1
handle u (set_role gid uid role) db =
    validated (add_user_schema role) (λ r. (update_user_role_group u gid uid r db).1) db
handle u (add gid uid role) db =
    validated (add_user_schema role) (λ r. (add_user_to_group u gid uid r db).1) db
handle u (remove gid uid) db = (delete_user_from_group u gid uid db).1

unfoldable pub serve : List (User × GroupRequest) → Db → Db
serve [] db = db
serve ((u, req) ∷ reqs) db = serve reqs (handle u req db)

abbrev pub IsValid : Db → Type 0
IsValid db = GroupsValid db.groups db.user_groups db.seq.group

-- The body schema lets only public roles through.
pub add_user_schema-is_public :
    (s : String) (r : GroupMemberRole) → add_user_schema s ≡ some r → is_public r ≡ true
unfolding add_user_schema is_public_role
add_user_schema-is_public s r h = ground arith

validated-IsValid :
    (o : Option GroupMemberRole) (f : GroupMemberRole → Db) (db : Db)
    → IsValid db
    → ((r : GroupMemberRole) → o ≡ some r → IsValid (f r))
    → IsValid (validated o f db)
validated-IsValid none f db v h = v
validated-IsValid (some r) f db v h = h r refl

module _ (u : User) (db : Db) (v : IsValid db) where
  create_group-IsValid :
      (name description : String) → IsValid (create_group u name description db).1
  create_group-IsValid name description = elim (create_group_lem u name description db) [
    | inl e ↦
        rw e (
          later-GroupsValid db.groups db.user_groups db.seq.group v (db.seq.group + 1)
            (omega arith))
    | inr e ↦
        rw e
          (insert_group-GroupsValid db.groups db.user_groups db.seq.group v name description u.id)
  ]

  update_group-IsValid :
      (gid : ℕ) (name description : String) (o : ℕ)
      → IsValid (update_group u gid name description o db).1
  update_group-IsValid gid name description o = elim (Option-cases (get group_key gid db.groups)) [
    | inl missing ↦ rw (update_group-missing u gid name description o db missing) v
    | inr (row, found) ↦ updated row found
  ]
    where
      reset :
          (row : Group)
          → get group_key gid db.groups ≡ some row
          → IsValid (group_updated gid name description o row db)
      reset row found = elim (Bool-cases (row.owner_id == o)) [
        | inl same ↦ rw same (
            set_group-GroupsValid_same db.groups db.user_groups db.seq.group gid o name description
              row v found (ground arith))
        | inr other ↦ rw other (
            hand_over-GroupsValid db.groups db.user_groups db.seq.group gid o name description row v
              found (ground arith))
      ]

      updated :
          (row : Group)
          → get group_key gid db.groups ≡ some row
          → IsValid (update_group u gid name description o db).1
      updated row found = elim (update_group_lem u gid name description o db row found) [
        | inl (same, _) ↦ rw same v
        | inr e ↦ rw e (reset row found)
      ]

  add_user_to_group-IsValid :
      (gid uid : ℕ) (role : GroupMemberRole)
      → is_public role ≡ true
      → IsValid (add_user_to_group u gid uid role db).1
  add_user_to_group-IsValid gid uid role p = elim (Option-cases (get group_key gid db.groups)) [
    | inl missing ↦ rw (add_user_to_group-missing u gid uid role db missing) v
    | inr (row, found) ↦ added row found
  ]
    where
      added :
          (row : Group)
          → get group_key gid db.groups ≡ some row
          → IsValid (add_user_to_group u gid uid role db).1
      added row found = elim (add_user_to_group_lem u gid uid role db row found) [
        | inl (same, _) ↦ rw same v
        | inr (ne, absent, e) ↦ rw e (
            insert_member-GroupsValid db.groups db.user_groups db.seq.group v gid uid role row found
              ne absent p)
      ]

  update_user_role_group-IsValid :
      (gid uid : ℕ) (role : GroupMemberRole)
      → is_public role ≡ true
      → IsValid (update_user_role_group u gid uid role db).1
  update_user_role_group-IsValid gid uid role p =
      elim (update_user_role_group_lem u gid uid role db) [
        | inl same ↦ rw same v
        | inr e ↦ rw e (set_role-GroupsValid db.groups db.user_groups db.seq.group v gid uid role p)
      ]

  delete_user_from_group-IsValid : (gid uid : ℕ) → IsValid (delete_user_from_group u gid uid db).1
  delete_user_from_group-IsValid gid uid = elim (delete_user_from_group_lem u gid uid db) [
    | inl (same, _) ↦ rw same v
    | inr e ↦ rw e (delete_member-GroupsValid db.groups db.user_groups db.seq.group v gid uid)
  ]

  delete_group-IsValid : (gid : ℕ) → IsValid (delete_group u gid db).1
  delete_group-IsValid gid = elim (delete_group_lem u gid db) [
    | inl (same, _) ↦ rw same v
    | inr e ↦ rw e (
        unfold delete_in_group delete_transfers delete_queues delete_connections in
        delete_group-GroupsValid db.groups db.user_groups db.seq.group v gid)
  ]

  handle-IsValid : (req : GroupRequest) → IsValid (handle u req db)
  unfolding handle
  handle-IsValid (create name description) = create_group-IsValid name description
  handle-IsValid (update gid name description o) = update_group-IsValid gid name description o
  handle-IsValid (delete gid) = delete_group-IsValid gid
  handle-IsValid (set_role gid uid role) =
      validated-IsValid (add_user_schema role) (λ r. (update_user_role_group u gid uid r db).1) db v
        (λ r e. update_user_role_group-IsValid gid uid r (add_user_schema-is_public role r e))
  handle-IsValid (add gid uid role) =
      validated-IsValid (add_user_schema role) (λ r. (add_user_to_group u gid uid r db).1) db v
        (λ r e. add_user_to_group-IsValid gid uid r (add_user_schema-is_public role r e))
  handle-IsValid (remove gid uid) = delete_user_from_group-IsValid gid uid

-- Whatever requests are sent by whatever users, the invariant of groups and members holds after
-- them if it held before: keys stay distinct, every membership belongs to a group and has a public
-- role, and no owner of a group is among its members.
pub serve-IsValid :
    (reqs : List (User × GroupRequest)) (db : Db) → IsValid db → IsValid (serve reqs db)
unfolding serve
serve-IsValid [] db v = v
serve-IsValid ((u, req) ∷ reqs) db v =
    serve-IsValid reqs (handle u req db) (handle-IsValid u db v req)
