-- ===== src/Groups/Invariant.antt =====
-- The invariant of the tables group and user_group (syncmaster/db/models/group.py).
use syncmaster.Prelude.{
  List, ℕ, ◌≡◌, String, arith, ◌≤◌, keep, none, not, true, ◌++◌, some, ◌∷◌, ◌==◌, ◌≢◌, [], ◌+◌,
  nat_eq, pair_eq, if◌then◌else◌, refl, sym,
}
use syncmaster.Groups.Statements.{set_group, set_role}
use syncmaster.Prelude.Tables.{
  get, update, delete, Distinct, get-append, get-update, get-delete, Distinct-append,
  Distinct-update, Distinct-delete, Distinct-keep,
}
use syncmaster.Role.{is_public}
use syncmaster.Groups.Outcomes.{member}
use syncmaster.Db.{Group, group_key, UserGroup, user_group_key, GroupMemberRole, guest}

-- Keys are distinct, a sequence has not given a key yet that it will give, every membership belongs
-- to a group and has a public role, and no owner of a group is among its members.
pub record GroupsValid (gs : List Group) (ms : List UserGroup) (next : ℕ) : Type 0 where
  pub distinct_groups : Distinct group_key gs
  pub distinct_members : Distinct user_group_key ms
  pub fresh : (gid : ℕ) → next ≤ gid → get group_key gid gs ≡ none
  pub member_group :
      (gid uid : ℕ) → get group_key gid gs ≡ none → get user_group_key (gid, uid) ms ≡ none
  pub public_role :
      (k : ℕ × ℕ) (m : UserGroup) → get user_group_key k ms ≡ some m → is_public m.role ≡ true
  pub owner_outside :
      (gid : ℕ) (g : Group)
      → get group_key gid gs ≡ some g
      → get user_group_key (gid, g.owner_id) ms ≡ none

get-keep_group :
    (gid j w : ℕ) (ms : List UserGroup)
    → get user_group_key (j, w) (keep (λ m. not (m.group_id == gid)) ms)
      ≡ (if j == gid then none else get user_group_key (j, w) ms)
unfolding get
get-keep_group gid j w [] = ground arith
get-keep_group gid j w (m ∷ ms) = ground (arith, get-keep_group gid j w ms)

module _ (gs : List Group) (ms : List UserGroup) (next : ℕ) (v : GroupsValid gs ms next) where
  -- A sequence may have moved on.
  pub later-GroupsValid : (n : ℕ) → next ≤ n → GroupsValid gs ms n
  later-GroupsValid n h = record {
    distinct_groups = v.distinct_groups;
    distinct_members = v.distinct_members;
    fresh = λ gid l. v.fresh gid (omega arith);
    member_group = v.member_group;
    public_role = v.public_role;
    owner_outside = v.owner_outside;
  }

  pub insert_group-GroupsValid :
      (name description : String) (o : ℕ)
      → GroupsValid
          (gs ++ record { id = next; name = name; description = description; owner_id = o } ∷ [])
          ms
          (next + 1)
  insert_group-GroupsValid name description o =
      let new : Group = record {
        id = next;
        name = name;
        description = description;
        owner_id = o;
      } in
      record {
        distinct_groups =
            Distinct-append group_key gs new v.distinct_groups (v.fresh next (omega arith));
        distinct_members = v.distinct_members;
        fresh = λ gid l. ground (arith, get-append group_key gid gs new, v.fresh gid);
        member_group =
            λ gid uid h. ground (arith, get-append group_key gid gs new, v.member_group gid uid);
        public_role = v.public_role;
        owner_outside = λ gid g h. ground (
          arith,
          get-append group_key gid gs new,
          v.owner_outside gid g,
          v.fresh next (omega arith),
          v.member_group next o,
        );
      }

  pub insert_member-GroupsValid :
      (gid uid : ℕ) (role : GroupMemberRole) (g : Group)
      → get group_key gid gs ≡ some g
      → g.owner_id ≢ uid
      → get user_group_key (gid, uid) ms ≡ none
      → is_public role ≡ true
      → GroupsValid gs (ms ++ member gid uid role ∷ []) next
  insert_member-GroupsValid gid uid role g found ne absent pub_role = record {
    distinct_groups = v.distinct_groups;
    distinct_members =
        Distinct-append user_group_key ms (member gid uid role) v.distinct_members absent;
    fresh = v.fresh;
    member_group = λ j w h.
        ground
          (arith, get-append user_group_key (j, w) ms (member gid uid role), v.member_group j w);
    public_role = λ k m h.
        ground (arith, get-append user_group_key k ms (member gid uid role), v.public_role k m);
    owner_outside = λ j h e. ground (
      arith,
      get-append user_group_key (j, h.owner_id) ms (member gid uid role),
      v.owner_outside j h,
    );
  }

  pub delete_member-GroupsValid :
      (gid uid : ℕ) → GroupsValid gs (delete user_group_key (gid, uid) ms) next
  delete_member-GroupsValid gid uid = record {
    distinct_groups = v.distinct_groups;
    distinct_members = Distinct-delete user_group_key (gid, uid) ms v.distinct_members;
    fresh = v.fresh;
    member_group =
        λ j w h. ground (arith, get-delete user_group_key (gid, uid) (j, w) ms, v.member_group j w);
    public_role =
        λ k m h. ground (arith, get-delete user_group_key (gid, uid) k ms, v.public_role k m);
    owner_outside = λ j h e.
        ground
          (arith, get-delete user_group_key (gid, uid) (j, h.owner_id) ms, v.owner_outside j h);
  }

  pub set_role-GroupsValid :
      (gid uid : ℕ) (role : GroupMemberRole)
      → is_public role ≡ true
      → GroupsValid gs (update user_group_key (gid, uid) (set_role role) ms) next
  set_role-GroupsValid gid uid role pub_role = record {
    distinct_groups = v.distinct_groups;
    distinct_members =
        Distinct-update user_group_key (gid, uid) (set_role role) ms (λ r. refl) v.distinct_members;
    fresh = v.fresh;
    member_group = λ j w h. ground (
      arith,
      get-update user_group_key (gid, uid) (j, w) (set_role role) ms (λ r. refl),
      v.member_group j w,
    );
    public_role = λ k m h. ground (
      arith,
      get-update user_group_key (gid, uid) k (set_role role) ms (λ r. refl),
      v.public_role k m,
      v.public_role k,
    );
    owner_outside = λ j h e. ground (
      arith,
      get-update user_group_key (gid, uid) (j, h.owner_id) (set_role role) ms (λ r. refl),
      v.owner_outside j h,
    );
  }

  -- A group keeps its owner, or hands itself over to a user who is no member.
  pub set_group-GroupsValid :
      (gid : ℕ) (name description : String) (o : ℕ)
      → get user_group_key (gid, o) ms ≡ none
      → GroupsValid (update group_key gid (set_group name description o) gs) ms next
  set_group-GroupsValid gid name description o outside =
      let f = set_group name description o in
      record {
        distinct_groups = Distinct-update group_key gid f gs (λ r. refl) v.distinct_groups;
        distinct_members = v.distinct_members;
        fresh = λ j l. ground (arith, get-update group_key gid j f gs (λ r. refl), v.fresh j);
        member_group = λ j w h.
            ground (arith, get-update group_key gid j f gs (λ r. refl), v.member_group j w);
        public_role = v.public_role;
        owner_outside = λ j h e.
            ground (arith, get-update group_key gid j f gs (λ r. refl), v.owner_outside j h);
      }

  pub delete_group-GroupsValid :
      (gid : ℕ)
      → GroupsValid (delete group_key gid gs) (keep (λ m. not (m.group_id == gid)) ms) next
  delete_group-GroupsValid gid =
      let p = λ (m : UserGroup). not (m.group_id == gid) in
      record {
        distinct_groups = Distinct-delete group_key gid gs v.distinct_groups;
        distinct_members = Distinct-keep user_group_key p ms v.distinct_members;
        fresh = λ j l. ground (arith, get-delete group_key gid j gs, v.fresh j);
        member_group = λ j w h.
            ground
              (arith, get-keep_group gid j w ms, get-delete group_key gid j gs, v.member_group j w);
        public_role =
            λ (j, w) m h. ground (arith, get-keep_group gid j w ms, v.public_role (j, w) m);
        owner_outside = λ j h e. ground (
          arith,
          get-keep_group gid j h.owner_id ms,
          get-delete group_key gid j gs,
          v.owner_outside j h,
        );
      }

-- The group `row` gets a new owner: the new one leaves the members, the previous one joins them.
module _ (gs : List Group) (ms : List UserGroup) (next gid o : ℕ) (name description : String)
    (row : Group) (v : GroupsValid gs ms next) (found : get group_key gid gs ≡ some row) where
  abbrev remaining : List UserGroup
  remaining = delete user_group_key (gid, o) ms

  remaining-o : get user_group_key (gid, o) remaining ≡ none
  remaining-o = ground (arith, get-delete user_group_key (gid, o) (gid, o) ms)

  remaining-previous : get user_group_key (gid, row.owner_id) remaining ≡ none
  remaining-previous = ground (
    arith,
    get-delete user_group_key (gid, o) (gid, row.owner_id) ms,
    v.owner_outside gid row found,
  )

  found-set_group :
      get group_key gid (update group_key gid (set_group name description o) gs)
      ≡ some (set_group name description o row)
  found-set_group =
      ground (arith, get-update group_key gid gid (set_group name description o) gs (λ r. refl))

  pub hand_over-GroupsValid :
      row.owner_id ≢ o
      → GroupsValid
          (update group_key gid (set_group name description o) gs)
          (remaining ++ member gid row.owner_id guest ∷ [])
          next
  unfolding is_public
  hand_over-GroupsValid ne =
      insert_member-GroupsValid (update group_key gid (set_group name description o) gs) remaining
        next
        (set_group-GroupsValid gs remaining next (delete_member-GroupsValid gs ms next v gid o) gid
          name description o remaining-o)
        gid row.owner_id guest (set_group name description o row) found-set_group (λ e. ne (sym e))
        remaining-previous refl

  pub set_group-GroupsValid_same :
      row.owner_id ≡ o
      → GroupsValid (update group_key gid (set_group name description o) gs) ms next
  set_group-GroupsValid_same e =
      set_group-GroupsValid gs ms next v gid name description o
        (ground (arith, v.owner_outside gid row found))
