-- ===== src/Groups/Visible.antt =====
-- Which groups a listing shows.
use syncmaster.Pagination.{paginate, pagination}
use syncmaster.Groups
use syncmaster.Session.{ok}
use syncmaster.Access.{
  delete, is_none, group_permission, owns_group, membership_permission, membership,
}
use syncmaster.Prelude.Tables.{get, key-get}
use syncmaster.Db.{Group, UserGroup, group_key, owner, User, Db}
use syncmaster.Groups.Listing.{
  GroupItem, joined, read_groups, with_group, owned_groups, paginate_for_user, user_groups,
}
use syncmaster.Prelude.{
  Bool, String, ℕ, List, any, is_some, ◌==◌, find?, ◌++◌, map, ◌≡◌, true, keep, ◌||◌, ◌∷◌, arith,
  ◌&&◌, none, [], Option, refl, nat_eq, false, some, not, ==_iff, ◌∙◌, ap, take, drop, ◌-◌, ◌*◌,
  length, ◌+◌, if◌then◌else◌, length-append,
}

any-append :
    {A : Type 0} (p : A → Bool) (xs ys : List A) → any p (xs ++ ys) ≡ (any p xs || any p ys)
any-append p [] ys = refl
any-append p (x ∷ xs) ys = ground (arith, any-append p xs ys)

-- The item of a group.
abbrev pub shows : ℕ → GroupItem → Bool
shows gid item = item.0.id == gid

owned-any :
    (uid gid : ℕ) (gs : List Group)
    → any (shows gid) (map (λ g. (g, owner)) (keep (λ g. g.owner_id == uid && true) gs))
      ≡ any (λ g. g.owner_id == uid && g.id == gid) gs
owned-any uid gid [] = refl
owned-any uid gid (g ∷ gs) = ground (arith, owned-any uid gid gs)

find-any : {A : Type 0} (p : A → Bool) (xs : List A) → is_some (find? p xs) ≡ any p xs
find-any p [] = refl
find-any p (x ∷ xs) = ground (arith, find-any p xs)

module _ (matches : String → Group → Bool) (order : List GroupItem → List GroupItem) where
  with_group-any :
      (uid gid : ℕ) (m : UserGroup) (o : Option Group) (rest : List GroupItem)
      → ((g : Group) → o ≡ some g → g.id ≡ m.group_id)
      → (is_some o ≡ false → (m.group_id == gid) ≡ false)
      → any (shows gid) (with_group matches order (λ g. m.user_id == uid && true) m.role o rest)
        ≡ ((m.group_id == gid && m.user_id == uid) || any (shows gid) rest)
  with_group-any uid gid m none rest key missing = rw (missing refl) refl
  with_group-any uid gid m (some g) rest key missing = ground (arith, key g refl)

  -- A group that exists is joined for each membership in it.
  joined-any :
      (uid gid : ℕ) (gs : List Group) (ms : List UserGroup)
      → is_some (get group_key gid gs) ≡ true
      → any (shows gid) (joined matches order uid none none gs ms)
        ≡ any (λ m. m.group_id == gid && m.user_id == uid) ms
  joined-any uid gid gs [] there = refl
  joined-any uid gid gs (m ∷ ms) there =
      with_group-any uid gid m (get group_key m.group_id gs)
        (joined matches order uid none none gs ms) (λ g e. key-get group_key m.group_id gs g e)
        missing
      ∙ ap (λ b. (m.group_id == gid && m.user_id == uid) || b) (joined-any uid gid gs ms there)
    where
      missing : is_some (get group_key m.group_id gs) ≡ false → (m.group_id == gid) ≡ false
      missing none_there = ground (arith, none_there, there, ==_iff m.group_id gid)

  -- All groups of a user, without a search and a filter, in the order of the pages.
  abbrev pub listed : ℕ → Db → List GroupItem
  listed uid db =
      owned_groups matches order uid none none db ++ user_groups matches order uid none none db

  module _ (keeps : (p : GroupItem → Bool) (xs : List GroupItem) → any p (order xs) ≡ any p xs)
      (u : User) (plain : u.is_superuser ≡ false) (page page_size : ℕ) (db : Db) where
    pages_of :
        (xs ys : List GroupItem)
        → pagination
            (take page_size (drop ((page - 1) * page_size) (xs ++ ys)))
            page
            page_size
            (length xs + length ys)
          ≡ paginate (xs ++ ys) page page_size
    unfolding paginate
    pages_of xs ys = rw (length-append xs ys) refl

    may_read :
        (gid : ℕ)
        → (owns_group u gid db.groups
            || any (λ m. m.group_id == gid && m.user_id == u.id) db.user_groups)
          ≡ not (is_none (group_permission Groups.group_policy u gid db))
    unfolding group_permission
    may_read gid =
        rw (plain, ← find-any (λ m. m.group_id == gid && m.user_id == u.id) db.user_groups)
          (by_owner (owns_group u gid db.groups) (membership u gid db.user_groups))
      where
        by_owner :
            (owns : Bool) (o : Option UserGroup)
            → (owns || is_some o)
              ≡ not (is_none (if owns then delete else membership_permission Groups.group_policy o))
        by_owner true o = refl
        by_owner false none = refl
        by_owner false (some m) = refl

    listed-any :
        (gid : ℕ)
        → is_some (get group_key gid db.groups) ≡ true
        → any (shows gid) (listed u.id db)
          ≡ not (is_none (group_permission Groups.group_policy u gid db))
    listed-any gid there =
        any-append (shows gid) (owned_groups matches order u.id none none db)
          (user_groups matches order u.id none none db)
        ∙ rw
            (
              keeps (shows gid)
                  (map (λ g. (g, owner)) (keep (λ g. g.owner_id == u.id && true) db.groups)),
              keeps (shows gid) (joined matches order u.id none none db.groups db.user_groups),
              owned-any u.id gid db.groups,
              joined-any u.id gid db.groups db.user_groups there,
            )
            (may_read gid)

    -- The listing of a user who is no superuser, without a search and a filter, has the pages of one
    -- list, which shows a group that exists exactly if the user has the permission to read it,
    -- if the order keeps the rows.
    pub read_groups-permission :
        (gid : ℕ)
        → is_some (get group_key gid db.groups) ≡ true
        → (read_groups matches order u page page_size none none db
            ≡ (ok (paginate (listed u.id db) page page_size), db))
          × (any (shows gid) (listed u.id db)
              ≡ not (is_none (group_permission Groups.group_policy u gid db)))
    unfolding read_groups paginate_for_user
    read_groups-permission gid there = (
      rw plain (
          ap (λ p. (ok p, db))
            (pages_of (owned_groups matches order u.id none none db)
              (user_groups matches order u.id none none db))),
      listed-any gid there,
    )
