-- ===== src/Users/Superusers/Lookup.antt =====
-- Which users are superusers after the script has run.
use syncmaster.Users.Superusers.{
  add_superusers, remove_superusers, set_all, set_superuser, missing_names, insert_superusers,
  insert_superuser, new_superuser, is_named,
}
use syncmaster.Db.{User, Db}
use syncmaster.Users.{find_username}
use mathlib.Core.Option
use syncmaster.Prelude.{
  Bool, List, String, some, none, true, false, [], ◌∷◌, ◌++◌, ◌≡◌, any, str_eq, str_eq_iff, is_some,
  not, ◌&&◌, if◌then◌else◌, Bool-cases, inl, inr, refl, arith, subst, ◌∙◌, Option, sym,
}

find-set_all :
    (b : Bool) (names : List String) (username : String) (us : List User)
    → find_username username (set_all b names us) ≡ (
        if is_named names username
        then Option.map (set_superuser b) (find_username username us)
        else find_username username us)
find-set_all b names username [] = elim (Bool-cases (is_named names username)) [
  | inl named ↦ rw named refl
  | inr other ↦ rw other refl
]
find-set_all b names username (v ∷ us) = elim (Bool-cases (is_named names v.username)) [
  | inl named ↦ elim (Bool-cases (str_eq v.username username)) [
    | inl same ↦
        let here : is_named names username ≡ true =
          rw (← ((str_eq_iff v.username username).0 same)) named in
        rw (named, same, here) refl
    | inr differ ↦ rw (named, differ) (find-set_all b names username us)
  ]
  | inr other ↦ elim (Bool-cases (str_eq v.username username)) [
    | inl same ↦
        let away : is_named names username ≡ false =
          rw (← ((str_eq_iff v.username username).0 same)) other in
        rw (other, same, away) refl
    | inr differ ↦ rw (other, differ) (find-set_all b names username us)
  ]
]

find-missing_names :
    (username : String) (names : List String) (us : List User)
    → is_named (missing_names names us) username
      ≡ (is_named names username && not (is_some (find_username username us)))
find-missing_names username [] us = refl
find-missing_names username (name ∷ names) us = elim (Bool-cases (str_eq username name)) [
  | inl same ↦
      let e : username ≡ name = (str_eq_iff username name).0 same in
      subst
        (λ n.
          is_named (missing_names (n ∷ names) us) username
          ≡ (is_named (n ∷ names) username && not (is_some (find_username username us))))
        e (own username names us (find-missing_names username names us))
  | inr differ ↦ ground (arith, differ, find-missing_names username names us)
]
  where
    own :
        (username : String) (names : List String) (us : List User)
        → is_named (missing_names names us) username
          ≡ (is_named names username && not (is_some (find_username username us)))
        → is_named (missing_names (username ∷ names) us) username
          ≡ (is_named (username ∷ names) username && not (is_some (find_username username us)))
    own username names us ih = ground (arith, str_eq_iff username username, ih)

find-append_old :
    (username : String) (us vs : List User) (u : User)
    → find_username username us ≡ some u
    → find_username username (us ++ vs) ≡ some u
find-append_old username [] vs u h = absurd (ground (arith, h))
find-append_old username (w ∷ us) vs u h = ground (arith, h, find-append_old username us vs u)

find-append_new :
    (username : String) (us vs : List User)
    → find_username username us ≡ none
    → find_username username (us ++ vs) ≡ find_username username vs
find-append_new username [] vs h = refl
find-append_new username (w ∷ us) vs h = ground (arith, h, find-append_new username us vs)

insert_superusers-old :
    (username : String) (names : List String) (db : Db) (u : User)
    → find_username username db.users ≡ some u
    → find_username username (insert_superusers names db).users ≡ some u
insert_superusers-old username [] db u h = h
insert_superusers-old username (name ∷ names) db u h =
    insert_superusers-old username names (insert_superuser name db) u
      (find-append_old username db.users _ u h)

abbrev pub Superuser : String → List User → Type 0
Superuser username us = (u : User) × (find_username username us ≡ some u) × (u.is_superuser ≡ true)

insert_superusers-new :
    (username : String) (names : List String) (db : Db)
    → find_username username db.users ≡ none
    → is_named names username ≡ true
    → Superuser username (insert_superusers names db).users
insert_superusers-new username [] db h named = absurd (cc named)
insert_superusers-new username (name ∷ names) db h named =
    elim (Bool-cases (str_eq name username)) [
      | inl same ↦ (
        new_superuser name db.seq.user,
        insert_superusers-old username names (insert_superuser name db)
            (new_superuser name db.seq.user) (find-append_new username db.users _ h ∙ rw same refl),
        refl,
      )
      | inr other ↦
          insert_superusers-new username names (insert_superuser name db)
            (find-append_new username db.users _ h ∙ rw other refl)
            (ground (arith, str_eq_iff name username, str_eq_iff username name))
    ]

insert_superusers-other :
    (username : String) (names : List String) (db : Db)
    → is_named names username ≡ false
    → find_username username (insert_superusers names db).users ≡ find_username username db.users
insert_superusers-other username [] db other = refl
insert_superusers-other username (name ∷ names) db other =
    insert_superusers-other username names (insert_superuser name db) (ground arith)
    ∙ not_new (find_username username db.users) refl
  where
    differs : str_eq name username ≡ false
    differs = ground (arith, str_eq_iff name username, str_eq_iff username name)

    not_new :
        (o : Option User)
        → find_username username db.users ≡ o
        → find_username username (insert_superuser name db).users ≡ find_username username db.users
    not_new (some u) h = find-append_old username db.users _ u h ∙ sym h
    not_new none h = find-append_new username db.users _ h ∙ rw (differs, h) refl

add-named :
    (usernames : List String) (username : String) (db : Db)
    → is_named usernames username ≡ true
    → Superuser username (add_superusers usernames db).users
unfolding add_superusers
add-named usernames username db named = by_lookup (find_username username db.users) refl
  where
    marked : Db
    marked = record db { users = set_all true usernames db.users }

    by_lookup :
        (o : Option User)
        → find_username username db.users ≡ o
        → Superuser username (add_superusers usernames db).users
    by_lookup (some u) h = (
      set_superuser true u,
      insert_superusers-old username (missing_names usernames db.users) marked
          (set_superuser true u)
          (find-set_all true usernames username db.users ∙ rw (named, h) refl),
      refl,
    )
    by_lookup none h =
        insert_superusers-new username (missing_names usernames db.users) marked
          (find-set_all true usernames username db.users ∙ rw (named, h) refl)
          (find-missing_names username usernames db.users ∙ rw (named, h) refl)

add-other :
    (usernames : List String) (username : String) (db : Db)
    → is_named usernames username ≡ false
    → find_username username (add_superusers usernames db).users ≡ find_username username db.users
unfolding add_superusers
add-other usernames username db other =
    insert_superusers-other username (missing_names usernames db.users)
      (record db { users = set_all true usernames db.users })
      (find-missing_names username usernames db.users ∙ rw other refl)
    ∙ (find-set_all true usernames username db.users ∙ rw other refl)

-- After superusers were added, every user of a given name is one, and was created if there was none;
-- a user of any other name is as before. After the same names were removed, no user of these names
-- is a superuser, and again every other user is as before.
pub add_superusers-remove :
    (usernames : List String) (username : String) (db : Db)
    → let added = add_superusers usernames db in
      let removed = remove_superusers usernames added in
      if any (str_eq username) usernames
      then Superuser username added.users
        × ((u : User) × (find_username username removed.users ≡ some u) × (u.is_superuser ≡ false))
      else (find_username username added.users ≡ find_username username db.users)
        × (find_username username removed.users ≡ find_username username db.users)
unfolding remove_superusers
add_superusers-remove usernames username db = elim (Bool-cases (any (str_eq username) usernames)) [
  | inl named ↦
      let (u, found, super) = add-named usernames username db named in
      rw named (
        (u, found, super),
        (
          set_superuser false u,
          find-set_all false usernames username (add_superusers usernames db).users
              ∙ rw (named, found) refl,
          refl,
        ),
      )
  | inr other ↦
      let same = add-other usernames username db other in
      rw other (
        same,
        find-set_all false usernames username (add_superusers usernames db).users ∙ rw other same,
      )
]
