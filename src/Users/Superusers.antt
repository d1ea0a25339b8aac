-- ===== src/Users/Superusers.antt =====
-- The script syncmaster/server/scripts/manage_superusers.py, on a list of names. What a list of
-- names loses in a Python set are the repetitions; the order of the set, which decides the keys of
-- new users, is that of the list here.
pub mod Lookup
use syncmaster.Db.{User, Db}
use syncmaster.Users.{find_username}
use mathlib.Core.Option
use syncmaster.Prelude.{
  Bool, List, String, some, none, true, false, [], ◌∷◌, ◌++◌, ◌+◌, ◌≡◌, any, map, keep, str_eq,
  str_eq_iff, is_some, not, ◌&&◌, ◌||◌, if◌then◌else◌, Bool-cases, inl, inr, refl, arith, subst, ℕ,
  ◌∙◌, Option, sym,
}

abbrev pub set_superuser : Bool → User → User
set_superuser b u = record u { is_superuser = b }

abbrev pub is_named : List String → String → Bool
is_named usernames username = any (str_eq username) usernames

-- The loop over the users with `User.username.in_(usernames)`.
abbrev pub set_all : Bool → List String → List User → List User
set_all b usernames us =
    map (λ u. if is_named usernames u.username then set_superuser b u else u) us

-- `not_found`: the names of no user.
abbrev pub missing_names : List String → List User → List String
missing_names [] us = []
missing_names (name ∷ names) us =
    let rest = missing_names names us in
    if is_some (find_username name us) || is_named names name then rest else name ∷ rest

-- `User(username=username, is_superuser=True)`
abbrev pub new_superuser : String → ℕ → User
new_superuser username id = record {
  id = id;
  username = username;
  email = none;
  first_name = none;
  last_name = none;
  middle_name = none;
  is_superuser = true;
  is_active = true;
}

-- `session.add(…)`
abbrev pub insert_superuser : String → Db → Db
insert_superuser username db = record db {
  users = db.users ++ new_superuser username db.seq.user ∷ [];
  seq = record db.seq { user = db.seq.user + 1 };
}

abbrev pub insert_superusers : List String → Db → Db
insert_superusers [] db = db
insert_superusers (name ∷ names) db = insert_superusers names (insert_superuser name db)

unfoldable pub add_superusers : List String → Db → Db
add_superusers usernames db =
    insert_superusers (missing_names usernames db.users)
      (record db { users = set_all true usernames db.users })

unfoldable pub remove_superusers : List String → Db → Db
remove_superusers usernames db = record db { users = set_all false usernames db.users }

-- The names that `list_superusers` logs; the order by name is that of the database.
unfoldable pub list_superusers : (List User → List User) → Db → List String
list_superusers order db = map (λ u. u.username) (order (keep (λ u. u.is_superuser) db.users))
