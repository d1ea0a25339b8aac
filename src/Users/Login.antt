-- ===== src/Users/Login.antt =====
-- The login of the identity providers in syncmaster/server/providers/auth: the user that a token
-- names is read or created. The rest of the providers is in Providers.
use syncmaster.Errors.{authorization_error, data_error}
use syncmaster.Db.{User, Db}
use syncmaster.Session.{
  M, raise, unit_of_work, except_entity, ◌>>=◌, ◌>>◌, raise_if, pure, ok, err, Result,
}
use syncmaster.Prelude.{
  ℕ, String, Option, some, none, false, str_eq, ◌||◌, not, List, true, ◌++◌, ◌≡◌, arith, ◌∷◌,
  Bool-cases, refl, [], ◌+◌, inl, str_eq_iff, inr, sym, ◌∙◌,
}
use syncmaster.Users.{fits_user, UserData, insert_user, find_username}
use syncmaster.Users

-- The block of `get_current_user` of Keycloak and of the OAuth2 gateway, and of
-- `uow.user.create(username=login)`
abbrev pub named : String → UserData
named username = record {
  username = username;
  email = none;
  first_name = none;
  middle_name = none;
  last_name = none;
  is_superuser = false;
}

-- `get_token_password_grant` of the dummy provider.
unfoldable pub read_or_create : UserData → M User
read_or_create d = unit_of_work (except_entity (Users.read_by_username d.username) (Users.create d))

-- `get_token_password_grant`, with the access token of the response; `sign` makes the access token for a user id. The message on a user
-- that is disabled is kept as the name in it.
unfoldable pub get_token_password_grant : (ℕ → String) → Option String → Option String → M String
get_token_password_grant sign none password = raise (authorization_error "Missing auth credentials")
get_token_password_grant sign (some login) none =
    raise (authorization_error "Missing auth credentials")
get_token_password_grant sign (some login) (some password) = do
  raise_if (str_eq login "" || str_eq password "") (authorization_error "Missing auth credentials")
  user ← read_or_create (named login)
  raise_if (not user.is_active) (authorization_error user.username)
  pure (sign user.id)

pub find-username :
    (username : String) (us : List User) (u : User)
    → find_username username us ≡ some u
    → u.username ≡ username
find-username username [] u h = absurd (ground arith)
find-username username (v ∷ us) u h = elim (Bool-cases (str_eq v.username username)) [
  | inl same ↦ ground (arith, h, same, (str_eq_iff v.username username).0 same)
  | inr other ↦ find-username username us u (rw other at h)
]

find-new :
    (username : String) (us : List User) (u : User)
    → find_username username us ≡ none
    → u.username ≡ username
    → find_username username (us ++ u ∷ []) ≡ some u
find-new username [] u h e = rw ((str_eq_iff u.username username).1 e) refl
find-new username (v ∷ us) u h e = elim (Bool-cases (str_eq v.username username)) [
  | inl same ↦ absurd (ground (arith, h, same))
  | inr other ↦ rw other (find-new username us u (rw other at h) e)
]

-- A user that is there is read.
pub read_or_create-found :
    (d : UserData) (db : Db) (u : User)
    → find_username d.username db.users ≡ some u
    → read_or_create d db ≡ (ok u, db)
unfolding read_or_create Users.read_by_username unit_of_work
read_or_create-found d db u h = ground arith

-- The row that a login makes.
abbrev pub created : UserData → Db → User
created d db = record {
  id = db.seq.user;
  username = d.username;
  email = d.email;
  first_name = d.first_name;
  last_name = d.last_name;
  middle_name = d.middle_name;
  is_superuser = d.is_superuser;
  is_active = true;
}

abbrev pub with_created : UserData → Db → Db
with_created d db = record db {
  users = db.users ++ created d db ∷ [];
  seq = record db.seq { user = db.seq.user + 1 };
}

-- One of values that do not fit in their columns is not created.
pub read_or_create-refused :
    (d : UserData) (db : Db)
    → fits_user d ≡ false
    → find_username d.username db.users ≡ none
    → (read_or_create d db).0 ≡ err data_error
unfolding read_or_create Users.read_by_username unit_of_work Users.create insert_user
read_or_create-refused d db long h = ground arith

pub read_or_create-missing :
    (d : UserData) (db : Db)
    → fits_user d ≡ true
    → find_username d.username db.users ≡ none
    → read_or_create d db ≡ (ok (created d db), with_created d db)
unfolding read_or_create Users.read_by_username unit_of_work Users.create insert_user
read_or_create-missing d db fitting h = ground arith

-- A login whose name, mail and names have at most 256 characters, as their columns hold, gives a user
-- of the name that the token has, and the next login with this name gives the same user and changes
-- nothing, whatever else the token says.
pub read_or_create-again :
    (d again : UserData) (db : Db)
    → fits_user d ≡ true
    → again.username ≡ d.username
    → (u : User) × (db' : Db) × (read_or_create d db ≡ (ok u, db'))
      × (u.username ≡ d.username)
      × (read_or_create again db' ≡ (ok u, db'))
read_or_create-again d again db fitting same = by_lookup (find_username d.username db.users) refl
  where
    by_lookup :
        (o : Option User)
        → find_username d.username db.users ≡ o
        → (u : User) × (db' : Db) × (read_or_create d db ≡ (ok u, db'))
          × (u.username ≡ d.username)
          × (read_or_create again db' ≡ (ok u, db'))
    by_lookup (some u) h = (
      u,
      db,
      read_or_create-found d db u h,
      find-username d.username db.users u h,
      read_or_create-found again db u (rw same h),
    )
    by_lookup none h = (
      created d db,
      with_created d db,
      read_or_create-missing d db fitting h,
      refl,
      read_or_create-found again (with_created d db) (created d db)
          (rw same (find-new d.username db.users (created d db) h refl)),
    )

-- The user whom a login gives has the name that was asked for.
pub read_or_create-named :
    (d : UserData) (db db' : Db) (u : User)
    → read_or_create d db ≡ (ok u, db')
    → u.username ≡ d.username
read_or_create-named d db db' u h = by_lookup (find_username d.username db.users) refl
  where
    by_lookup : (o : Option User) → find_username d.username db.users ≡ o → u.username ≡ d.username
    by_lookup (some v) found =
        let same : ◌≡◌ {A = Result User × Db} (ok v, db) (ok u, db') =
          sym (read_or_create-found d db v found) ∙ h in
        let named : v.username ≡ d.username = find-username d.username db.users v found in
        cc (same, named)
    by_lookup none missing = elim (Bool-cases (fits_user d)) [
      | inl fitting ↦
          let same : ◌≡◌ {A = Result User × Db} (ok (created d db), with_created d db) (ok u, db') =
            sym (read_or_create-missing d db fitting missing) ∙ h in
          cc same
      | inr long ↦
          let refused = read_or_create-refused d db long missing in absurd (cc (refused, h))
    ]
