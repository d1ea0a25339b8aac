-- ===== src/Providers/Dummy/Tokens.antt =====
-- A token of the dummy provider names the user who asked for it.

use syncmaster.Prelude.{
  String, ◌≡◌, List, none, some, Option, ◌∷◌, nat_eq, [], refl, ℕ, sym, Bool-cases, ◌<◌, str_eq,
  false, inl, arith, inr, ◌∙◌, true, ◌+◌, not, ◌||◌,
}
use syncmaster.Providers.Dummy.{
  JwtLibrary, Payload, payload_of, dummy_current_user, password_grant, Token,
}
use syncmaster.Users.Login.{
  read_or_create, read_or_create-found, created, with_created, read_or_create-missing,
  read_or_create-named, read_or_create-refused, get_token_password_grant, named,
}
use syncmaster.Users.{fits_user, find_username, UserData}
use syncmaster.Users
use syncmaster.Session.{ok, Result, bind-ok, pure, raise_if, ◌>>=◌, ◌>>◌, M}
use syncmaster.Errors.{authorization_error}
use syncmaster.Db.{User, Db, user_key}
use syncmaster.Prelude.Tables.{get, Distinct, get-append}

-- With distinct keys, a user that is found by name is found by key.
find-get :
    (username : String) (us : List User) (u : User)
    → Distinct user_key us
    → find_username username us ≡ some u
    → get user_key u.id us ≡ some u
unfolding get
find-get username [] u d h = absurd (cc h)
find-get username (v ∷ us) u (fresh, d) h = elim (Bool-cases (str_eq v.username username)) [
  | inl same ↦ ground (arith, same, h)
  | inr other ↦ ground (arith, fresh, find-get username us u d (rw other at h))
]

-- The user whom a login gives is found by its key afterwards.
read_or_create-get :
    (d : UserData) (db db' : Db) (u : User)
    → Distinct user_key db.users
    → get user_key db.seq.user db.users ≡ none
    → read_or_create d db ≡ (ok u, db')
    → get user_key u.id db'.users ≡ some u
read_or_create-get d db db' u distinct fresh h = by_lookup (find_username d.username db.users) refl
  where
    moved :
        (v : User) (db1 : Db)
        → ◌≡◌ {A = Result User × Db} (ok v, db1) (ok u, db')
        → get user_key v.id db1.users ≡ some v
        → get user_key u.id db'.users ≡ some u
    moved v db1 same found = cc (same, found)

    by_lookup :
        (o : Option User)
        → find_username d.username db.users ≡ o
        → get user_key u.id db'.users ≡ some u
    by_lookup (some v) e =
        moved v db (sym (read_or_create-found d db v e) ∙ h)
          (find-get d.username db.users v distinct e)
    by_lookup none e = elim (Bool-cases (fits_user d)) [
      | inl fitting ↦
          moved (created d db) (with_created d db) (sym (read_or_create-missing d db fitting e) ∙ h)
            (get-append user_key db.seq.user db.users (created d db) ∙ rw fresh (ground arith))
      | inr long ↦ let refused = read_or_create-refused d db long e in absurd (cc (refused, h))
    ]

-- What was done when a token was granted.
granted_lem :
    (sign : ℕ → String) (login password access_token : String) (db db' : Db)
    → get_token_password_grant sign (some login) (some password) db ≡ (ok access_token, db')
    → (u : User) × (read_or_create (named login) db ≡ (ok u, db'))
      × (u.is_active ≡ true)
      × (access_token ≡ sign u.id)
unfolding get_token_password_grant
granted_lem sign login password access_token db db' h =
    elim (Bool-cases (str_eq login "" || str_eq password "")) [
      | inl missing ↦ absurd (cc (rw missing at h))
      | inr given ↦ of_user (rw given at h)
    ]
  where
    of_user :
        (read_or_create (named login) >>= λ u.
        raise_if (not u.is_active) (authorization_error u.username) >> pure (sign u.id))
            db
          ≡ (ok access_token, db')
        → (u : User) × (read_or_create (named login) db ≡ (ok u, db'))
          × (u.is_active ≡ true)
          × (access_token ≡ sign u.id)
    of_user h =
        let (u, db1, made, rest) =
          bind-ok (read_or_create (named login))
            (λ u. raise_if (not u.is_active) (authorization_error u.username) >> pure (sign u.id))
            db db' access_token h in
        elim (Bool-cases u.is_active) [
          | inl active ↦
              let end : ◌≡◌ {A = Result String × Db} (ok (sign u.id), db1) (ok access_token, db') =
                rw active at rest in
              (u, cc, active, cc)
          | inr disabled ↦ absurd (cc (rw disabled at rest))
        ]

module _ (library : JwtLibrary)
    (accepts : (now user_id expires_at : ℕ)
      → now < expires_at
      → library.decode now (library.encode (payload_of expires_at user_id))
        ≡ some (payload_of expires_at user_id))
    (nonempty_token : (p : Payload) → str_eq (library.encode p) "" ≡ false) where
  -- A token for a key, before it expires.
  token-user :
      (user_id expires_at : ℕ) (db : Db) (u : User)
      → db.now < expires_at
      → get user_key user_id db.users ≡ some u
      → dummy_current_user library (some (library.encode (payload_of expires_at user_id))) db
        ≡ (ok u, db)
  unfolding dummy_current_user Users.read_by_id
  token-user user_id expires_at db u early found = ground (
    arith,
    accepts db.now user_id expires_at,
    nonempty_token (payload_of expires_at user_id),
    found,
  )

  -- A token that was granted for a name and a password lets its owner in until it expires: it gives
  -- the active user of that name, and changes nothing, if the library accepts its own tokens until
  -- they expire, the keys of the users are distinct, and the sequence gives a new one.
  pub password_grant-current_user :
      (expire_seconds later : ℕ) (login password : String) (db db' : Db) (token : Token)
      → Distinct user_key db.users
      → get user_key db.seq.user db.users ≡ none
      → password_grant library expire_seconds (some login) (some password) db ≡ (ok token, db')
      → later < token.expires_at
      → (u : User) × (dummy_current_user library
            (some token.access_token)
            (record db' { now = later })
          ≡ (ok u, record db' { now = later }))
        × (u.username ≡ login)
        × (u.is_active ≡ true)
  unfolding password_grant
  password_grant-current_user expire_seconds later login password db db' token distinct fresh h
        early =
      let (access_token, db1, granted, rest) =
        bind-ok (get_token_password_grant (sign expires_at) (some login) (some password))
          with_expiry db db' token h in
      let (u, made, active, signed) =
        granted_lem (sign expires_at) login password access_token db db1 granted in
      let found = read_or_create-get (named login) db db1 u distinct fresh made in
      let name = read_or_create-named (named login) db db1 u made in
      let end : ◌≡◌ {A = Result Token × Db} (with_expiry access_token db1) (ok token, db') = rest in
      let same_db : db1 ≡ db' = cc end in
      let same_token : token.access_token ≡ library.encode (payload_of expires_at u.id) =
        cc (end, signed) in
      let same_end : token.expires_at ≡ expires_at = cc end in
      (
        u,
        rw same_token (
            token-user u.id expires_at (record db' { now = later }) u (rw same_end at early)
              (rw same_db at found)),
        name,
        active,
      )
    where
      expires_at : ℕ
      expires_at = db.now + expire_seconds

      sign : ℕ → ℕ → String
      sign expires_at user_id = library.encode (payload_of expires_at user_id)

      with_expiry : String → M Token
      with_expiry access_token =
          pure (record { access_token = access_token; expires_at = expires_at })
