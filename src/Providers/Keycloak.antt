-- ===== src/Providers/Keycloak.antt =====
-- `KeycloakAuthProvider`: the cached key, the session of the browser and the refresh of its tokens.
use syncmaster.Prelude.{Option, String, none, ℕ, some, Bool, if◌then◌else◌, ◌∷◌, ◌+◌, [], ltb}
use syncmaster.Providers.{Claims, nonempty, user_of_claims}
use syncmaster.Errors.{authorization_error, redirect_error, logout_error, raised}
use syncmaster.Session.{Result, ok, err}
use syncmaster.Db.{Db, User}

-- The answers of the identity server; `none` is an error.
pub record KeycloakServer : Type 0 where
  pub certs : Option String
  pub decode_token : String → String → Option Claims
  pub refresh_token : String → Option (String × String)
  pub logout : String → Bool
  pub token : String → Option (String × String)
  pub auth_url : String

-- The provider with its key, the session of the request, and the database.
pub record World : Type 0 where
  pub key : Option String
  pub key_expiration : ℕ
  pub access_token : Option String
  pub refresh_token : Option String
  pub db : Db

abbrev pub Action : Type 0 → Type 0
Action A = World → Result A × World

abbrev pub valid_key : ℕ → Option String → ℕ → Option String
valid_key now none expiration = none
valid_key now (some key) expiration = if ltb now expiration then some key else none

module _ (server : KeycloakServer) (now ttl : ℕ) where
  abbrev pub fetched : Option String → World → Option String × World
  fetched none w = (none, w)
  fetched (some key) w = (some key, record w { key = some key; key_expiration = now + ttl })

  abbrev pub cached : Option String → World → Option String × World
  cached (some key) w = (some key, w)
  cached none w = fetched server.certs w

  -- `_get_key`, with `none` where it raises.
  unfoldable pub get_key : World → Option String × World
  get_key w = cached (valid_key now w.key w.key_expiration) w

  abbrev pub decode_with : String → Option String → Option Claims
  decode_with token none = none
  decode_with token (some key) = server.decode_token key token

  -- `a_decode_token(token, key=await self._get_key())`, with `none` where it raises.
  unfoldable pub decode : String → World → Option Claims × World
  unfolding get_key
  decode token w = let (key, w') = get_key w in (decode_with token key, w')

  abbrev redirect : World → Result (Option Claims) × World
  redirect w = (err (raised (redirect_error server.auth_url)), w)

  abbrev pub or_redirect : Option Claims × World → Result (Option Claims) × World
  or_redirect (none, w) = redirect w
  or_redirect (some claims, w) = (ok (some claims), w)

  abbrev pub with_tokens : String → String → World → World
  with_tokens access refresh w = record w {
    access_token = some access;
    refresh_token = some refresh;
  }

  abbrev pub refreshed : Option (String × String) → World → Result (Option Claims) × World
  refreshed none w = redirect w
  refreshed (some (access, refresh)) w = or_redirect (decode access (with_tokens access refresh w))

  abbrev pub try_refresh : Option String → World → Result (Option Claims) × World
  try_refresh none w = (ok none, w)
  try_refresh (some refresh) w = refreshed (server.refresh_token refresh) w

  -- `not token_info`
  abbrev pub usable : Option Claims → Option Claims
  usable none = none
  usable (some []) = none
  usable (some (c ∷ claims)) = some (c ∷ claims)

  abbrev pub or_refresh : Option String → Option Claims × World → Result (Option Claims) × World
  or_refresh refresh (some claims, w) = (ok (some claims), w)
  or_refresh refresh (none, w) = try_refresh refresh w

  -- The claims of the access token, or of the one that a refresh gives.
  unfoldable pub token_info : String → World → Result (Option Claims) × World
  unfolding decode
  token_info access w =
      let (claims, w') = decode access w in
      or_refresh (nonempty w.refresh_token) (usable claims, w')

  abbrev pub on_db : (Db → Result User × Db) → Action User
  on_db m w = let (r, db) = m w.db in (r, record w { db = db })

  abbrev pub identified : Result (Option Claims) × World → Result User × World
  identified (err e, w) = (err e, w)
  identified (ok info, w) = elim (usable info) [
    | none ↦ (err (raised (authorization_error "Invalid token payload")), w)
    | some claims ↦ on_db (user_of_claims claims) w
  ]

  abbrev pub with_token : Option String → Action User
  with_token none w = (err (raised (redirect_error server.auth_url)), w)
  with_token (some access) w = identified (token_info access w)

  -- `get_current_user`
  unfoldable pub get_current_user : Option String → Action User
  unfolding token_info user_of_claims
  get_current_user access_token w = with_token (nonempty access_token) w

-- `get_token_authorization_code_grant`, and `auth_callback` of syncmaster/server/api/v1/auth.py.
unfoldable pub auth_callback : KeycloakServer → String → Action Unit
auth_callback server code w = elim (server.token code) [
  | none ↦ (err (raised (authorization_error "Failed to get token")), w)
  | some (access, refresh) ↦
      (ok tt, record w { access_token = some access; refresh_token = some refresh })
]

abbrev logged_out : KeycloakServer → User → Option String → Action Unit
logged_out server user none w = (ok tt, w)
logged_out server user (some refresh) w =
    (if server.logout refresh then ok tt else err (raised (logout_error user.username)), w)

-- `logout` of syncmaster/server/api/v1/auth.py: the session is cleared whatever the server answers.
unfoldable pub logout : KeycloakServer → User → Action Unit
logout server user w =
    logged_out server user (nonempty w.refresh_token)
      (record w { access_token = none; refresh_token = none })
