-- ===== src/Tests/ProviderCases.antt =====
-- Sessions of the identity providers at small inputs.
use syncmaster.Prelude.{
  String, ℕ, Option, none, some, [], ◌∷◌, ◌≡◌, ◌<◌, ◌+◌, refl, true, false, str_eq, ap,
  if◌then◌else◌, ltb, arith, Bool-cases, inl, inr, codes, str_eq_iff, ◌==◌, ◌++◌, List,
}
use syncmaster.Db.{User, Db}
use syncmaster.Db.Json.{Json}
use Prim.Native.Char.{code}
use Prim.Native.Nat.{zero, suc}
use syncmaster.Session.{ok}
use syncmaster.Tests.Sample.{sample, ann}
use syncmaster.Providers.{get_claim, Claims}
use syncmaster.Providers.Keycloak.{KeycloakServer, World, get_current_user}
use syncmaster.Providers.Proven.{Proves, get_current_user-Proves}
use syncmaster.Providers.Dummy.{
  JwtLibrary, Payload, payload_of, Token, password_grant, dummy_current_user,
}
use syncmaster.Providers.Dummy.Tokens.{password_grant-current_user}

-- A server that takes one refresh token, and knows the token that it gives for it.
abbrev server : KeycloakServer
server = record {
  certs = some "key";
  decode_token =
      λ key token. if str_eq token "new" then some (("preferred_username", "ann") ∷ []) else none;
  refresh_token = λ token. if str_eq token "refresh" then some ("new", "next") else none;
  logout = λ token. true;
  token = λ code. none;
  auth_url = "https://keycloak/auth";
}

abbrev session : World
session = record {
  key = none;
  key_expiration = 0;
  access_token = some "old";
  refresh_token = some "refresh";
  db = sample;
}

abbrev after_refresh : World
after_refresh = record session {
  key = some "key";
  key_expiration = 160;
  access_token = some "new";
  refresh_token = some "next";
}

refreshed_session : get_current_user server 100 60 (some "old") session ≡ (ok ann, after_refresh)
unfolding get_current_user syncmaster.Users.Login.read_or_create syncmaster.Session.unit_of_work
    syncmaster.Users.read_by_username
refreshed_session = refl

get_current_user-Proves_example :
    (access : String) × (claims : Claims) × (◌≡◌ {A = Option String} (some "old") (some access))
    × Proves server 100 60 session access claims
    × (get_claim "preferred_username" claims ≡ some "ann")
get_current_user-Proves_example =
    get_current_user-Proves server 100 60 (some "old") session after_refresh ann refreshed_session

-- A library that writes the key and the expiration in unary, as many letters a as the number says.
abbrev unary : ℕ → String → String
unary zero rest = rest
unary (suc n) rest = String.◌∷◌ "a" (unary n rest)

abbrev counted : String → ℕ × String
counted String.[] = (0, "")
counted (String.◌∷◌ c rest) =
    let (n, end) = counted rest in if code c == 97 then (suc n, end) else (0, rest)

abbrev body : Option Json → Option ℕ → String
body (some (Json.int user_id)) (some expires_at) =
    unary user_id (String.◌∷◌ "." (unary expires_at ""))
body _ _ = ""

abbrev written : Option Json → Option ℕ → String
written user_id expires_at = String.◌∷◌ "t" (body user_id expires_at)

abbrev before_end : ℕ → ℕ → ℕ → Option Payload
before_end now user_id expires_at =
    if ltb now expires_at then some (payload_of expires_at user_id) else none

abbrev payload_at : ℕ → String → Option Payload
payload_at now String.[] = none
payload_at now (String.◌∷◌ c token) =
    let (user_id, rest) = counted token in before_end now user_id (counted rest).0

abbrev unary_jwt : JwtLibrary
unary_jwt = record {
  encode = λ p. written p.user_id p.exp;
  decode = payload_at;
  int_of_text = λ s. none;
}

counted-dot : (n : ℕ) (rest : String) → counted (unary n (String.◌∷◌ "." rest)) ≡ (n, rest)
counted-dot zero rest = refl
counted-dot (suc n) rest = ap (λ (c : ℕ × String). (suc c.0, c.1)) (counted-dot n rest)

counted-all : (n : ℕ) → counted (unary n "") ≡ (n, "")
counted-all zero = refl
counted-all (suc n) = ap (λ (c : ℕ × String). (suc c.0, c.1)) (counted-all n)

unary_jwt-accepts :
    (now user_id expires_at : ℕ)
    → now < expires_at
    → payload_at now (written (some (Json.int user_id)) (some expires_at))
      ≡ some (payload_of expires_at user_id)
unary_jwt-accepts now user_id expires_at early =
    rw (counted-dot user_id (unary expires_at ""))
      (rw (counted-all expires_at) (ground (arith, early)))

written-nonempty : (p : Payload) → str_eq (written p.user_id p.exp) "" ≡ false
written-nonempty p = elim (Bool-cases (str_eq (written p.user_id p.exp) "")) [
  | inl empty ↦
      let same : ◌≡◌ {A = List ℕ} (codes (written p.user_id p.exp)) [] =
        ap codes ((str_eq_iff (written p.user_id p.exp) "").0 empty) in
      absurd (cc same)
  | inr other ↦ other
]

-- zoe, who is new, logs in.
abbrev zoe : User
zoe = record {
  id = sample.seq.user;
  username = "zoe";
  email = none;
  first_name = none;
  last_name = none;
  middle_name = none;
  is_superuser = false;
  is_active = true;
}

abbrev with_zoe : Db
with_zoe = record sample {
  users = sample.users ++ zoe ∷ [];
  seq = record sample.seq { user = sample.seq.user + 1 };
}

abbrev granted : Token
granted = record {
  access_token = written (some (Json.int zoe.id)) (some (sample.now + 10));
  expires_at = sample.now + 10;
}

granted_token :
    password_grant unary_jwt 10 (some "zoe") (some "secret") sample ≡ (ok granted, with_zoe)
unfolding password_grant syncmaster.Users.Login.get_token_password_grant
    syncmaster.Users.Login.read_or_create syncmaster.Session.unit_of_work
    syncmaster.Users.read_by_username syncmaster.Users.create syncmaster.Users.insert_user
    syncmaster.Users.fits_user
granted_token = refl

password_grant-current_user_example :
    let later = record with_zoe { now = sample.now + 9 } in
    (u : User) × (dummy_current_user unary_jwt (some granted.access_token) later ≡ (ok u, later))
    × (u.username ≡ "zoe")
    × (u.is_active ≡ true)
unfolding syncmaster.Prelude.Tables.get
password_grant-current_user_example =
    password_grant-current_user unary_jwt unary_jwt-accepts written-nonempty 10 (sample.now + 9)
      "zoe" "secret" sample with_zoe granted (refl, (refl, (refl, tt))) refl granted_token
      (ground arith)
