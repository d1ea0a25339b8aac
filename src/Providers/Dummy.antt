-- ===== src/Providers/Dummy.antt =====
-- `DummyAuthProvider` with the tokens of syncmaster/server/utils/jwt.py. The library that signs and
-- checks tokens, with the key and the algorithm of the settings, is a parameter.
pub mod Tokens
use syncmaster.Prelude.{Option, String, ℕ, ◌+◌, some, none, if◌then◌else◌}
use syncmaster.Providers.{nonempty}
use syncmaster.Users.Login.{get_token_password_grant}
use syncmaster.Users
use syncmaster.Errors.{authorization_error}
use syncmaster.Session.{M, raise, gets, pure, ◌>>=◌}
use syncmaster.Db.{User, Db}
use syncmaster.Db.Json.{Json}

-- What the program reads of a payload.
pub record Payload : Type 0 where
  pub user_id : Option Json
  pub exp : Option ℕ

-- `jwt.encode`, `jwt.decode` at a time, with `none` where it raises, and `int` of a text.
pub record JwtLibrary : Type 0 where
  pub encode : Payload → String
  pub decode : ℕ → String → Option Payload
  pub int_of_text : String → Option ℕ

-- `AuthTokenSchema`, without the constant type of the token.
pub record Token : Type 0 where
  pub access_token : String
  pub expires_at : ℕ

-- `payload` of `_generate_access_token`
abbrev pub payload_of : ℕ → ℕ → Payload
payload_of expires_at user_id = record { user_id = some (Json.int user_id); exp = some expires_at }

module _ (library : JwtLibrary) where
  open library use {encode, decode, int_of_text}

  abbrev with_expiration : Payload → Option ℕ → M Payload
  with_expiration p none = raise (authorization_error "Invalid token")
  with_expiration p (some _) = pure p

  abbrev pub checked : Option Payload → M Payload
  checked none = raise (authorization_error "Invalid token")
  checked (some p) = with_expiration p p.exp

  -- `decode_jwt`: a payload without an expiration is refused as the library refuses an expired one.
  unfoldable pub decode_jwt : String → M Payload
  decode_jwt token db = checked (decode db.now token) db

  -- `int(value)`
  abbrev to_int : Option Json → Option ℕ
  to_int (some (Json.int n)) = some n
  to_int (some (Json.bool b)) = some (if b then 1 else 0)
  to_int (some (Json.str s)) = int_of_text s
  to_int (some (Json.num s)) = int_of_text s
  to_int _ = none

  abbrev pub known_id : Option ℕ → M ℕ
  known_id none = raise (authorization_error "Invalid token")
  known_id (some n) = pure n

  -- `_get_user_id_from_token`
  unfoldable pub get_user_id_from_token : String → M ℕ
  unfolding decode_jwt
  get_user_id_from_token token = do payload ← decode_jwt token; known_id (to_int payload.user_id)

  abbrev pub user_of_token : Option String → M User
  user_of_token none = raise (authorization_error "Missing auth credentials")
  user_of_token (some token) = do user_id ← get_user_id_from_token token; Users.read_by_id user_id

  -- `get_current_user`
  unfoldable pub dummy_current_user : Option String → M User
  unfolding get_user_id_from_token
  dummy_current_user access_token = user_of_token (nonempty access_token)

  -- `get_token_password_grant` with `_generate_access_token`, for the `expire_seconds` of the
  -- settings.
  unfoldable pub password_grant : ℕ → Option String → Option String → M Token
  password_grant expire_seconds login password = do
    expires_at ← gets (λ db. db.now + expire_seconds)
    access_token ←
        get_token_password_grant (λ user_id. encode (payload_of expires_at user_id)) login password
    pure (record { access_token = access_token; expires_at = expires_at })
