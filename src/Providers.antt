-- ===== src/Providers.antt =====
-- The identity providers of syncmaster/server/providers/auth, and the tokens of
-- syncmaster/server/utils/jwt.py. What the identity server and the token library answer are
-- parameters.
pub mod Dummy
pub mod Keycloak
pub mod Keys
pub mod Proven
use syncmaster.Db.{User, Db}
use syncmaster.Errors.{authorization_error}
use syncmaster.Session.{M, raise}
use syncmaster.Users.{UserData}
use syncmaster.Users.Login.{read_or_create}
use syncmaster.Prelude.{
  Bool, List, String, Option, some, none, false, [], ◌∷◌, str_eq, if◌then◌else◌,
}

-- The claims of a token that are texts.
abbrev pub Claims : Type 0
Claims = List (String × String)

-- `token_info.get(key)`
abbrev pub get_claim : String → Claims → Option String
get_claim key [] = none
get_claim key ((k, v) ∷ claims) = if str_eq k key then some v else get_claim key claims

-- What a login stores of the claims of a token.
abbrev pub user_data : String → Claims → UserData
user_data login claims = record {
  username = login;
  email = get_claim "email" claims;
  first_name = get_claim "given_name" claims;
  middle_name = get_claim "middle_name" claims;
  last_name = get_claim "family_name" claims;
  is_superuser = false;
}

-- `if not value`, for a text that may be missing.
abbrev pub nonempty : Option String → Option String
nonempty none = none
nonempty (some s) = if str_eq s "" then none else some s

abbrev pub login_as : Option String → Claims → M User
login_as none claims = raise (authorization_error "Invalid token")
login_as (some login) claims = read_or_create (user_data login claims)

-- The last part of `get_current_user` of Keycloak and of the OAuth2 gateway: the user that the
-- claims name.
unfoldable pub user_of_claims : Claims → M User
user_of_claims claims = login_as (nonempty (get_claim "preferred_username" claims)) claims

-- `get_current_user` of the OAuth2 gateway. `introspect` answers with the claims and whether the
-- token is active, or raises.
abbrev of_answer : Option (Bool × Claims) → M User
of_answer none = raise (authorization_error "Invalid token payload")
of_answer (some (active, claims)) =
    if active then user_of_claims claims else raise (authorization_error "Token is not active")

abbrev introspected : (String → Option (Bool × Claims)) → Option String → M User
introspected introspect none = raise (authorization_error "Missing auth credentials")
introspected introspect (some token) = of_answer (introspect token)

unfoldable pub gateway_current_user : (String → Option (Bool × Claims)) → Option String → M User
unfolding user_of_claims
gateway_current_user introspect access_token = introspected introspect (nonempty access_token)
