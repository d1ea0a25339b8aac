-- ===== src/CurrentUser.antt =====
-- `get_user` of syncmaster/server/services/get_user.py: which token a request carries, and which
-- users may go on.
use syncmaster.Prelude.{String, Bool, ◌&&◌, not, Option, none, some}
use syncmaster.Errors.{entity_not_found, action_not_allowed}
use syncmaster.Db.{User}
use syncmaster.Session.{M, pure, raise_if, or_raise, ◌>>=◌, ◌>>◌}

-- What a request offers: a bearer token, an OAuth token, and the access token of its session.
pub record Credentials : Type 0 where
  pub bearer_token : Option String
  pub oauth_token : Option String
  pub session_token : Option String

abbrev or_else : Option String → Option String → Option String
or_else (some t) _ = some t
or_else none rest = rest

unfoldable pub access_token : Credentials → Option String
access_token c = or_else c.bearer_token (or_else c.oauth_token c.session_token)

-- The tests on the user that the provider returns.
unfoldable pub authorize : Bool → Option User → M User
authorize is_superuser found = do
  user ← or_raise entity_not_found found
  raise_if (not user.is_active) action_not_allowed
  raise_if (is_superuser && not user.is_superuser) action_not_allowed
  pure user

-- The provider is not modelled: `get_current_user` stands for its method.
unfoldable pub get_user : (Option String → M (Option User)) → Bool → Credentials → M User
get_user get_current_user is_superuser c = do
  found ← get_current_user (access_token c)
  authorize is_superuser found
