-- ===== src/Providers/Proven.antt =====
-- Whom the provider of Keycloak lets in.
use syncmaster.Errors.{authorization_error}
use syncmaster.Errors.{raised}
use syncmaster.Users.Login.{read_or_create-named}
use syncmaster.Db.{Db, User}
use syncmaster.Session.{ok, Result, err}
use syncmaster.Prelude.{ℕ, String, ◌≡◌, some, Option, ◌∙◌, none, refl}
use syncmaster.Providers.Keycloak.{
  or_refresh, try_refresh, refreshed, or_redirect, KeycloakServer, World, decode, usable,
  token_info, with_tokens, get_current_user, with_token, identified, on_db,
}
use syncmaster.Providers.{Claims, nonempty, user_of_claims, get_claim, login_as, user_data}
use syncmaster.Providers.Keys.{IsKey, decode-IsKey, decode-after, usable-eq, nonempty-eq}

module _ (server : KeycloakServer) (now ttl : ℕ) where
  -- Where the claims come from: the access token of the request, or the one for which the server
  -- took the refresh token of the session.
  pub data Proves (w : World) (access : String) (claims : Claims) : Type 0 where
    by_access :
        (key : String)
        → IsKey server now ttl w key
        → server.decode_token key access ≡ some claims
        → Proves w access claims
    by_refresh :
        (key refresh new_access new_refresh : String)
        → w.refresh_token ≡ some refresh
        → server.refresh_token refresh ≡ some (new_access, new_refresh)
        → IsKey server now ttl w key
        → server.decode_token key new_access ≡ some claims
        → Proves w access claims

  -- What the refresh gives was decoded, for the access token that the server gave.
  refresh-Proves :
      (access refresh : String) (w w1 w' : World) (claims : Claims)
      (answer : Option (String × String))
      → w.refresh_token ≡ some refresh
      → ((key : String) → IsKey server now ttl w1 key → IsKey server now ttl w key)
      → server.refresh_token refresh ≡ answer
      → refreshed server now ttl answer w1 ≡ (ok (some claims), w')
      → Proves w access claims
  refresh-Proves access refresh w w1 w' claims none r keys a h = absurd (cc h)
  refresh-Proves access refresh w w1 w' claims (some (new_access, new_refresh)) r keys a h =
      by_info
        (decode server now ttl new_access (with_tokens server now ttl new_access new_refresh w1))
        refl h
    where
      by_info :
          (d : Option Claims × World)
          → decode server now ttl new_access (with_tokens server now ttl new_access new_refresh w1)
            ≡ d
          → or_redirect server now ttl d ≡ (ok (some claims), w')
          → Proves w access claims
      by_info (none, w2) e h = absurd (cc h)
      by_info (some found, w2) e h =
          let (key, is_key, decoded) =
            decode-IsKey server now ttl new_access
              (with_tokens server now ttl new_access new_refresh w1) claims (cc) in
          by_refresh key refresh new_access new_refresh r a (keys key is_key) decoded

  token_info-Proves :
      (access : String) (w w' : World) (claims : Claims)
      → token_info server now ttl access w ≡ (ok (some claims), w')
      → Proves w access claims
  unfolding token_info
  token_info-Proves access w w' claims h =
      by_info (usable server now ttl (decode server now ttl access w).0) refl h
    where
      by_refresh_token :
          (refresh : Option String)
          → nonempty w.refresh_token ≡ refresh
          → try_refresh server now ttl refresh (decode server now ttl access w).1
            ≡ (ok (some claims), w')
          → Proves w access claims
      by_refresh_token none e h = absurd (cc h)
      by_refresh_token (some refresh) e h =
          refresh-Proves access refresh w (decode server now ttl access w).1 w' claims
            (server.refresh_token refresh) (nonempty-eq server now ttl w.refresh_token refresh e)
            (decode-after server now ttl access w) refl h

      by_info :
          (info : Option Claims)
          → usable server now ttl (decode server now ttl access w).0 ≡ info
          → or_refresh server now ttl
              (nonempty w.refresh_token)
              (info, (decode server now ttl access w).1)
            ≡ (ok (some claims), w')
          → Proves w access claims
      by_info (some found) e h =
          let (key, is_key, decoded) =
            decode-IsKey server now ttl access w claims
              (usable-eq server now ttl (decode server now ttl access w).0 claims (cc)) in
          by_access key is_key decoded
      by_info none e h = by_refresh_token (nonempty w.refresh_token) refl h

  -- The user of a returned session is the one that the claims name.
  user_of_claims-named :
      (claims : Claims) (db db' : Db) (u : User)
      → user_of_claims claims db ≡ (ok u, db')
      → get_claim "preferred_username" claims ≡ some u.username
  unfolding user_of_claims
  user_of_claims-named claims db db' u h =
      by_login (nonempty (get_claim "preferred_username" claims)) refl h
    where
      by_login :
          (login : Option String)
          → nonempty (get_claim "preferred_username" claims) ≡ login
          → login_as login claims db ≡ (ok u, db')
          → get_claim "preferred_username" claims ≡ some u.username
      by_login none e h = absurd (cc h)
      by_login (some login) e h =
          let name = read_or_create-named (user_data login claims) db db' u h in
          nonempty-eq server now ttl (get_claim "preferred_username" claims) login e ∙ cc

  -- What `get_current_user` does with the claims.
  identified-named :
      (info : Option Claims) (w w' : World) (u : User)
      → identified server now ttl (ok info, w) ≡ (ok u, w')
      → (claims : Claims) × (info ≡ some claims)
        × (get_claim "preferred_username" claims ≡ some u.username)
  identified-named info w w' u h = by_usable (usable server now ttl info) refl h
    where
      by_usable :
          (o : Option Claims)
          → usable server now ttl info ≡ o
          → (elim o as (λ _. Result User × World) [
            | none ↦ (err (raised (authorization_error "Invalid token payload")), w)
            | some claims ↦ on_db server now ttl (user_of_claims claims) w
          ])
            ≡ (ok u, w')
          → (claims : Claims) × (info ≡ some claims)
            × (get_claim "preferred_username" claims ≡ some u.username)
      by_usable none e h = absurd (cc h)
      by_usable (some claims) e h = (
        claims,
        usable-eq server now ttl info claims e,
        user_of_claims-named claims w.db (user_of_claims claims w.db).1 u (cc h),
      )

  -- Keycloak lets in only a user whose name stands in the claims of a token that decoded with a key of the server, one that is cached and has not expired or one that was
  -- just fetched: the token of the request, or the one for which the server took the refresh token
  -- of the session.
  pub get_current_user-Proves :
      (access_token : Option String) (w w' : World) (u : User)
      → get_current_user server now ttl access_token w ≡ (ok u, w')
      → (access : String) × (claims : Claims) × (access_token ≡ some access)
        × Proves w access claims
        × (get_claim "preferred_username" claims ≡ some u.username)
  unfolding get_current_user
  get_current_user-Proves access_token w w' u h = by_token (nonempty access_token) refl h
    where
      by_token :
          (token : Option String)
          → nonempty access_token ≡ token
          → with_token server now ttl token w ≡ (ok u, w')
          → (access : String) × (claims : Claims) × (access_token ≡ some access)
            × Proves w access claims
            × (get_claim "preferred_username" claims ≡ some u.username)
      by_token none e h = absurd (cc h)
      by_token (some access) e h = by_info (token_info server now ttl access w) refl h
        where
          by_info :
              (r : Result (Option Claims) × World)
              → token_info server now ttl access w ≡ r
              → identified server now ttl r ≡ (ok u, w')
              → (access : String) × (claims : Claims) × (access_token ≡ some access)
                × Proves w access claims
                × (get_claim "preferred_username" claims ≡ some u.username)
          by_info (err x, w1) t h = absurd (cc h)
          by_info (ok info, w1) t h =
              let (claims, has, named) = identified-named info w1 w' u h in
              (
                access,
                claims,
                nonempty-eq server now ttl access_token access e,
                token_info-Proves access w w1 claims (rw has at t),
                named,
              )
