-- ===== src/Providers/Keys.antt =====
-- The keys with which the provider of Keycloak decodes tokens.

use syncmaster.Prelude.{
  ℕ, String, ◌≡◌, some, ◌<◌, ◌⊎◌, Option, Bool-cases, inl, ◌∙◌, ltb, inr, arith, none, refl, ◌∷◌,
  [], str_eq,
}
use syncmaster.Providers.Keycloak.{
  KeycloakServer, World, cached, valid_key, fetched, decode, usable, get_key, decode_with,
}
use syncmaster.Providers.{Claims, nonempty}

module _ (server : KeycloakServer) (now ttl : ℕ) where
  -- A key that may check a token: the cached one, if it has not expired, or the server's.
  abbrev pub IsKey : World → String → Type 0
  IsKey w key = ((w.key ≡ some key) × (now < w.key_expiration)) ⊎ (server.certs ≡ some key)

  valid_key-some :
      (cached_key : Option String) (expiration : ℕ) (key : String)
      → valid_key now cached_key expiration ≡ some key
      → (cached_key ≡ some key) × (now < expiration)
  valid_key-some none expiration key h = absurd (cc h)
  valid_key-some (some k) expiration key h = elim (Bool-cases (ltb now expiration)) [
    | inl before ↦ (rw before at h, ground arith)
    | inr after ↦ absurd (cc (rw after at h))
  ]

  cached-IsKey :
      (valid certs : Option String) (w : World) (key : String)
      → valid_key now w.key w.key_expiration ≡ valid
      → server.certs ≡ certs
      → (cached server now ttl valid w).0 ≡ some key
      → IsKey w key
  cached-IsKey (some k) certs w key v c h = inl (valid_key-some w.key w.key_expiration key (v ∙ h))
  cached-IsKey none (some k) w key v c h = inr (c ∙ rw c at h)
  cached-IsKey none none w key v c h = absurd (cc (rw c at h))

  fetched-after :
      (certs : Option String) (w : World) (key : String)
      → server.certs ≡ certs
      → IsKey (fetched server now ttl certs w).1 key
      → IsKey w key
  fetched-after none w key c h = h
  fetched-after (some k) w key c (inl (same, _)) = inr (c ∙ same)
  fetched-after (some k) w key c (inr fetched_key) = inr fetched_key

  cached-after :
      (valid : Option String) (w : World) (key : String)
      → IsKey (cached server now ttl valid w).1 key
      → IsKey w key
  cached-after (some k) w key h = h
  cached-after none w key h = fetched-after server.certs w key refl h

  -- A token that decodes was checked with such a key, and the call leaves the session and the
  -- database as they are.
  pub decode-IsKey :
      (token : String) (w : World) (claims : Claims)
      → (decode server now ttl token w).0 ≡ some claims
      → (key : String) × IsKey w key × (server.decode_token key token ≡ some claims)
  unfolding decode
  decode-IsKey token w claims h = by_key (get_key server now ttl w).0 refl h
    where
      by_key :
          (found : Option String)
          → (get_key server now ttl w).0 ≡ found
          → decode_with server now ttl token found ≡ some claims
          → (key : String) × IsKey w key × (server.decode_token key token ≡ some claims)
      by_key none e h = absurd (cc h)
      by_key (some key) e h = (
        key,
        cached-IsKey (valid_key now w.key w.key_expiration) server.certs w key refl refl e,
        h,
      )

  pub usable-eq :
      (info : Option Claims) (claims : Claims)
      → usable server now ttl info ≡ some claims
      → info ≡ some claims
  usable-eq none claims h = absurd (cc h)
  usable-eq (some []) claims h = absurd (cc h)
  usable-eq (some (c ∷ cs)) claims h = h

  pub nonempty-eq : (o : Option String) (s : String) → nonempty o ≡ some s → o ≡ some s
  nonempty-eq none s h = absurd (cc h)
  nonempty-eq (some t) s h = elim (Bool-cases (str_eq t "")) [
    | inl e ↦ absurd (cc (rw e at h))
    | inr e ↦ rw e at h
  ]

  pub decode-after :
      (token : String) (w : World) (key : String)
      → IsKey (decode server now ttl token w).1 key
      → IsKey w key
  unfolding decode get_key
  decode-after token w key h = cached-after (valid_key now w.key w.key_expiration) w key h
