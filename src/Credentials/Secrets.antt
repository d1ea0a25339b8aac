-- ===== src/Credentials/Secrets.antt =====
-- The secret fields and the read schemas of syncmaster/schemas/v1/auth.
use syncmaster.Db.Json.{Dict}
use syncmaster.Prelude.{
  List, String, any, str_eq, Bool, ◌≡◌, false, true, keep, arith, ◌∷◌, str_eq_iff, [], Bool-cases,
  inl, inr, refl, not, ◌&&◌,
}
use syncmaster.Credentials.{
  Auth, AuthType, basic, iceberg_rest_bearer, iceberg_rest_oauth2_client_credentials,
  iceberg_rest_bearer_s3_basic, iceberg_rest_oauth2_client_credentials_s3_basic, secret_fields,
  read_fields, read_schema,
}

abbrev pub mentions : String → Dict → Bool
mentions key d = any (λ f. str_eq f.0 key) d

abbrev disjoint : List String → List String → Bool
disjoint [] ys = true
disjoint (x ∷ xs) ys = not (any (str_eq x) ys) && disjoint xs ys

disjoint_sound :
    (s : String) (xs ys : List String)
    → disjoint xs ys ≡ true
    → any (str_eq s) xs ≡ true
    → any (str_eq s) ys ≡ false
disjoint_sound s [] ys d h = absurd (cc)
disjoint_sound s (x ∷ xs) ys d h = elim (Bool-cases (str_eq s x)) [
  | inl same ↦ rw ((str_eq_iff s x).0 same) (ground arith)
  | inr other ↦ disjoint_sound s xs ys (ground arith) (ground arith)
]

-- A secret field is no field of the read schema of its type.
secret-unread : (type : AuthType) → disjoint (secret_fields type) (read_fields type) ≡ true
unfolding secret_fields read_fields
secret-unread basic = refl
secret-unread AuthType.s3 = refl
secret-unread AuthType.samba = refl
secret-unread iceberg_rest_bearer = refl
secret-unread iceberg_rest_oauth2_client_credentials = refl
secret-unread iceberg_rest_bearer_s3_basic = refl
secret-unread iceberg_rest_oauth2_client_credentials_s3_basic = refl

keep-mentions :
    (allowed : List String) (s : String) (d : Dict)
    → any (str_eq s) allowed ≡ false
    → mentions s (keep (λ f. any (str_eq f.0) allowed) d) ≡ false
keep-mentions allowed s [] h = refl
keep-mentions allowed s ((k, v) ∷ d) h = elim (Bool-cases (str_eq k s)) [
  | inl same ↦ dropped ((str_eq_iff k s).0 same) (keep-mentions allowed s d h)
  | inr other ↦ ground (arith, keep-mentions allowed s d h)
]
  where
    dropped :
        k ≡ s
        → mentions s (keep (λ f. any (str_eq f.0) allowed) d) ≡ false
        → mentions s (keep (λ f. any (str_eq f.0) allowed) ((k, v) ∷ d)) ≡ false
    dropped e rest = let no_k : any (str_eq k) allowed ≡ false = rw e h in rw no_k rest

-- The credentials that a response or the dump of a run shows hold no secret field of their type,
-- whatever is stored.
pub read_schema-secret :
    (a : Auth) (s : String)
    → any (str_eq s) (secret_fields a.type) ≡ true
    → mentions s (read_schema a).fields ≡ false
unfolding read_schema
read_schema-secret a s h =
    keep-mentions (read_fields a.type) s a.fields
      (disjoint_sound s (secret_fields a.type) (read_fields a.type) (secret-unread a.type) h)
