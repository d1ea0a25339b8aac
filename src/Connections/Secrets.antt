-- ===== src/Connections/Secrets.antt =====
-- The loop over the secret fields in `update_connection` of syncmaster/server/api/v1/connections.py.
use syncmaster.Connections.Api.{fill_secret, fill_secrets}
use syncmaster.Credentials.{Auth, AuthType, subscript, assign}
use syncmaster.Db.{Db}
use syncmaster.Db.Json.{Dict, Json, is_null}
use syncmaster.Errors.{key_error}
use syncmaster.Session.{Result, ok, err, bind-ok}
use syncmaster.Prelude.{
  str_eq, str_eq_iff, String, Option, ◌≡◌, none, some, Bool, if◌then◌else◌, ◌∷◌, false, [], ◌&&◌,
  arith, refl, inl, ◌⊎◌, Bool-cases, true, inr, sym, List, any,
}

-- The value of a key, `none` if it is missing.
abbrev pub lookup : String → Dict → Option Json
lookup key [] = none
lookup key ((k, v) ∷ d) = if str_eq k key then some v else lookup key d

abbrev found_or_key_error : Option Json → Db → Result Json × Db
found_or_key_error none db = (err key_error, db)
found_or_key_error (some v) db = (ok v, db)

subscript_lem :
    (d : Dict) (key : String) (db : Db) → subscript d key db ≡ found_or_key_error (lookup key d) db
unfolding subscript
subscript_lem [] key db = refl
subscript_lem ((k, v) ∷ d) key db = ground (arith, subscript_lem d key db)

lookup-assign :
    (key j : String) (v : Json) (d : Dict)
    → lookup j (assign key v d) ≡ (if str_eq key j then some v else lookup j d)
unfolding assign
lookup-assign key j v [] = ground arith
lookup-assign key j v ((k, w) ∷ d) =
    ground (arith, lookup-assign key j v d, str_eq_iff k key, str_eq_iff k j, str_eq_iff key j)

-- A field that the request leaves to the stored credentials.
abbrev pub left_out : Option Json → Bool
left_out none = false
left_out (some v) = is_null v

module _ (f : String) (existing : Auth) (type : AuthType) (d d' : Dict) (db db' : Db)
    (h : fill_secret f existing type d db ≡ (ok d', db')) where
  fill_secret-state : db' ≡ db
  unfolding fill_secret
  fill_secret-state = ground (arith, subscript_lem d f db, subscript_lem existing.fields f db)

  -- One round gives `d`, or `d` with the stored value at the field, which was left out.
  fill_secret-value :
      ((left_out (lookup f d) ≡ false) × (d' ≡ d))
      ⊎ ((left_out (lookup f d) ≡ true)
          × (old : Json) × (lookup f existing.fields ≡ some old)
          × (d' ≡ assign f old d))
  unfolding fill_secret
  fill_secret-value = elim (Bool-cases (left_out (lookup f d))) [
    | inl out ↦
        let (old, e, filled) = stored (lookup f existing.fields) refl out in
        inr (out, old, e, filled)
    | inr given ↦ inl (given, ground (arith, subscript_lem d f db, given))
  ]
    where
      stored :
          (o : Option Json)
          → lookup f existing.fields ≡ o
          → left_out (lookup f d) ≡ true
          → (old : Json) × (lookup f existing.fields ≡ some old) × (d' ≡ assign f old d)
      stored none e out =
          absurd (ground (arith, e, out, subscript_lem d f db, subscript_lem existing.fields f db))
      stored (some old) e out =
          (old, e, ground (arith, e, out, subscript_lem d f db, subscript_lem existing.fields f db))

  fill_secret-lookup :
      (key : String)
      → lookup key d' ≡ (
          if str_eq f key && left_out (lookup key d)
          then lookup key existing.fields
          else lookup key d)
  fill_secret-lookup key = elim fill_secret-value [
    | inl (given, same) ↦ elim (Bool-cases (str_eq f key)) [
      | inl at_key ↦ let e = (str_eq_iff f key).0 at_key in rw (same, sym e, given) (ground arith)
      | inr other ↦ rw (same, other) (ground arith)
    ]
    | inr (out, old, e_old, filled) ↦ elim (Bool-cases (str_eq f key)) [
      | inl at_key ↦
          let e = (str_eq_iff f key).0 at_key in
          rw (filled, sym e, lookup-assign f f old d, out, e_old)
            (ground (arith, (str_eq_iff f f).1 refl))
      | inr other ↦ rw (filled, lookup-assign f key old d, other) (ground arith)
    ]
  ]

-- What the loop does, if it raises nothing: a secret field that the request leaves out has the
-- stored value, every other field has the value of the request, and the database is as it was.
pub fill_secrets_lem :
    (fields : List String) (existing : Auth) (type : AuthType) (d d' : Dict) (db db' : Db)
    → fill_secrets fields existing type d db ≡ (ok d', db')
    → (key : String)
    → (db' ≡ db)
      × (lookup key d' ≡ (
          if any (λ f. str_eq f key) fields && left_out (lookup key d)
          then lookup key existing.fields
          else lookup key d))
unfolding fill_secrets
fill_secrets_lem [] existing type d d' db db' h key = ground arith
fill_secrets_lem (f ∷ fields) existing type d d' db db' h key =
    let (d1, db1, h1, h2) =
      bind-ok (fill_secret f existing type d) (fill_secrets fields existing type) db db' d' h in
    let (same, rest) = fill_secrets_lem fields existing type d1 d' db1 db' h2 key in
    let e1 = fill_secret-state f existing type d d1 db db1 h1 in
    let e2 = fill_secret-lookup f existing type d d1 db db1 h1 key in
    (ground arith, ground (arith, rest, e2))
