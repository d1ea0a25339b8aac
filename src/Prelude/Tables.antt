-- ===== src/Prelude/Tables.antt =====
-- A table as a list of rows with a primary key: the statements that address a row by its key.
use syncmaster.Prelude.{Bool-cases, inl, inr}
use mathlib.Core.Path.{◌≡◌, refl}
use mathlib.Core.Bool.{Bool, true}
use mathlib.Core.Option.{Option, none, some}
use mathlib.Core.Option
use mathlib.Core.List.{List, [], ◌∷◌, ◌++◌}
use native.Mathlib.Omega.{arith}
use syncmaster.Prelude.Tests.{Eq, if◌then◌else◌, is_some}
use syncmaster.Prelude.Lists.{keep}

module _ {K Row : Type 0} ⦃e : Eq K⦄ (key : Row → K) where
  -- `session.get`, `select … where key == k`
  unfoldable pub get : K → List Row → Option Row
  get k [] = none
  get k (r ∷ rs) = if e.beq (key r) k then some r else get k rs

  -- `update … where key == k`
  unfoldable pub update : K → (Row → Row) → List Row → List Row
  update k f [] = []
  update k f (r ∷ rs) = (if e.beq (key r) k then f r else r) ∷ update k f rs

  -- `delete … where key == k`
  unfoldable pub delete : K → List Row → List Row
  delete k [] = []
  delete k (r ∷ rs) = let rest = delete k rs in if e.beq (key r) k then rest else r ∷ rest

  pub get-update :
      (k j : K) (f : Row → Row) (rs : List Row)
      → ((r : Row) → key (f r) ≡ key r)
      → get j (update k f rs) ≡ (if e.beq k j then Option.map f (get j rs) else get j rs)
  unfolding get update
  get-update k j f [] h = ground arith
  get-update k j f (r ∷ rs) h = ground (
    arith,
    get-update k j f rs h,
    h r,
    e.beq_iff (key r) k,
    e.beq_iff (key r) j,
    e.beq_iff (key (f r)) j,
    e.beq_iff k j,
  )

  pub get-delete :
      (k j : K) (rs : List Row) → get j (delete k rs) ≡ (if e.beq k j then none else get j rs)
  unfolding get delete
  get-delete k j [] = ground arith
  get-delete k j (r ∷ rs) =
      ground (arith, get-delete k j rs, e.beq_iff (key r) k, e.beq_iff (key r) j, e.beq_iff k j)

  pub get-append :
      (k : K) (rs : List Row) (r : Row)
      → get k (rs ++ r ∷ [])
        ≡ (if is_some (get k rs) then get k rs else if e.beq (key r) k then some r else none)
  unfolding get
  get-append k [] r = ground arith
  get-append k (s ∷ rs) r = ground (arith, get-append k rs r)

  -- The row that is found has the key that was asked for.
  pub key-get : (k : K) (rs : List Row) (r : Row) → get k rs ≡ some r → key r ≡ k
  unfolding get
  key-get k [] r h = ground arith
  key-get k (s ∷ rs) r h = ground (arith, key-get k rs r, e.beq_iff (key s) k)

  -- A selection keeps the row of a key if that row passes.
  pub get-keep :
      (p : Row → Bool) (k : K) (rs : List Row) (r : Row)
      → get k rs ≡ some r
      → p r ≡ true
      → get k (keep p rs) ≡ some r
  unfolding get
  get-keep p k [] r h t = ground arith
  get-keep p k (s ∷ rs) r h t = ground (arith, get-keep p k rs r)

  -- A selection by the key keeps a row if its key passes.
  pub get-keep_key :
      (p : K → Bool) (k : K) (rs : List Row)
      → get k (keep (λ r. p (key r)) rs) ≡ (if p k then get k rs else none)
  unfolding get
  get-keep_key p k [] = ground arith
  get-keep_key p k (r ∷ rs) = elim (Bool-cases (e.beq (key r) k)) [
    | inl same ↦
        let at_key = (e.beq_iff (key r) k).0 same in
        rw (at_key, (e.beq_iff k k).1 refl)
          (ground (arith, get-keep_key p k rs, (e.beq_iff k k).1 refl))
    | inr other ↦ ground (arith, get-keep_key p k rs, other)
  ]

  -- No two rows have one key.
  abbrev pub Distinct : List Row → Type 0
  Distinct [] = Unit
  Distinct (r ∷ rs) = (get (key r) rs ≡ none) × Distinct rs

  pub get-keep-none :
      (p : Row → Bool) (k : K) (rs : List Row) → get k rs ≡ none → get k (keep p rs) ≡ none
  unfolding get
  get-keep-none p k [] h = ground arith
  get-keep-none p k (r ∷ rs) h = ground (arith, get-keep-none p k rs)

  pub Distinct-keep : (p : Row → Bool) (rs : List Row) → Distinct rs → Distinct (keep p rs)
  Distinct-keep p [] d = tt
  Distinct-keep p (r ∷ rs) d =
      ground (arith, Distinct-keep p rs d.1, get-keep-none p (key r) rs d.0)

  -- With distinct keys a selection shows exactly the rows that pass.
  pub get-keep-some :
      (p : Row → Bool) (k : K) (rs : List Row) (r : Row)
      → Distinct rs
      → get k (keep p rs) ≡ some r
      → (get k rs ≡ some r) × (p r ≡ true)
  unfolding get
  get-keep-some p k [] r d h = ground arith
  get-keep-some p k (s ∷ rs) r d h =
      ground
        (arith, get-keep-some p k rs r d.1, e.beq_iff (key s) k, get-keep-none p (key s) rs d.0)

  pub Distinct-update :
      (k : K) (f : Row → Row) (rs : List Row)
      → ((r : Row) → key (f r) ≡ key r)
      → Distinct rs
      → Distinct (update k f rs)
  unfolding update
  Distinct-update k f [] h d = tt
  Distinct-update k f (r ∷ rs) h d = ground (
    arith,
    Distinct-update k f rs h d.1,
    get-update k (key r) f rs h,
    get-update k (key (f r)) f rs h,
    h r,
  )

  pub Distinct-delete : (k : K) (rs : List Row) → Distinct rs → Distinct (delete k rs)
  unfolding delete
  Distinct-delete k [] d = tt
  Distinct-delete k (r ∷ rs) d = ground (arith, Distinct-delete k rs d.1, get-delete k (key r) rs)

  pub Distinct-append :
      (rs : List Row) (r : Row) → Distinct rs → get (key r) rs ≡ none → Distinct (rs ++ r ∷ [])
  unfolding get
  Distinct-append [] r d h = ground arith
  Distinct-append (s ∷ rs) r d h = ground (
    arith,
    Distinct-append rs r d.1,
    get-append (key s) rs r,
    e.beq_iff (key s) (key r),
    e.beq_iff (key r) (key s),
  )

  pub delete_missing : (k : K) (rs : List Row) → get k rs ≡ none → delete k rs ≡ rs
  unfolding get delete
  delete_missing k [] h = refl
  delete_missing k (r ∷ rs) h = ground (arith, delete_missing k rs)
