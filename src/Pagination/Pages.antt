-- ===== src/Pagination/Pages.antt =====
-- The pages of `Pagination` (syncmaster/db/utils.py), read one after the other.
use native.Mathlib.Nat.{zero-add, suc-add, le-div_iff_mul-le}
use syncmaster.Prelude.{
  ℕ, zero, suc, ◌+◌, ◌-◌, ◌*◌, ◌/◌, ◌≤◌, ◌<◌, ◌≡◌, refl, ap, ◌↔◌, none, some, List, [], ◌∷◌, ◌++◌,
  length, take, drop, ltb, arith, length-take, length-drop, if◌then◌else◌, sym,
}
use syncmaster.Pagination.{count_pages, paginate}

module _ {A : Type 0} where
  take_all : (n : ℕ) (xs : List A) → length xs ≤ n → take n xs ≡ xs
  take_all zero [] h = refl
  take_all zero (x ∷ xs) h = absurd (omega arith)
  take_all (suc n) [] h = refl
  take_all (suc n) (x ∷ xs) h = ap (λ t. x ∷ t) (take_all n xs (omega arith))

  take_nil : (n : ℕ) → take {A = A} n [] ≡ []
  take_nil zero = refl
  take_nil (suc n) = refl

  drop_nil : (n : ℕ) → drop {A = A} n [] ≡ []
  drop_nil zero = refl
  drop_nil (suc n) = refl

  take-add : (m n : ℕ) (xs : List A) → take (m + n) xs ≡ take m xs ++ take n (drop m xs)
  take-add zero n xs = rw zero-add
  take-add (suc m) n [] = rw suc-add (sym (take_nil n))
  take-add (suc m) n (x ∷ xs) = rw suc-add (ap (λ t. x ∷ t) (take-add m n xs))

  drop-add : (m n : ℕ) (xs : List A) → drop (m + n) xs ≡ drop n (drop m xs)
  drop-add zero n xs = rw zero-add
  drop-add (suc m) n [] = rw suc-add (sym (drop_nil n))
  drop-add (suc m) n (x ∷ xs) = rw suc-add (drop-add m n xs)

  -- The items of the next pages, one page after the other.
  abbrev pub read_pages : List A → ℕ → ℕ → ℕ → List A
  read_pages rows size page zero = []
  read_pages rows size page (suc k) =
      (paginate rows page size).items ++ read_pages rows size (page + 1) k

-- The number of pages, against any count of rows.
ceil-lt : (p size total : ℕ) → 1 ≤ size → (p < (total + (size - 1)) / size) ↔ (p * size < total)
ceil-lt p size total hs =
    let e = le-div_iff_mul-le {k = size} {x = suc p} {y = total + (size - 1)} hs in
    (λ h. grind (arith, e.0 h), λ h. e.1 (grind arith))

-- Another page follows exactly when the rows up to the end of this one are not all of them.
full-pages :
    (q size total : ℕ) → 1 ≤ size → (suc q < count_pages total size) ↔ (suc q * size < total)
unfolding count_pages
full-pages q size total hs = ground (arith, ceil-lt (suc q) size total hs)

-- The pages hold all rows.
rows-le-pages : (size total : ℕ) → 1 ≤ size → total ≤ count_pages total size * size
unfolding count_pages
rows-le-pages size total hs =
    ground (arith, ceil-lt ((total + (size - 1)) / size) size total hs, ceil-lt 0 size total hs)

-- There is a next page exactly when the page is not the last one, and then it is the page after;
-- there is a previous page exactly when the page is not the first.
pub has_next-pages :
    {A : Type 0} (rows : List A) (page size : ℕ)
    → 1 ≤ page
    → 1 ≤ size
    → let p = paginate rows page size in
      (p.has_next ≡ ltb page p.pages)
      × (p.next_page ≡ (if ltb page p.pages then some (page + 1) else none))
      × (p.has_previous ≡ ltb 1 page)
unfolding paginate count_pages
has_next-pages rows zero size hp hs = absurd (omega arith)
has_next-pages rows (suc q) size hp hs = ground (
  arith,
  full-pages q size (length rows) hs,
  length-take size (drop (q * size) rows),
  length-drop (q * size) rows,
)

module _ {A : Type 0} where
  read_pages-take :
      (rows : List A) (size q k : ℕ)
      → read_pages rows size (suc q) k ≡ take (k * size) (drop (q * size) rows)
  unfolding paginate
  read_pages-take rows size q zero = let e : 0 * size ≡ 0 = omega arith in rw e
  read_pages-take rows size q (suc k) =
      let e1 : suc q - 1 ≡ q = omega arith in
      let e2 : suc q + 1 ≡ suc (suc q) = omega arith in
      let e3 : suc k * size ≡ size + k * size = omega arith in
      let e4 : suc q * size ≡ q * size + size = omega arith in
      rw (e1, e2, e3, read_pages-take rows size (suc q) k, e4, drop-add (q * size) size rows)
        (sym (take-add size (k * size) (drop (q * size) rows)))

-- Reading the pages from the first to the last gives every row once, in the order of the query.
pub read_pages-paginate :
    {A : Type 0} (rows : List A) (size : ℕ)
    → 1 ≤ size
    → read_pages rows size 1 (paginate rows 1 size).pages ≡ rows
unfolding paginate
read_pages-paginate rows size hs =
    let e : 0 * size ≡ 0 = omega arith in
    rw (read_pages-take rows size 0 (count_pages (length rows) size), e)
      (take_all (count_pages (length rows) size * size) rows (rows-le-pages size (length rows) hs))
