-- ===== src/Queues/Slug.antt =====
-- The slug of a new queue: `CreateQueueSchema.slug` of syncmaster/schemas/v1/queue.py.
use mathlib.Core.List.{append_assoc, append-nil}
use syncmaster.Prelude.{
  Bool, Text, ℕ, ◌≡◌, false, ◌∷◌, List, leb, is_empty, true, map, all, not, if◌then◌else◌, ◌&&◌,
  flush, [], ◌++◌, ◌==◌, ◌||◌, lower, refl, read_from, decimal, arith, join, read_from-decimal, All,
  Bool-cases, inl, inr, sym,
}

-- `[a-zA-Z0-9]`
abbrev pub is_alnum : ℕ → Bool
is_alnum c = leb b'0' c && leb c b'9' || leb b'A' c && leb c b'Z' || leb b'a' c && leb c b'z'

abbrev pub underscore : ℕ
underscore = b'_'

-- `RESTRICTED_PATTERN.sub("_", s)`: a run of other characters becomes one underscore. The test
-- says whether such a run is being read.
unfoldable pub sub : Bool → Text → Text
sub in_run [] = []
sub in_run (c ∷ s) =
    let rest = sub (not (is_alnum c)) s in
    if is_alnum c then c ∷ rest else if in_run then rest else underscore ∷ rest

abbrev pub lstrip : Text → Text
lstrip [] = []
lstrip (c ∷ s) = if c == underscore then lstrip s else c ∷ s

abbrev pub rstrip : Text → Text
rstrip [] = []
rstrip (c ∷ s) = let rest = rstrip s in if is_empty rest && c == underscore then [] else c ∷ rest

-- `RESTRICTED_PATTERN.sub("_", self.name.lower()).strip("_")`
unfoldable pub short_name : Text → Text
short_name name = rstrip (lstrip (sub false (map lower name)))

-- `f"{self.group_id}-{short_name}"`
unfoldable pub slug : ℕ → Text → Text
slug group_id name = decimal group_id (b'-' ∷ short_name name)

-- The group in front of the dash.
unfoldable pub group_of : Text → ℕ
group_of s = read_from 0 s

-- The slug of a queue names its group: slugs of queues of two groups are never equal, whatever
-- the names.
pub slug-group_id : (group_id : ℕ) (name : Text) → group_of (slug group_id name) ≡ group_id
unfolding slug group_of read_from
slug-group_id group_id name = read_from-decimal group_id (b'-' ∷ short_name name)

-- The maximal runs of letters and digits.
abbrev pub runs : Text → Text → List Text
runs word [] = flush word []
runs word (c ∷ s) =
    let rest = runs (if is_alnum c then word ++ c ∷ [] else []) s in
    if is_alnum c then rest else flush word rest

-- The text of a run: not empty, and without underscores.
abbrev IsRun : Text → Type 0
IsRun w = (is_empty w ≡ false) × (all is_alnum w ≡ true)

alnum-underscore : (c : ℕ) → is_alnum c ≡ true → (c == underscore) ≡ false
alnum-underscore c h = ground arith

-- No underscore is left in front where the runs before a letter are dropped.
lstrip-sub_run : (s : Text) → lstrip (sub true s) ≡ sub true s
unfolding sub
lstrip-sub_run [] = refl
lstrip-sub_run (c ∷ s) = elim (Bool-cases (is_alnum c)) [
  | inl letter ↦ rw (letter, alnum-underscore c letter) refl
  | inr other ↦ rw other (lstrip-sub_run s)
]

lstrip-sub : (s : Text) → lstrip (sub false s) ≡ sub true s
unfolding sub
lstrip-sub [] = refl
lstrip-sub (c ∷ s) = elim (Bool-cases (is_alnum c)) [
  | inl letter ↦ rw (letter, alnum-underscore c letter) refl
  | inr other ↦ rw other (lstrip-sub_run s)
]

is_empty-append : (s : Text) (d : ℕ) (t : Text) → is_empty (s ++ d ∷ t) ≡ false
is_empty-append [] d t = refl
is_empty-append (c ∷ s) d t = refl

flush-All :
    (w : Text) (ws : List Text)
    → All (λ w. is_empty w ≡ false) ws
    → All (λ w. is_empty w ≡ false) (flush w ws)
flush-All [] ws h = h
flush-All (c ∷ w) ws h = (refl, h)

rstrip-append :
    (s t : Text) → rstrip (s ++ t) ≡ (if is_empty (rstrip t) then rstrip s else s ++ rstrip t)
rstrip-append [] t = nothing_before (rstrip t)
  where
    nothing_before : (t : Text) → t ≡ (if is_empty t then [] else t)
    nothing_before [] = refl
    nothing_before (c ∷ t) = refl
rstrip-append (c ∷ s) t = rw (rstrip-append s t) (character_before (rstrip t))
  where
    character_before :
        (r : Text)
        → (let rest = if is_empty r then rstrip s else s ++ r in
            if is_empty rest && c == underscore then [] else c ∷ rest)
          ≡ (if is_empty r then rstrip (c ∷ s) else (c ∷ s) ++ r)
    character_before [] = refl
    character_before (d ∷ r) = rw (is_empty-append s d r) refl

rstrip-run : (w : Text) → all is_alnum w ≡ true → rstrip w ≡ w
rstrip-run [] h = refl
rstrip-run (c ∷ w) h = ground (arith, rstrip-run w, alnum-underscore c)

append_letter :
    (w : Text) (c : ℕ)
    → all is_alnum w ≡ true
    → is_alnum c ≡ true
    → all is_alnum (w ++ c ∷ []) ≡ true
append_letter [] c h letter = rw letter refl
append_letter (d ∷ w) c h letter = ground (arith, append_letter w c)

-- No run is empty.
runs-All : (word s : Text) → All (λ w. is_empty w ≡ false) (runs word s)
runs-All word [] = flush-All word [] tt
runs-All word (c ∷ s) = elim (Bool-cases (is_alnum c)) [
  | inl letter ↦ rw letter (runs-All (word ++ c ∷ []) s)
  | inr other ↦ rw other (flush-All word (runs [] s) (runs-All [] s))
]

join-is_empty :
    (ws : List Text)
    → All (λ w. is_empty w ≡ false) ws
    → is_empty (join (underscore ∷ []) ws) ≡ is_empty ws
join-is_empty [] h = refl
join-is_empty ([] ∷ ws) h = absurd (ground arith)
join-is_empty ((c ∷ w) ∷ ws) h = refl

-- A run and an underscore, before a text that is stripped to the other runs.
rstrip_run_before :
    (c : ℕ) (w t : Text) (ws : List Text)
    → all is_alnum (c ∷ w) ≡ true
    → All (λ w. is_empty w ≡ false) ws
    → rstrip t ≡ join (underscore ∷ []) ws
    → rstrip ((c ∷ w) ++ underscore ∷ t) ≡ join (underscore ∷ []) ((c ∷ w) ∷ ws)
rstrip_run_before c w t [] h nonempty same =
    rw (rstrip-append (c ∷ w) (underscore ∷ t), same, rstrip-run (c ∷ w) h)
      (sym (append-nil (c ∷ w)))
rstrip_run_before c w t (v ∷ ws) h nonempty same =
    rw (rstrip-append (c ∷ w) (underscore ∷ t), same, join-is_empty (v ∷ ws) nonempty) refl

-- The part of the name that is left to read, after the letters of a run.
rstrip-sub :
    (w s : Text)
    → all is_alnum w ≡ true
    → rstrip (w ++ sub (is_empty w) s) ≡ join (underscore ∷ []) (runs w s)
unfolding sub
rstrip-sub [] [] h = refl
rstrip-sub (d ∷ w) [] h = rw (append-nil w, rstrip-run (d ∷ w) h) refl
rstrip-sub [] (c ∷ s) h = elim (Bool-cases (is_alnum c)) [
  | inl letter ↦ rw letter (rstrip-sub (c ∷ []) s (rw letter refl))
  | inr other ↦ rw other (rstrip-sub [] s refl)
]
rstrip-sub (d ∷ w) (c ∷ s) h = elim (Bool-cases (is_alnum c)) [
  | inl letter ↦
      rw (letter, ← append_assoc w (c ∷ []) (sub false s))
        (rstrip-sub ((d ∷ w) ++ c ∷ []) s (append_letter (d ∷ w) c h letter))
  | inr other ↦
      rw other
        (rstrip_run_before d w (sub true s) (runs [] s) h (runs-All [] s) (rstrip-sub [] s refl))
]

-- The words of a name: its runs of letters and digits, in lower case.
abbrev pub name_words : Text → List Text
name_words name = runs [] (map lower name)

-- The short name of a queue is the runs of letters and digits of the name, in lower case, with
-- one underscore between two of them and none at the ends.
pub short_name-join : (name : Text) → short_name name ≡ join (underscore ∷ []) (name_words name)
unfolding short_name
short_name-join name = rw (lstrip-sub (map lower name)) (rstrip-sub [] (map lower name) refl)
