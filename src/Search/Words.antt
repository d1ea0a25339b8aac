-- ===== src/Search/Words.antt =====
-- The words that syncmaster/db/repositories/search.py puts into a query.
use syncmaster.Prelude.{
  split_from, ℕ, Bool, Text, all, List, is_empty, ◌≡◌, false, true, All, ◌++◌, ◌∷◌, flush, arith,
  [], is_space, ◌||◌, refl, Bool-cases, inl, inr, is_punctuation, keep, not, split, ◌&&◌,
}
use syncmaster.Search.{
  is_unsupported, translate, words_with_supported_punctuation, words_without_any_punctuation,
}

-- Every character of a text passes the test.
abbrev pub AllPass : (ℕ → Bool) → Text → Type 0
AllPass p s = all p s ≡ true

-- A word that is not empty, and whose characters all pass.
abbrev pub IsWord : (ℕ → Bool) → Text → Type 0
IsWord p w = (is_empty w ≡ false) × (all p w ≡ true)

all-append : (p : ℕ → Bool) (s t : Text) → all p s ≡ true → all p t ≡ true → all p (s ++ t) ≡ true
all-append p [] t hs ht = ht
all-append p (c ∷ s) t hs ht = ground (arith, all-append p s t)

All-flush :
    (p : ℕ → Bool) (word : Text) (ws : List Text)
    → all p word ≡ true
    → All (IsWord p) ws
    → All (IsWord p) (flush word ws)
All-flush p [] ws h hs = hs
All-flush p (c ∷ s) ws h hs = ((refl, h), hs)

-- A split text has words of its characters, without the spaces.
split_from-All :
    (p : ℕ → Bool) (word s : Text)
    → all p word ≡ true
    → all (λ c. is_space c || p c) s ≡ true
    → All (IsWord p) (split_from word s)
unfolding split_from
split_from-All p word [] h hs = All-flush p word [] h tt
split_from-All p word (c ∷ s) h hs = elim (Bool-cases (is_space c)) [
  | inl space ↦
      rw space (All-flush p word (split_from [] s) h (split_from-All p [] s refl (ground arith)))
  | inr letter ↦ rw letter (
      split_from-All p (word ++ c ∷ []) s (all-append p word (c ∷ []) h (ground arith))
        (ground arith))
]

All-keep : (P : Text → Type 0) (q : Text → Bool) (ws : List Text) → All P ws → All P (keep q ws)
All-keep P q [] h = tt
All-keep P q (w ∷ ws) h = elim (Bool-cases (q w)) [
  | inl kept ↦ rw kept (h.0, All-keep P q ws h.1)
  | inr dropped ↦ rw dropped (All-keep P q ws h.1)
]

-- A character of a word: no space, and not one of the unwanted.
abbrev pub wanted : (ℕ → Bool) → ℕ → Bool
wanted unwanted c = not (unwanted c) && not (is_space c)

translate-pass :
    (unwanted : ℕ → Bool) (s : Text)
    → all (λ c. is_space c || wanted unwanted c) (translate unwanted s) ≡ true
translate-pass unwanted [] = refl
translate-pass unwanted (c ∷ s) = elim (Bool-cases (unwanted c)) [
  | inl bad ↦ rw bad (translate-pass unwanted s)
  | inr good ↦ elim (Bool-cases (is_space c)) [
    | inl space ↦ rw (good, space) (translate-pass unwanted s)
    | inr letter ↦ rw (good, letter, good) (translate-pass unwanted s)
  ]
]

split-translate :
    (unwanted : ℕ → Bool) (s : Text) → All (IsWord (wanted unwanted)) (split (translate unwanted s))
split-translate unwanted s =
    split_from-All (wanted unwanted) [] (translate unwanted s) refl (translate-pass unwanted s)

pub words_with-IsWord :
    (query : Text) → All (IsWord (wanted is_unsupported)) (words_with_supported_punctuation query)
unfolding words_with_supported_punctuation
words_with-IsWord query = All-keep _ _ _ (split-translate is_unsupported query)

pub words_without-IsWord :
    (query : Text) → All (IsWord (wanted is_punctuation)) (words_without_any_punctuation query)
unfolding words_without_any_punctuation
words_without-IsWord query = split-translate is_punctuation query
