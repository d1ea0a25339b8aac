-- ===== src/Search/Query.antt =====
-- What the query of `build_tsquery` is read as.
use syncmaster.Reading.{Reads, Reads-append, Reads-whole, Reads-join}
use syncmaster.Search.Words.{IsWord, wanted, words_with-IsWord, words_without-IsWord}
use syncmaster.Search.Tokens.{
  Token, quote, read_tokens, mark, conjunction, combine_words-is_empty, IsQuotable,
  IsWord-IsQuotable, Reads-mark, Reads-combine_words, tokens_of, Reads-separator,
}
use syncmaster.Search.{
  build_tsquery, combine_queries, combine_words, words_with_supported_punctuation,
  words_without_any_punctuation, in_brackets, is_unsupported,
}
use syncmaster.Prelude.{
  ◌++◌, Text, List, ℕ, Bool, All, if◌then◌else◌, map, ◌≡◌, none, true, is_empty, keep, ◌∷◌, false,
  [], not, some, texts_eq, join, refl, Bool-cases, ap, inl, inr, codes, is_punctuation,
}

-- The groups of words of a query that are not empty, each with its modifier.
abbrev pub groups_of : Text → List (Bool × List Text)
groups_of q =
    let original_words = words_with_supported_punctuation q in
    let only_words = words_without_any_punctuation q in
    keep (λ g. not (is_empty g.1))
      ((false, original_words)
        ∷ (true, original_words)
        ∷ (true, if not (texts_eq only_words original_words) then only_words else [])
        ∷ [])

-- `(`, the conjunction of the words, `)`.
abbrev pub bracketed : Bool × List Text → List Token
bracketed g = mark b'(' ∷ (conjunction g.0 g.1 ++ mark b')' ∷ [])

abbrev AllWords : Bool × List Text → Type 0
AllWords g = All (λ w. (is_empty w ≡ false) × IsQuotable w) g.1

Reads-bracketed :
    (g : Bool × List Text)
    → AllWords g
    → Reads tokens_of (in_brackets (combine_words g.0 g.1)) (bracketed g)
Reads-bracketed g h =
    Reads-append tokens_of (b'(' ∷ []) _ (mark b'(' ∷ []) _ (Reads-mark b'(' refl) (
      Reads-append tokens_of (combine_words g.0 g.1) (b')' ∷ []) (conjunction g.0 g.1)
        (mark b')' ∷ []) (Reads-combine_words g.0 g.1 h) (Reads-mark b')' refl))

abbrev text_of : Bool × List Text → Text
text_of g = combine_words g.0 g.1

-- The queries that are not empty are those of the groups that are not.
keep-texts :
    (gs : List (Bool × List Text))
    → All AllWords gs
    → keep (λ q. not (is_empty q)) (map text_of gs)
      ≡ map text_of (keep (λ g. not (is_empty g.1)) gs)
keep-texts [] h = refl
keep-texts (g ∷ gs) h = elim (Bool-cases (is_empty g.1)) [
  | inl nothing ↦ rw (combine_words-is_empty g.0 g.1 h.0, nothing) (keep-texts gs h.1)
  | inr some_words ↦
      rw (combine_words-is_empty g.0 g.1 h.0, some_words)
        (ap (λ ts. text_of g ∷ ts) (keep-texts gs h.1))
]

map-map :
    (gs : List (Bool × List Text))
    → map in_brackets (map text_of gs) ≡ map (λ g. in_brackets (text_of g)) gs
map-map [] = refl
map-map (g ∷ gs) = ap (λ ts. in_brackets (text_of g) ∷ ts) (map-map gs)

All-kept :
    (q : Bool × List Text → Bool) (gs : List (Bool × List Text))
    → All AllWords gs
    → All AllWords (keep q gs)
All-kept q [] h = tt
All-kept q (g ∷ gs) h = elim (Bool-cases (q g)) [
  | inl kept ↦ rw kept (h.0, All-kept q gs h.1)
  | inr dropped ↦ rw dropped (All-kept q gs h.1)
]

Reads-combine_queries :
    (gs : List (Bool × List Text))
    → All AllWords gs
    → Reads tokens_of
        (combine_queries (map text_of gs))
        (join (mark b'|' ∷ []) (map bracketed (keep (λ g. not (is_empty g.1)) gs)))
unfolding combine_queries
Reads-combine_queries gs h =
    rw (keep-texts gs h, map-map (keep (λ g. not (is_empty g.1)) gs))
      (Reads-join tokens_of (λ g. in_brackets (text_of g)) bracketed AllWords (codes " | ")
        (mark b'|' ∷ []) (Reads-separator b'|' refl) Reads-bracketed
        (keep (λ g. not (is_empty g.1)) gs) (All-kept _ gs h))

IsQuotable-words :
    (unwanted : ℕ → Bool)
    → unwanted quote ≡ true
    → (ws : List Text) → All (IsWord (wanted unwanted)) ws
    → All (λ w. (is_empty w ≡ false) × IsQuotable w) ws
IsQuotable-words unwanted bad [] h = tt
IsQuotable-words unwanted bad (w ∷ ws) h =
    ((h.0.0, IsWord-IsQuotable unwanted bad w h.0), IsQuotable-words unwanted bad ws h.1)

only_if :
    (b : Bool) (ws : List Text)
    → All (λ w. (is_empty w ≡ false) × IsQuotable w) ws
    → All (λ w. (is_empty w ≡ false) × IsQuotable w) (if b then ws else [])
only_if true ws h = h
only_if false ws h = tt

third_text :
    (b : Bool) (ws : List Text)
    → (if b then combine_words true ws else []) ≡ combine_words true (if b then ws else [])
unfolding combine_words
third_text true ws = refl
third_text false ws = refl

-- The query of any input is one of the query syntax: no input can close a quote or add an
-- operator. It is the disjunction, in brackets, of the words with the punctuation of paths, as
-- they are and as prefixes, and of the words without any punctuation, as prefixes, if they
-- differ; a group without words is left out.
pub build_tsquery-tokens :
    (user_input : Text)
    → read_tokens none (build_tsquery user_input)
      ≡ some (join (mark b'|' ∷ []) (map bracketed (groups_of user_input)))
unfolding build_tsquery read_tokens
build_tsquery-tokens q =
    let original_words = words_with_supported_punctuation q in
    let only_words = words_without_any_punctuation q in
    let differ = not (texts_eq only_words original_words) in
    let original = IsQuotable-words is_unsupported refl original_words (words_with-IsWord q) in
    let only = IsQuotable-words is_punctuation refl only_words (words_without-IsWord q) in
    let groups : List (Bool × List Text) =
      (false, original_words)
      ∷ (true, original_words)
      ∷ (true, if differ then only_words else [])
      ∷ [] in
    rw (third_text differ only_words) (
      Reads-whole tokens_of refl (combine_queries (map text_of groups))
        (join (mark b'|' ∷ []) (map bracketed (groups_of q)))
        (Reads-combine_queries groups (original, (original, (only_if differ only_words only, tt)))))
