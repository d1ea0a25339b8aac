-- ===== src/Search.antt =====
-- The text of a full-text query: `build_tsquery` of syncmaster/db/repositories/search.py. What the
-- database does with the query is not modelled.
pub mod Words
pub mod Tokens
pub mod Query
use syncmaster.Prelude.{
  Text, codes, all, join, is_punctuation, split, texts_eq, List, ◌∷◌, Bool, ℕ, false, keep, ◌&&◌,
  ◌++◌, map, true, not, if◌then◌else◌, [], ◌==◌, is_empty, ◌||◌,
}

-- The characters of `TSQUERY_UNSUPPORTED_CHARS`.
abbrev pub is_unsupported : ℕ → Bool
is_unsupported c = is_punctuation c && not (c == b'/' || c == b'.' || c == b'_' || c == b'-')

-- `query.translate(…)`: a character that is not wanted becomes a space.
abbrev pub translate : (ℕ → Bool) → Text → Text
translate unwanted s = map (λ c. if unwanted c then 32 else c) s

-- A part with punctuation only is dropped.
unfoldable pub words_with_supported_punctuation : Text → List Text
words_with_supported_punctuation query =
    keep (λ part. not (all is_punctuation part)) (split (translate is_unsupported query))

unfoldable pub words_without_any_punctuation : Text → List Text
words_without_any_punctuation query = split (translate is_punctuation query)

-- `f"'{word}'{modifier}"`
abbrev pub quote_word : Bool → Text → Text
quote_word by_prefix word = b'\'' ∷ (word ++ (b'\'' ∷ (if by_prefix then codes ":*" else [])))

unfoldable pub combine_words : Bool → List Text → Text
combine_words by_prefix words =
    join (codes " & ") (map (quote_word by_prefix) (keep (λ w. not (is_empty w)) words))

-- `f"({query})"`
abbrev pub in_brackets : Text → Text
in_brackets query = b'(' ∷ (query ++ b')' ∷ [])

unfoldable pub combine_queries : List Text → Text
combine_queries queries =
    join (codes " | ") (map in_brackets (keep (λ q. not (is_empty q)) queries))

unfoldable pub build_tsquery : Text → Text
build_tsquery user_input =
    let original_words = words_with_supported_punctuation user_input in
    let only_words = words_without_any_punctuation user_input in
    combine_queries (
      combine_words false original_words
      ∷ combine_words true original_words
      ∷ (if not (texts_eq only_words original_words) then combine_words true only_words else [])
      ∷ [])
