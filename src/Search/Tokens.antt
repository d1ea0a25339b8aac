-- ===== src/Search/Tokens.antt =====
-- A reader of the syntax of full-text queries: quoted words, marks, and spaces between them.
use syncmaster.Reading.{Reads, Reads-append, Reads-nil, Reads-join}
use mathlib.Core.Option
use mathlib.Core.List.{append_assoc, append-nil}
use syncmaster.Prelude.{
  List, Option, Text, [], ℕ, ◌∷◌, ◌++◌, all, some, if◌then◌else◌, none, ◌≡◌, Bool, ◌==◌, not, true,
  ◌||◌, refl, join, arith, All, map, is_empty, codes, false, Bool-cases, keep, inl, ==_iff, inr,
}
use mathlib.Core.Option
use mathlib.Core.List.{append_assoc, append-nil}
use syncmaster.Search.{quote_word, combine_words}
use syncmaster.Search.Words.{IsWord, wanted}

pub data Token : Type 0 where
  word : Text → Token
  mark : ℕ → Token

abbrev pub quote : ℕ
quote = b'\''

abbrev is_mark : ℕ → Bool
is_mark c = c == b':' || c == b'*' || c == b'&' || c == b'|' || c == b'(' || c == b')'

-- The quoted word that is being read, after one more character.
abbrev after : Option Text → ℕ → Option Text
after none c = if c == quote then some [] else none
after (some w) c = if c == quote then none else some (w ++ c ∷ [])

-- The tokens before those of the rest; a character that is no mark stands in quotes only.
abbrev emit : Option Text → ℕ → Option (List Token) → Option (List Token)
emit none c rest =
    if c == quote || c == 32
    then rest
    else if is_mark c
    then Option.map (λ ts. mark c ∷ ts) rest
    else none
emit (some w) c rest = if c == quote then Option.map (λ ts. word w ∷ ts) rest else rest

-- A quote that is not closed is an error.
unfoldable pub read_tokens : Option Text → Text → Option (List Token)
read_tokens none [] = some []
read_tokens (some w) [] = none
read_tokens reading (c ∷ s) = emit reading c (read_tokens (after reading c) s)

abbrev pub tokens_of : Text → Option (List Token)
tokens_of = read_tokens none

pub Reads-mark : (c : ℕ) → is_mark c ≡ true → Reads tokens_of (c ∷ []) (mark c ∷ [])
unfolding read_tokens
Reads-mark c h rest = ground arith

Reads-space : Reads tokens_of (32 ∷ []) []
unfolding read_tokens
Reads-space = Reads-nil tokens_of

-- Inside the quotes, up to the closing one.
reads_word :
    (w acc rest : Text)
    → all (λ c. not (c == quote)) w ≡ true
    → read_tokens (some acc) (w ++ (quote ∷ rest))
      ≡ Option.map (λ us. word (acc ++ w) ∷ us) (read_tokens none rest)
unfolding read_tokens
reads_word [] acc rest h = rw (append-nil acc)
reads_word (c ∷ w) acc rest h =
    ground (arith, reads_word w (acc ++ c ∷ []) rest, append_assoc acc (c ∷ []) w)

-- A word that can stand in quotes.
abbrev pub IsQuotable : Text → Type 0
IsQuotable w = all (λ c. not (c == quote)) w ≡ true

Reads-quoted : (w : Text) → IsQuotable w → Reads tokens_of (quote ∷ (w ++ quote ∷ [])) (word w ∷ [])
unfolding read_tokens
Reads-quoted w h rest = rw (append_assoc w (quote ∷ []) rest) (reads_word w [] rest h)

-- What a word of a query is read as.
abbrev pub word_tokens : Bool → Text → List Token
word_tokens by_prefix w = word w ∷ (if by_prefix then mark b':' ∷ mark b'*' ∷ [] else [])

Reads-quote_word :
    (by_prefix : Bool) (w : Text)
    → IsQuotable w
    → Reads tokens_of (quote_word by_prefix w) (word_tokens by_prefix w)
Reads-quote_word false w h = Reads-quoted w h
Reads-quote_word true w h = rw (← append_assoc w (quote ∷ []) (codes ":*")) (
    Reads-append tokens_of (quote ∷ (w ++ quote ∷ [])) (codes ":*") (word w ∷ [])
      (mark b':' ∷ mark b'*' ∷ []) (Reads-quoted w h)
      (Reads-append tokens_of (b':' ∷ []) (b'*' ∷ []) (mark b':' ∷ []) (mark b'*' ∷ [])
        (Reads-mark b':' refl) (Reads-mark b'*' refl)))

pub Reads-separator : (c : ℕ) → is_mark c ≡ true → Reads tokens_of (32 ∷ c ∷ 32 ∷ []) (mark c ∷ [])
Reads-separator c h =
    Reads-append tokens_of (32 ∷ []) (c ∷ 32 ∷ []) [] (mark c ∷ []) Reads-space
      (Reads-append tokens_of (c ∷ []) (32 ∷ []) (mark c ∷ []) [] (Reads-mark c h) Reads-space)

-- A conjunction of words, and what it is read as.
abbrev pub conjunction : Bool → List Text → List Token
conjunction by_prefix words = join (mark b'&' ∷ []) (map (word_tokens by_prefix) words)

all_mono :
    (p q : ℕ → Bool)
    → ((c : ℕ) → p c ≡ true → q c ≡ true)
    → (s : Text) → all p s ≡ true
    → all q s ≡ true
all_mono p q le [] h = refl
all_mono p q le (c ∷ s) h = ground (arith, le c, all_mono p q le s)

-- A word without unwanted characters, the quote among them, can stand in quotes.
pub IsWord-IsQuotable :
    (unwanted : ℕ → Bool)
    → unwanted quote ≡ true
    → (w : Text) → IsWord (wanted unwanted) w
    → IsQuotable w
IsWord-IsQuotable unwanted bad w h = all_mono (wanted unwanted) _ other w h.1
  where
    other : (c : ℕ) → wanted unwanted c ≡ true → not (c == quote) ≡ true
    other c wants = elim (Bool-cases (c == quote)) [
      | inl same ↦
          absurd
            (let at_quote : unwanted c ≡ true = rw ((==_iff c quote).0 same) bad in ground arith)
      | inr differs ↦ rw differs refl
    ]

-- No word is empty, so none is dropped.
keep-words :
    (words : List Text)
    → All (λ w. (is_empty w ≡ false) × IsQuotable w) words
    → keep (λ w. not (is_empty w)) words ≡ words
keep-words [] h = refl
keep-words (w ∷ words) h = rw (h.0.0, keep-words words h.1) refl

pub Reads-combine_words :
    (by_prefix : Bool) (words : List Text)
    → All (λ w. (is_empty w ≡ false) × IsQuotable w) words
    → Reads tokens_of (combine_words by_prefix words) (conjunction by_prefix words)
unfolding combine_words
Reads-combine_words by_prefix words h = rw (keep-words words h) (
    Reads-join tokens_of (quote_word by_prefix) (word_tokens by_prefix) _ (codes " & ")
      (mark b'&' ∷ []) (Reads-separator b'&' refl) (λ w q. Reads-quote_word by_prefix w q.1) words
      h)

pub combine_words-is_empty :
    (by_prefix : Bool) (words : List Text)
    → All (λ w. (is_empty w ≡ false) × IsQuotable w) words
    → is_empty (combine_words by_prefix words) ≡ is_empty words
unfolding combine_words
combine_words-is_empty by_prefix [] h = refl
combine_words-is_empty by_prefix (w ∷ words) h = rw (keep-words (w ∷ words) h) refl
