-- ===== src/Handlers/Sql.antt =====
-- A reader of conditions: what stands in quotes, and the characters outside of them.
use syncmaster.Reading.{Reads, Reads-append, Reads-nil}
use mathlib.Core.Option
use mathlib.Core.List.{append_assoc, append-nil}
use syncmaster.Prelude.{
  List, Option, Text, [], ℕ, some, ◌++◌, all, if◌then◌else◌, ◌≡◌, Bool, none, map, true, not, ◌==◌,
  ◌∷◌, false, refl, ◌||◌, arith, Bool-cases, ==_iff, inl, inr,
}

pub data SqlToken : Type 0 where
  quoted : ℕ → Text → SqlToken
  char : ℕ → SqlToken

-- A single quote, a double quote or a backtick.
abbrev pub is_quote : ℕ → Bool
is_quote c = c == b'\'' || c == b'"' || c == b'`'

-- The quote that was opened, with the text since then.
abbrev Opened : Type 0
Opened = Option (ℕ × Text)

abbrev after : Opened → ℕ → Opened
after none c = if is_quote c then some (c, []) else none
after (some (q, s)) c = if c == q then none else some (q, s ++ c ∷ [])

-- A backslash escapes what follows in some databases and not in others.
abbrev pub is_escape : ℕ → Bool
is_escape c = c == b'\\'

abbrev unescaped : ℕ → Option (List SqlToken) → Option (List SqlToken)
unescaped c rest = if is_escape c then none else rest

-- A text that databases read in different ways is refused.
abbrev emit : Opened → ℕ → Option (List SqlToken) → Option (List SqlToken)
emit none c rest = if is_quote c then rest else unescaped c (Option.map (λ ts. char c ∷ ts) rest)
emit (some (q, s)) c rest =
    if c == q then Option.map (λ ts. quoted q s ∷ ts) rest else unescaped c rest

-- A quote that is not closed is an error.
unfoldable pub read_sql : Opened → Text → Option (List SqlToken)
read_sql none [] = some []
read_sql (some _) [] = none
read_sql opened (c ∷ s) = emit opened c (read_sql (after opened c) s)

abbrev pub tokens_of : Text → Option (List SqlToken)
tokens_of = read_sql none

Reads-char : (c : ℕ) → (is_quote c || is_escape c) ≡ false → Reads tokens_of (c ∷ []) (char c ∷ [])
unfolding read_sql
Reads-char c h rest = ground (arith, h)

-- A text without quotes and backslashes.
abbrev pub IsBare : Text → Type 0
IsBare s = all (λ c. not (is_quote c || is_escape c)) s ≡ true

pub Reads-chars : (s : Text) → IsBare s → Reads tokens_of s (map char s)
Reads-chars [] h = Reads-nil tokens_of
Reads-chars (c ∷ s) h =
    Reads-append tokens_of (c ∷ []) s (char c ∷ []) (map char s) (Reads-char c (ground arith))
      (Reads-chars s (ground arith))

-- Inside the quotes, up to the closing one.
reads_quoted :
    (q : ℕ) (s acc rest : Text)
    → all (λ c. not (c == q || is_escape c)) s ≡ true
    → read_sql (some (q, acc)) (s ++ (q ∷ rest))
      ≡ Option.map (λ us. quoted q (acc ++ s) ∷ us) (read_sql none rest)
unfolding read_sql
reads_quoted q [] acc rest h = rw ((==_iff q q).1 refl, append-nil acc) refl
reads_quoted q (c ∷ s) acc rest h =
    ground (arith, reads_quoted q s (acc ++ c ∷ []) rest, append_assoc acc (c ∷ []) s)

pub Reads-quoted :
    (q : ℕ) (s : Text)
    → is_quote q ≡ true
    → all (λ c. not (c == q || is_escape c)) s ≡ true
    → Reads tokens_of (q ∷ (s ++ q ∷ [])) (quoted q s ∷ [])
unfolding read_sql
Reads-quoted q s hq h rest = rw (hq, append_assoc s (q ∷ []) rest) (reads_quoted q s [] rest h)

-- A text without quotes can stand in any quotes.
pub IsBare-quotable :
    (q : ℕ)
    → is_quote q ≡ true
    → (s : Text) → IsBare s
    → all (λ c. not (c == q || is_escape c)) s ≡ true
IsBare-quotable q hq [] h = refl
IsBare-quotable q hq (c ∷ s) h = elim (Bool-cases (c == q)) [
  | inl same ↦
      absurd (let at_quote : is_quote c ≡ true = rw ((==_iff c q).0 same) hq in ground arith)
  | inr differs ↦ ground (arith, differs, h, IsBare-quotable q hq s)
]
