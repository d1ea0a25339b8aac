-- ===== src/Handlers/Templates.antt =====
-- The template of the names of files: the validator of
-- syncmaster/schemas/v1/transfers/file/base.py and `_get_file_name` of
-- syncmaster/worker/handlers/file/base.py.
use syncmaster.Prelude.{
  Option, Text, ℕ, ◌++◌, Bool, if◌then◌else◌, decimal, ◌∷◌, none, some, all, contains, false, ◌==◌,
  ◌||◌, not, [], text_eq, is_empty, is_digit, codes, ◌&&◌,
}

-- What `str.format` returns or raises. The pattern of the schema leaves no `:`, `!` and `[` in a
-- template, so that a field is a name with attributes.
pub data Formatted : Type 0 where
  formatted : Text → Formatted
  key_error value_error index_error attribute_error : Formatted

abbrev pub prepend : Text → Formatted → Formatted
prepend s (formatted t) = formatted (s ++ t)
prepend s e = e

abbrev pub field_then : Formatted → Formatted → Formatted
field_then (formatted s) rest = prepend s rest
field_then e rest = e

-- The name before the first dot, and the attributes after it.
abbrev pub name_of : Text → Text
name_of [] = []
name_of (c ∷ s) = let rest = name_of s in if c == b'.' then [] else c ∷ rest

abbrev pub attributes_of : Text → Option Text
attributes_of [] = none
attributes_of (c ∷ s) = let rest = attributes_of s in if c == b'.' then some s else rest

-- The keyword arguments of `format`, and the text of an attribute of a value, if it has it.
pub record Arguments : Type 0 where
  pub value : Text → Option Text
  pub attribute : Text → Text → Option Text

abbrev pub or_error : Formatted → Option Text → Formatted
or_error e none = e
or_error e (some s) = formatted s

abbrev pub attribute_or_value : Arguments → Text → Text → Option Text → Formatted
attribute_or_value args name v none = formatted v
attribute_or_value args name v (some path) = or_error attribute_error (args.attribute name path)

abbrev pub known : Arguments → Text → Option Text → Option Text → Formatted
known args name path none = key_error
known args name path (some v) = attribute_or_value args name v path

-- A name that is empty or a number asks for a positional argument, of which there are none.
abbrev pub resolve : Arguments → Text → Formatted
resolve args field =
    if all is_digit (name_of field)
    then index_error
    else known args (name_of field) (attributes_of field) (args.value (name_of field))

-- Where the reader of a template stands: in the text, after one brace, or in a field.
pub data Mode : Type 0 where
  plain opening closing : Mode
  in_field : Text → Mode

abbrev pub after : Mode → ℕ → Mode
after plain c = if c == b'{' then opening else if c == b'}' then closing else plain
after opening c = if c == b'{' || c == b'}' then plain else in_field (c ∷ [])
after closing c = plain
after (in_field s) c = if c == b'}' then plain else in_field (s ++ c ∷ [])

abbrev pub emit : Arguments → Mode → ℕ → Formatted → Formatted
emit args plain c rest = if c == b'{' || c == b'}' then rest else prepend (c ∷ []) rest
emit args opening c rest =
    if c == b'{'
    then prepend (c ∷ []) rest
    else if c == b'}'
    then field_then (resolve args []) rest
    else rest
emit args closing c rest = if c == b'}' then prepend (c ∷ []) rest else value_error
emit args (in_field s) c rest =
    if c == b'}' then field_then (resolve args s) rest else if c == b'{' then value_error else rest

-- A brace that is not closed is an error.
unfoldable pub format : Arguments → Mode → Text → Formatted
format args plain [] = formatted []
format args _ [] = value_error
format args mode (c ∷ s) = emit args mode c (format args (after mode c) s)

-- The four keyword arguments.
abbrev pub keywords : Text → Text → Text → Text → Text → Option Text
keywords index extension run_id run_created_at name =
    if text_eq name (codes "index")
    then some index
    else if text_eq name (codes "extension")
    then some extension
    else if text_eq name (codes "run_id")
    then some run_id
    else if text_eq name (codes "run_created_at")
    then some run_created_at
    else none

-- `^[\w.{}-]+$`: a line break at the end is let through. `is_word` is `\w` of the regular expressions.
abbrev allowed : (ℕ → Bool) → ℕ → Bool
allowed is_word c = is_word c || c == b'.' || c == b'{' || c == b'}' || c == b'-'

abbrev pub matches_pattern : (ℕ → Bool) → Text → Bool
matches_pattern is_word [] = false
matches_pattern is_word (c ∷ []) = allowed is_word c
matches_pattern is_word (c ∷ d ∷ s) =
    let rest = matches_pattern is_word (d ∷ s) in
    allowed is_word c && (rest || (d == 10 && is_empty s))

-- The validator returns the template, raises `ValueError`, or raises what the library does not catch.
pub data Verdict : Type 0 where
  accepted rejected uncaught : Verdict

abbrev pub verdict_of : Formatted → Verdict
verdict_of (formatted _) = accepted
verdict_of key_error = rejected
verdict_of value_error = rejected
verdict_of _ = uncaught

-- `missing_keys`
abbrev pub misses_keys : Text → Bool
misses_keys value = not (contains (codes "{index}") value && contains (codes "{extension}") value)

abbrev pub names_no_run : Text → Bool
names_no_run value =
    not (contains (codes "{run_id}") value) && not (contains (codes "{run_created_at}") value)

-- `attribute` is what the attributes of an empty text are.
unfoldable pub validate_file_name_template :
    (ℕ → Bool) → (Text → Text → Option Text) → Text → Verdict
validate_file_name_template is_word attribute value =
    if not (matches_pattern is_word value)
    then rejected
    else if misses_keys value
    then rejected
    else if names_no_run value
    then rejected
    else verdict_of
        (format (record { value = keywords [] [] [] []; attribute = attribute }) plain value)

-- `run_created_at` is the text that `strftime` gives.
unfoldable pub get_file_name : (Text → Text → Option Text) → Text → ℕ → Text → ℕ → Text → Formatted
get_file_name attribute file_name_template index extension run_id run_created_at =
    format
      (record {
        value = keywords (decimal index []) extension (decimal run_id []) run_created_at;
        attribute = attribute;
      })
      plain file_name_template
