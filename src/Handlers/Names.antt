-- ===== src/Handlers/Names.antt =====
-- Templates that the schema accepts.
use syncmaster.Prelude.{
  Text, is_some, Bool, ◌≡◌, true, ◌&&◌, false, Option, arith, ℕ, Bool-cases, all, refl, some,
  is_digit, ◌∷◌, [], none, inl, inr, if◌then◌else◌, decimal, not,
}
use syncmaster.Handlers.Templates.{
  Arguments, Formatted, prepend, field_then, formatted, key_error, Mode, format, value_error,
  resolve, index_error, known, emit, in_field, or_error, attribute_error, after, name_of, plain,
  opening, attributes_of, closing, validate_file_name_template, verdict_of, keywords, rejected,
  get_file_name, accepted, matches_pattern, misses_keys, names_no_run,
}

abbrev pub is_formatted : Formatted → Bool
is_formatted (formatted _) = true
is_formatted _ = false

prepend-is_formatted : (s : Text) (r : Formatted) → is_formatted (prepend s r) ≡ is_formatted r
prepend-is_formatted s (formatted t) = refl
prepend-is_formatted s key_error = refl
prepend-is_formatted s value_error = refl
prepend-is_formatted s index_error = refl
prepend-is_formatted s attribute_error = refl

field_then-is_formatted :
    (x r : Formatted) → is_formatted (field_then x r) ≡ (is_formatted x && is_formatted r)
field_then-is_formatted (formatted s) r = prepend-is_formatted s r
field_then-is_formatted key_error r = refl
field_then-is_formatted value_error r = refl
field_then-is_formatted index_error r = refl
field_then-is_formatted attribute_error r = refl

module _ (a b : Arguments)
    (values : (name : Text) → is_some (a.value name) ≡ true → is_some (b.value name) ≡ true)
    (attributes : (name path : Text)
      → is_some (a.attribute name path) ≡ true
      → is_some (b.attribute name path) ≡ true) where
  known-is_formatted :
      (name : Text) (path va vb : Option Text)
      → (is_some va ≡ true → is_some vb ≡ true)
      → is_formatted (known a name path va) ≡ true
      → is_formatted (known b name path vb) ≡ true
  known-is_formatted name path none vb le h = absurd (ground arith)
  known-is_formatted name path (some v) none le h = absurd (ground (arith, le refl))
  known-is_formatted name none (some v) (some w) le h = refl
  known-is_formatted name (some path) (some v) (some w) le h =
      by_attribute (a.attribute name path) (b.attribute name path) (attributes name path) h
    where
      by_attribute :
          (x y : Option Text)
          → (is_some x ≡ true → is_some y ≡ true)
          → is_formatted (or_error attribute_error x) ≡ true
          → is_formatted (or_error attribute_error y) ≡ true
      by_attribute none y le h = absurd (ground arith)
      by_attribute (some s) none le h = absurd (ground (arith, le refl))
      by_attribute (some s) (some t) le h = refl

  resolve-is_formatted :
      (field : Text) → is_formatted (resolve a field) ≡ true → is_formatted (resolve b field) ≡ true
  resolve-is_formatted field h = elim (Bool-cases (all is_digit (name_of field))) [
    | inl number ↦ absurd (let refused = rw number at h in ground arith)
    | inr name ↦ rw name (
        known-is_formatted (name_of field) (attributes_of field) (a.value (name_of field))
          (b.value (name_of field)) (values (name_of field)) (rw name at h))
  ]

  emit-is_formatted :
      (mode : Mode) (c : ℕ) (r r' : Formatted)
      → (is_formatted r ≡ true → is_formatted r' ≡ true)
      → is_formatted (emit a mode c r) ≡ true
      → is_formatted (emit b mode c r') ≡ true
  emit-is_formatted plain c r r' le h =
      ground (arith, prepend-is_formatted (c ∷ []) r, prepend-is_formatted (c ∷ []) r', le)
  emit-is_formatted opening c r r' le h =
      ground (arith, prepend-is_formatted (c ∷ []) r, prepend-is_formatted (c ∷ []) r', le)
  emit-is_formatted closing c r r' le h =
      ground (arith, prepend-is_formatted (c ∷ []) r, prepend-is_formatted (c ∷ []) r', le)
  emit-is_formatted (in_field s) c r r' le h = ground (
    arith,
    field_then-is_formatted (resolve a s) r,
    field_then-is_formatted (resolve b s) r',
    resolve-is_formatted s,
    le,
  )

  format-is_formatted :
      (mode : Mode) (s : Text)
      → is_formatted (format a mode s) ≡ true
      → is_formatted (format b mode s) ≡ true
  unfolding format
  format-is_formatted plain [] h = refl
  format-is_formatted opening [] h = absurd (ground arith)
  format-is_formatted closing [] h = absurd (ground arith)
  format-is_formatted (in_field f) [] h = absurd (ground arith)
  format-is_formatted mode (c ∷ s) h =
      emit-is_formatted mode c (format a (after mode c) s) (format b (after mode c) s)
        (format-is_formatted (after mode c) s) h

verdict_of-is_formatted : (f : Formatted) → verdict_of f ≡ accepted → is_formatted f ≡ true
verdict_of-is_formatted (formatted s) h = refl
verdict_of-is_formatted key_error h = absurd (ground arith)
verdict_of-is_formatted value_error h = absurd (ground arith)
verdict_of-is_formatted index_error h = absurd (ground arith)
verdict_of-is_formatted attribute_error h = absurd (ground arith)

keywords-is_some :
    (i e r t i' e' r' t' name : Text)
    → is_some (keywords i e r t name) ≡ true
    → is_some (keywords i' e' r' t' name) ≡ true
keywords-is_some i e r t i' e' r' t' name h = ground arith

accepted-format :
    (b1 b2 b3 : Bool) (f : Formatted)
    → (if b1 then rejected else if b2 then rejected else if b3 then rejected else verdict_of f)
      ≡ accepted
    → is_formatted f ≡ true
accepted-format false false false f h = verdict_of-is_formatted f h
accepted-format true b2 b3 f h = absurd (ground arith)
accepted-format false true b3 f h = absurd (ground arith)
accepted-format false false true f h = absurd (ground arith)

-- The same, if an attribute that the empty text has is one that the values have.
accepted-is_formatted :
    (is_word : ℕ → Bool) (of_text of_value : Text → Text → Option Text) (file_name_template : Text)
    (index : ℕ) (extension : Text) (run_id : ℕ) (run_created_at : Text)
    → ((name path : Text)
        → is_some (of_text name path) ≡ true
        → is_some (of_value name path) ≡ true)
    → validate_file_name_template is_word of_text file_name_template ≡ accepted
    → is_formatted (get_file_name of_value file_name_template index extension run_id run_created_at)
      ≡ true
unfolding validate_file_name_template get_file_name
accepted-is_formatted is_word of_text of_value template index extension run_id run_created_at
      attributes h =
    format-is_formatted _ _
      (keywords-is_some [] [] [] [] (decimal index []) extension (decimal run_id []) run_created_at)
      attributes plain template
      (accepted-format (not (matches_pattern is_word template)) (misses_keys template)
        (names_no_run template) _ h)

-- An attribute that nothing has.
abbrev pub no_attribute : Text → Text → Option Text
no_attribute name path = none

-- A template that the schema accepts without a look at an attribute or an item of a value, so that it
-- would accept it if texts had none, gives a name to every file of every run: `format` raises nothing
-- in the worker, whatever attributes the values have there.
pub get_file_name-is_formatted :
    (is_word : ℕ → Bool) (attribute : Text → Text → Option Text) (file_name_template : Text)
    (index : ℕ) (extension : Text) (run_id : ℕ) (run_created_at : Text)
    → validate_file_name_template is_word no_attribute file_name_template ≡ accepted
    → is_formatted
        (get_file_name attribute file_name_template index extension run_id run_created_at)
      ≡ true
get_file_name-is_formatted is_word attribute template index extension run_id run_created_at h =
    accepted-is_formatted is_word no_attribute attribute template index extension run_id
      run_created_at (λ name path found. absurd (cc found)) h
