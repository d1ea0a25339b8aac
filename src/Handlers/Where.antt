-- ===== src/Handlers/Where.antt =====
-- What the condition of a `where` is read as.
use syncmaster.Handlers.Operators.{
  operators_lem, operators-comparison, Reads-between, field_mark-is_mark,
}
use syncmaster.Handlers.Asks.{
  IsLiteral, IsPlain, field_tokens, literal, bare, has_ilike, is_oracle, is_ilike, is_not_ilike,
  is_regexp, ignoring_case, matches, compares, condition_tokens, asks_with,
}
use syncmaster.Handlers.{
  FilterType, HandlerClass, RowsFilter, field_mark, without_value, operators, postgres_handler,
  oracle_handler, infix_condition, clickhouse_handler, in_quotes, file_handler, lowered,
  hive_handler, lowering_step, step, iceberg_handler, mssql_handler, mysql_handler,
  make_rows_filter_expression, between, condition, quote_field, regexp_like,
}
use syncmaster.Prelude.{
  List, Option, Text, Bool, some, map, true, ◌++◌, codes, all, ◌∷◌, false, not, if◌then◌else◌, ◌≡◌,
  ◌==◌, [], ◌&&◌, ◌||◌, none, refl, All, join, is_empty,
}
use syncmaster.Handlers.Sql.{
  tokens_of, Reads-chars, IsBare, SqlToken, Reads-quoted, read_sql, is_escape,
}
use syncmaster.Reading.{Reads, Reads-append, Reads-whole, Reads-join}

module _ (field : Text) (tokens : List SqlToken) (reads_field : Reads tokens_of field tokens) where
  Reads-literal :
      (v : Text)
      → all (λ c. not (c == b'\'' || is_escape c)) v ≡ true
      → Reads tokens_of (in_quotes v) (literal v)
  Reads-literal v h = Reads-quoted b'\'' v refl h

  Reads-infix :
      (op v : Text)
      → IsBare op
      → all (λ c. not (c == b'\'' || is_escape c)) v ≡ true
      → Reads tokens_of (infix_condition field op v) (compares tokens op v)
  Reads-infix op v bare_op h = Reads-append tokens_of field _ tokens _ reads_field (
      Reads-append tokens_of (32 ∷ op) (32 ∷ in_quotes v) (bare (32 ∷ op))
        (bare (codes " ") ++ literal v) (Reads-chars (32 ∷ op) bare_op)
        (Reads-append tokens_of (codes " ") (in_quotes v) (bare (codes " ")) (literal v)
          (Reads-chars (codes " ") refl) (Reads-literal v h)))

  -- Texts around the field and the value, and a bracket at the end.
  Reads-call :
      (before middle v : Text)
      → IsBare before
      → IsBare middle
      → all (λ c. not (c == b'\'' || is_escape c)) v ≡ true
      → Reads tokens_of
          (before ++ (field ++ (middle ++ (in_quotes v ++ codes ")"))))
          (bare before ++ (tokens ++ (bare middle ++ (literal v ++ bare (codes ")")))))
  Reads-call before middle v hb hm h =
      Reads-append tokens_of before _ (bare before) _ (Reads-chars before hb) (
        Reads-append tokens_of field _ tokens _ reads_field (
          Reads-append tokens_of middle _ (bare middle) _ (Reads-chars middle hm) (
            Reads-append tokens_of (in_quotes v) (codes ")") (literal v) (bare (codes ")"))
              (Reads-literal v h) (Reads-chars (codes ")") refl))))

  Reads-without_value :
      (op : Text) → IsBare op → Reads tokens_of (without_value field op) (tokens ++ bare (32 ∷ op))
  Reads-without_value op bare_op =
      Reads-append tokens_of field _ tokens _ reads_field (Reads-chars (32 ∷ op) bare_op)

  -- The branches of the loop, and what they are read as.
  Reads-branches :
      (a b : Bool) (op v : Text)
      → IsBare op
      → all (λ c. not (c == b'\'' || is_escape c)) v ≡ true
      → Reads tokens_of
          (if a
            then lowered field v
            else if b
            then codes "NOT " ++ lowered field v
            else infix_condition field op v)
          (if a
            then ignoring_case tokens v
            else if b
            then bare (codes "NOT ") ++ ignoring_case tokens v
            else compares tokens op v)
  Reads-branches true b op v hop h =
      Reads-call (codes "LOWER(") (codes ") LIKE LOWER(") v refl refl h
  Reads-branches false true op v hop h =
      Reads-append tokens_of (codes "NOT ") (lowered field v) (bare (codes "NOT "))
        (ignoring_case tokens v) (Reads-chars (codes "NOT ") refl)
        (Reads-call (codes "LOWER(") (codes ") LIKE LOWER(") v refl refl h)
  Reads-branches false false op v hop h = Reads-infix op v hop h

  Reads-lowering :
      (h : HandlerClass) (t : FilterType) (v : Text)
      → has_ilike h ≡ false
      → (is_oracle h && is_regexp t) ≡ false
      → all (λ c. not (c == b'\'' || is_escape c)) v ≡ true
      → Reads tokens_of
          (lowering_step field (operators h t) (some v))
          (asks_with (operators h t) h t tokens (some v))
  Reads-lowering h t v no_ilike no_call hv =
      rw ((operators_lem h t).1, (operators_lem h t).2, no_ilike, no_call)
        (Reads-branches (is_ilike t) (is_not_ilike t) (operators h t) v (operators_lem h t).0 hv)

  Reads-step :
      (h : HandlerClass) (t : FilterType) (value : Option Text)
      → IsLiteral value
      → Reads tokens_of
          (step h field (operators h t) value)
          (asks_with (operators h t) h t tokens value)
  Reads-step postgres_handler t (some v) hv =
      Reads-infix (operators postgres_handler t) v (operators_lem postgres_handler t).0 hv
  Reads-step clickhouse_handler t (some v) hv =
      Reads-infix (operators clickhouse_handler t) v (operators_lem clickhouse_handler t).0 hv
  Reads-step file_handler t (some v) hv =
      Reads-infix (operators file_handler t) v (operators_lem file_handler t).0 hv
  Reads-step hive_handler t (some v) hv = Reads-lowering hive_handler t v refl refl hv
  Reads-step iceberg_handler t (some v) hv = Reads-lowering iceberg_handler t v refl refl hv
  Reads-step mssql_handler t (some v) hv = Reads-lowering mssql_handler t v refl refl hv
  Reads-step mysql_handler t (some v) hv = Reads-lowering mysql_handler t v refl refl hv
  Reads-step oracle_handler t (some v) hv =
      rw
        (
          (operators_lem oracle_handler t).1,
          (operators_lem oracle_handler t).2,
          (operators_lem oracle_handler t).3,
        )
        (by_call (is_regexp t))
    where
      by_call :
          (c : Bool)
          → Reads tokens_of
              (if c
                then regexp_like field v
                else if is_ilike t
                then lowered field v
                else if is_not_ilike t
                then codes "NOT " ++ lowered field v
                else infix_condition field (operators oracle_handler t) v)
              (if c
                then matches tokens v
                else if is_ilike t
                then ignoring_case tokens v
                else if is_not_ilike t
                then bare (codes "NOT ") ++ ignoring_case tokens v
                else compares tokens (operators oracle_handler t) v)
      by_call true = Reads-call (codes "REGEXP_LIKE(") (codes ", ") v refl refl hv
      by_call false =
          Reads-branches (is_ilike t) (is_not_ilike t) (operators oracle_handler t) v
            (operators_lem oracle_handler t).0 hv
  Reads-step postgres_handler t none hv =
      Reads-without_value (operators postgres_handler t) (operators_lem postgres_handler t).0
  Reads-step clickhouse_handler t none hv =
      Reads-without_value (operators clickhouse_handler t) (operators_lem clickhouse_handler t).0
  Reads-step file_handler t none hv =
      Reads-without_value (operators file_handler t) (operators_lem file_handler t).0
  Reads-step hive_handler t none hv =
      Reads-without_value (operators hive_handler t) (operators_lem hive_handler t).0
  Reads-step iceberg_handler t none hv =
      Reads-without_value (operators iceberg_handler t) (operators_lem iceberg_handler t).0
  Reads-step mssql_handler t none hv =
      Reads-without_value (operators mssql_handler t) (operators_lem mssql_handler t).0
  Reads-step mysql_handler t none hv =
      Reads-without_value (operators mysql_handler t) (operators_lem mysql_handler t).0
  Reads-step oracle_handler t none hv =
      Reads-without_value (operators oracle_handler t) (operators_lem oracle_handler t).0

Reads-condition :
    (h : HandlerClass) (f : RowsFilter)
    → IsPlain f
    → Reads tokens_of (condition h f) (condition_tokens h f.type (field_tokens h f.field) f.value)
unfolding condition quote_field
Reads-condition h f plain = rw (← operators-comparison h f.type) (
    Reads-step (between (field_mark h) f.field) (field_tokens h f.field)
      (Reads-between (field_mark h) (field_mark-is_mark h) f.field plain.0) h f.type f.value
      plain.1)

-- An absent condition asks for nothing.
abbrev pub read_where : Option Text → Option (List SqlToken)
read_where none = some []
read_where (some s) = tokens_of s

-- The condition of filters with plain fields and values is read as what the filters ask for, one
-- after the other with `AND` between them: every value is one literal, and nothing else of a
-- filter is read as a value.
pub make_rows_filter_expression-tokens :
    (h : HandlerClass) (filters : List RowsFilter)
    → All IsPlain filters
    → read_where (make_rows_filter_expression h filters)
      ≡ some (
          join
            (bare (codes " AND "))
            (map (λ f. condition_tokens h f.type (field_tokens h f.field) f.value) filters))
unfolding make_rows_filter_expression read_sql
make_rows_filter_expression-tokens h filters plain =
    or_none (join (codes " AND ") (map (condition h) filters)) (
      Reads-whole tokens_of refl (join (codes " AND ") (map (condition h) filters))
        (join (bare (codes " AND ")) (map asked filters))
        (Reads-join tokens_of (condition h) asked IsPlain (codes " AND ") (bare (codes " AND "))
          (Reads-chars (codes " AND ") refl) (Reads-condition h) filters plain))
  where
    asked : RowsFilter → List SqlToken
    asked f = condition_tokens h f.type (field_tokens h f.field) f.value

    or_none :
        (s : Text) {ts : List SqlToken}
        → tokens_of s ≡ some ts
        → read_where (if is_empty s then none else some s) ≡ some ts
    or_none [] h = h
    or_none (c ∷ s) h = h
