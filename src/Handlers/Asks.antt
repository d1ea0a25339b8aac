-- ===== src/Handlers/Asks.antt =====
-- What a filter asks of a database, in the tokens of a condition.
use syncmaster.Handlers.{
  FilterType, HandlerClass, RowsFilter, field_mark, not_ilike, ilike, postgres_handler, regexp,
  oracle_handler, clickhouse_handler, file_handler, equal, not_equal, less_than, less_or_equal,
  greater_than, greater_or_equal, is_null, is_not_null, like, not_like, hive_handler,
  iceberg_handler, mssql_handler, mysql_handler,
}
use syncmaster.Prelude.{
  List, Option, Text, Bool, ℕ, some, map, true, ◌++◌, codes, all, ◌∷◌, false, not, if◌then◌else◌,
  ◌≡◌, ◌==◌, [], ◌&&◌, none, ◌||◌,
}
use syncmaster.Handlers.Sql.{IsBare, SqlToken, quoted, char, is_quote, is_escape}

abbrev pub IsLiteral : Option Text → Type 0
IsLiteral none = Unit
IsLiteral (some v) = all (λ c. not (c == b'\'' || is_escape c)) v ≡ true

-- A field without quotes, and a value without a single quote, and no backslash in either.
abbrev pub IsPlain : RowsFilter → Type 0
IsPlain f = IsBare f.field × IsLiteral f.value

abbrev pub between_marks : Option ℕ → Text → List SqlToken
between_marks none field = map char field
between_marks (some q) field = quoted q field ∷ []

abbrev pub is_mark : Option ℕ → Bool
is_mark none = true
is_mark (some q) = is_quote q

-- A field, in the quotes of the database.
abbrev pub field_tokens : HandlerClass → Text → List SqlToken
field_tokens h field = between_marks (field_mark h) field

abbrev pub literal : Text → List SqlToken
literal value = quoted b'\'' value ∷ []

abbrev pub bare : Text → List SqlToken
bare s = map char s

-- Spark, Postgres and Clickhouse have `ILIKE`.
abbrev pub has_ilike : HandlerClass → Bool
has_ilike postgres_handler = true
has_ilike clickhouse_handler = true
has_ilike file_handler = true
has_ilike _ = false

abbrev pub is_oracle : HandlerClass → Bool
is_oracle oracle_handler = true
is_oracle _ = false

abbrev pub is_ilike : FilterType → Bool
is_ilike ilike = true
is_ilike _ = false

abbrev pub is_not_ilike : FilterType → Bool
is_not_ilike not_ilike = true
is_not_ilike _ = false

abbrev pub is_regexp : FilterType → Bool
is_regexp regexp = true
is_regexp _ = false

-- `LOWER(field) LIKE LOWER(value)`
abbrev pub ignoring_case : List SqlToken → Text → List SqlToken
ignoring_case field v =
    bare (codes "LOWER(")
    ++ (field ++ (bare (codes ") LIKE LOWER(") ++ (literal v ++ bare (codes ")"))))

-- `REGEXP_LIKE(field, value)`
abbrev pub matches : List SqlToken → Text → List SqlToken
matches field v =
    bare (codes "REGEXP_LIKE(") ++ (field ++ (bare (codes ", ") ++ (literal v ++ bare (codes ")"))))

-- The field, the operator and the value.
abbrev pub compares : List SqlToken → Text → Text → List SqlToken
compares field op v = field ++ (bare (32 ∷ op) ++ (bare (codes " ") ++ literal v))

-- The comparison that the type of a filter stands for, in the dialect of the database.
abbrev pub comparison : FilterType → HandlerClass → Text
comparison equal h = codes "="
comparison not_equal h = codes "!="
comparison less_than h = codes "<"
comparison less_or_equal h = codes "<="
comparison greater_than h = codes ">"
comparison greater_or_equal h = codes ">="
comparison is_null h = codes "IS NULL"
comparison is_not_null h = codes "IS NOT NULL"
comparison like h = codes "LIKE"
comparison not_like h = codes "NOT LIKE"
comparison ilike h = codes "ILIKE"
comparison not_ilike h = codes "NOT ILIKE"
comparison regexp hive_handler = codes "RLIKE"
comparison regexp iceberg_handler = codes "RLIKE"
comparison regexp mysql_handler = codes "RLIKE"
comparison regexp file_handler = codes "RLIKE"
comparison regexp postgres_handler = codes "~"
comparison regexp clickhouse_handler = codes "REGEXP"
comparison regexp mssql_handler = codes "LIKE"
comparison regexp oracle_handler = codes "REGEXP_LIKE"

-- What a filter asks of a database with an operator, by the type of the filter.
abbrev pub asks_with :
    Text → HandlerClass → FilterType → List SqlToken → Option Text → List SqlToken
asks_with op h type field none = field ++ bare (32 ∷ op)
asks_with op h type field (some v) =
    if is_oracle h && is_regexp type
    then matches field v
    else if not (has_ilike h) && is_ilike type
    then ignoring_case field v
    else if not (has_ilike h) && is_not_ilike type
    then bare (codes "NOT ") ++ ignoring_case field v
    else compares field op v

abbrev pub condition_tokens :
    HandlerClass → FilterType → List SqlToken → Option Text → List SqlToken
condition_tokens h type field value = asks_with (comparison type h) h type field value
