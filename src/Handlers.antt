-- ===== src/Handlers.antt =====
-- The handlers of the worker (syncmaster/worker/handlers/db, syncmaster/worker/handlers/file): the
-- texts that they send to a database or to Spark. What is done with the texts is not modelled.
pub mod Sql
pub mod Asks
pub mod Operators
pub mod Where
pub mod Transformations
pub mod Hwm
pub mod Controller
pub mod Plan
pub mod Order
pub mod Reset
pub mod Options
pub mod Files
pub mod Templates
pub mod Names
use syncmaster.Prelude.{
  List, Option, Text, ◌++◌, codes, ◌∷◌, join, ℕ, some, map, [], if◌then◌else◌, none, is_empty,
  text_eq,
}

-- The class of a handler; one class stands for all handlers of files.
pub data HandlerClass : Type 0 where
  postgres_handler clickhouse_handler hive_handler iceberg_handler mssql_handler mysql_handler
        oracle_handler file_handler :
      HandlerClass

pub data FilterType : Type 0 where
  is_null is_not_null equal not_equal greater_than greater_or_equal less_than less_or_equal like
        ilike not_like not_ilike regexp :
      FilterType

-- A filter of `DataframeRowsFilter`, as the dictionary that the handler reads.
pub record RowsFilter : Type 0 where
  pub type : FilterType
  pub field : Text
  pub value : Option Text

-- The key that each class adds to `_operators`.
abbrev regexp_operator : HandlerClass → Text
regexp_operator postgres_handler = codes "~"
regexp_operator clickhouse_handler = codes "REGEXP"
regexp_operator mssql_handler = codes "LIKE"
regexp_operator oracle_handler = codes "REGEXP_LIKE"
regexp_operator _ = codes "RLIKE"

-- `self._operators[type]`
abbrev pub operators : HandlerClass → FilterType → Text
operators h is_null = codes "IS NULL"
operators h is_not_null = codes "IS NOT NULL"
operators h equal = codes "="
operators h not_equal = codes "!="
operators h greater_than = codes ">"
operators h greater_or_equal = codes ">="
operators h less_than = codes "<"
operators h less_or_equal = codes "<="
operators h like = codes "LIKE"
operators h ilike = codes "ILIKE"
operators h not_like = codes "NOT LIKE"
operators h not_ilike = codes "NOT ILIKE"
operators h regexp = regexp_operator h

-- The mark that `_quote_field` puts around a field; fields of files stay as they are.
abbrev pub field_mark : HandlerClass → Option ℕ
field_mark hive_handler = some b'`'
field_mark iceberg_handler = some b'`'
field_mark mysql_handler = some b'`'
field_mark file_handler = none
field_mark _ = some b'"'

abbrev pub between : Option ℕ → Text → Text
between none s = s
between (some c) s = c ∷ (s ++ c ∷ [])

unfoldable pub quote_field : HandlerClass → Text → Text
quote_field h field = between (field_mark h) field

-- `f"'{value}'"`
abbrev pub in_quotes : Text → Text
in_quotes value = b'\'' ∷ (value ++ b'\'' ∷ [])

-- `f"{field} {op}"`
abbrev pub without_value : Text → Text → Text
without_value field op = field ++ (32 ∷ op)

-- `f"{field} {op} '{value}'"`
abbrev pub infix_condition : Text → Text → Text → Text
infix_condition field op value = field ++ (32 ∷ (op ++ (32 ∷ in_quotes value)))

-- `f"LOWER({field}) LIKE LOWER('{value}')"`
abbrev pub lowered : Text → Text → Text
lowered field value =
    codes "LOWER(" ++ (field ++ (codes ") LIKE LOWER(" ++ (in_quotes value ++ codes ")")))

-- `f"REGEXP_LIKE({field}, '{value}')"`
abbrev pub regexp_like : Text → Text → Text
regexp_like field value =
    codes "REGEXP_LIKE(" ++ (field ++ (codes ", " ++ (in_quotes value ++ codes ")")))

-- A step of the loop of Postgres; Clickhouse and files have the same.
abbrev pub plain_step : Text → Text → Option Text → Text
plain_step field op none = without_value field op
plain_step field op (some value) = infix_condition field op value

-- A step of the loop of Hive; Iceberg, MSSQL and MySQL have the same.
abbrev pub lowering_step : Text → Text → Option Text → Text
lowering_step field op none = without_value field op
lowering_step field op (some value) =
    if text_eq op (codes "ILIKE")
    then lowered field value
    else if text_eq op (codes "NOT ILIKE")
    then codes "NOT " ++ lowered field value
    else infix_condition field op value

-- A step of the loop of Oracle.
abbrev pub oracle_step : Text → Text → Option Text → Text
oracle_step field op none = without_value field op
oracle_step field op (some value) =
    if text_eq op (codes "REGEXP_LIKE")
    then regexp_like field value
    else lowering_step field op (some value)

abbrev pub clickhouse_step : Text → Text → Option Text → Text
clickhouse_step = plain_step

abbrev pub file_step : Text → Text → Option Text → Text
file_step = plain_step

abbrev pub iceberg_step : Text → Text → Option Text → Text
iceberg_step = lowering_step

abbrev pub mssql_step : Text → Text → Option Text → Text
mssql_step = lowering_step

abbrev pub mysql_step : Text → Text → Option Text → Text
mysql_step = lowering_step

-- The override that the class of a handler has.
abbrev pub step : HandlerClass → Text → Text → Option Text → Text
step postgres_handler = plain_step
step clickhouse_handler = clickhouse_step
step file_handler = file_step
step oracle_handler = oracle_step
step hive_handler = lowering_step
step iceberg_handler = iceberg_step
step mssql_handler = mssql_step
step mysql_handler = mysql_step

unfoldable pub condition : HandlerClass → RowsFilter → Text
condition h f = step h (quote_field h f.field) (operators h f.type) f.value

-- `" AND ".join(expressions) or None`
unfoldable pub make_rows_filter_expression : HandlerClass → List RowsFilter → Option Text
make_rows_filter_expression h filters =
    let expression = join (codes " AND ") (map (condition h) filters) in
    if is_empty expression then none else some expression
