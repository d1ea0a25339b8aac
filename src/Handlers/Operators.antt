-- ===== src/Handlers/Operators.antt =====
-- What the readers of conditions need to know of the operators and the marks of each class.
use syncmaster.Handlers.Asks.{comparison, between_marks, is_mark, is_ilike, is_not_ilike, is_regexp}
use syncmaster.Handlers.{
  FilterType, HandlerClass, field_mark, operators, not_ilike, ilike, postgres_handler, regexp,
  oracle_handler, is_null, clickhouse_handler, is_not_null, file_handler, equal, not_equal,
  greater_than, greater_or_equal, less_than, less_or_equal, like, not_like, hive_handler,
  iceberg_handler, mssql_handler, mysql_handler, between,
}
use syncmaster.Prelude.{Option, Text, ℕ, some, true, codes, text_eq, ◌≡◌, none, refl}
use syncmaster.Handlers.Sql.{tokens_of, Reads-chars, IsBare, Reads-quoted, IsBare-quotable}
use syncmaster.Reading.{Reads}

pub operators_lem :
    (h : HandlerClass) (t : FilterType)
    → IsBare (operators h t)
      × (text_eq (operators h t) (codes "ILIKE") ≡ is_ilike t)
      × (text_eq (operators h t) (codes "NOT ILIKE") ≡ is_not_ilike t)
      × (text_eq (operators oracle_handler t) (codes "REGEXP_LIKE") ≡ is_regexp t)
operators_lem h is_null = (refl, refl, refl, refl)
operators_lem h is_not_null = (refl, refl, refl, refl)
operators_lem h equal = (refl, refl, refl, refl)
operators_lem h not_equal = (refl, refl, refl, refl)
operators_lem h greater_than = (refl, refl, refl, refl)
operators_lem h greater_or_equal = (refl, refl, refl, refl)
operators_lem h less_than = (refl, refl, refl, refl)
operators_lem h less_or_equal = (refl, refl, refl, refl)
operators_lem h like = (refl, refl, refl, refl)
operators_lem h ilike = (refl, refl, refl, refl)
operators_lem h not_like = (refl, refl, refl, refl)
operators_lem h not_ilike = (refl, refl, refl, refl)
operators_lem postgres_handler regexp = (refl, refl, refl, refl)
operators_lem clickhouse_handler regexp = (refl, refl, refl, refl)
operators_lem hive_handler regexp = (refl, refl, refl, refl)
operators_lem iceberg_handler regexp = (refl, refl, refl, refl)
operators_lem mssql_handler regexp = (refl, refl, refl, refl)
operators_lem mysql_handler regexp = (refl, refl, refl, refl)
operators_lem oracle_handler regexp = (refl, refl, refl, refl)
operators_lem file_handler regexp = (refl, refl, refl, refl)

-- The operators of the classes are the comparisons of the databases.
pub operators-comparison : (h : HandlerClass) (t : FilterType) → operators h t ≡ comparison t h
operators-comparison h is_null = refl
operators-comparison h is_not_null = refl
operators-comparison h equal = refl
operators-comparison h not_equal = refl
operators-comparison h greater_than = refl
operators-comparison h greater_or_equal = refl
operators-comparison h less_than = refl
operators-comparison h less_or_equal = refl
operators-comparison h like = refl
operators-comparison h ilike = refl
operators-comparison h not_like = refl
operators-comparison h not_ilike = refl
operators-comparison postgres_handler regexp = refl
operators-comparison clickhouse_handler regexp = refl
operators-comparison hive_handler regexp = refl
operators-comparison iceberg_handler regexp = refl
operators-comparison mssql_handler regexp = refl
operators-comparison mysql_handler regexp = refl
operators-comparison oracle_handler regexp = refl
operators-comparison file_handler regexp = refl

pub Reads-between :
    (mark : Option ℕ)
    → (is_mark mark ≡ true)
    → (field : Text) → IsBare field
    → Reads tokens_of (between mark field) (between_marks mark field)
Reads-between none hm field h = Reads-chars field h
Reads-between (some q) hm field h = Reads-quoted q field hm (IsBare-quotable q hm field h)

pub field_mark-is_mark : (h : HandlerClass) → is_mark (field_mark h) ≡ true
field_mark-is_mark postgres_handler = refl
field_mark-is_mark clickhouse_handler = refl
field_mark-is_mark hive_handler = refl
field_mark-is_mark iceberg_handler = refl
field_mark-is_mark mssql_handler = refl
field_mark-is_mark mysql_handler = refl
field_mark-is_mark oracle_handler = refl
field_mark-is_mark file_handler = refl
