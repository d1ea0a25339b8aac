-- ===== src/Handlers/Options.antt =====
-- The options of the reader of a database: `_get_reading_options` of
-- syncmaster/worker/handlers/db/base.py, after `read` has quoted the column of the strategy.
use syncmaster.Handlers.{
  HandlerClass, quote_field, hive_handler, iceberg_handler, postgres_handler, clickhouse_handler,
  mssql_handler, mysql_handler, oracle_handler, file_handler,
}
use syncmaster.Prelude.{
  Bool, Text, not, ℕ, ◌||◌, Option, ◌==◌, ◌≡◌, if◌then◌else◌, some, none, true, false, Bool-cases,
  refl, inl, inr,
}
use syncmaster.Handlers.Hwm.{Strategy, incremental, full, Hwm, has_value}

pub record ReadingOptions : Type 0 where
  pub partition_column : Text
  pub num_partitions : ℕ
  pub by_range : Bool

-- `self.transfer_dto.strategy.increment_by = self._quote_field(…)`, in `read`.
abbrev pub quote_increment : HandlerClass → Strategy → Strategy
quote_increment h full = full
quote_increment h (incremental increment_by) = incremental (quote_field h increment_by)

-- The first column of the schema of a connection that has `get_df_schema`.
abbrev hash_options : HandlerClass → ℕ → Option Text → Option ReadingOptions
hash_options h tasks none = none
hash_options h tasks (some first_column) = some (record {
  partition_column = quote_field h first_column;
  num_partitions = tasks;
  by_range = false;
})

abbrev options_for : HandlerClass → ℕ → Option Hwm → Option Text → Strategy → Option ReadingOptions
options_for h tasks hwm first_column full = hash_options h tasks first_column
options_for h tasks hwm first_column (incremental increment_by) =
    some
      (record { partition_column = increment_by; num_partitions = tasks; by_range = has_value hwm })

-- `_get_reading_options`, without options in the classes of Hive and Iceberg. The handlers of files
-- have no such method, and are not asked.
unfoldable pub get_reading_options :
    HandlerClass → ℕ → Option Hwm → Option Text → Strategy → Option ReadingOptions
get_reading_options hive_handler tasks hwm first_column strategy = none
get_reading_options iceberg_handler tasks hwm first_column strategy = none
get_reading_options h tasks hwm first_column strategy =
    if tasks == 1 then none else options_for h tasks hwm first_column strategy

-- The options that `read` gives to the reader.
unfoldable pub reader_options :
    HandlerClass → ℕ → Option Hwm → Option Text → Strategy → Option ReadingOptions
reader_options h tasks hwm first_column strategy =
    get_reading_options h tasks hwm first_column (quote_increment h strategy)

-- What options say of a reader: a number of tasks other than one, a column in the quotes of the
-- database, and ranges only for a mark with a value.
abbrev pub Partitions : HandlerClass → ℕ → Option Hwm → Option ReadingOptions → Type 0
Partitions h tasks hwm none = Unit
Partitions h tasks hwm (some o) =
    ((tasks == 1) ≡ false)
    × (o.num_partitions ≡ tasks)
    × (field : Text) × (o.partition_column ≡ quote_field h field)
    × ((not o.by_range || has_value hwm) ≡ true)

implied : (b : Bool) → (not b || b) ≡ true
implied true = refl
implied false = refl

options_for-Partitions :
    (h : HandlerClass) (tasks : ℕ) (hwm : Option Hwm) (first_column : Option Text)
    (strategy : Strategy)
    → (tasks == 1) ≡ false
    → Partitions h tasks hwm (options_for h tasks hwm first_column (quote_increment h strategy))
options_for-Partitions h tasks hwm none full many = tt
options_for-Partitions h tasks hwm (some c) full many = (many, refl, c, refl, refl)
options_for-Partitions h tasks hwm first (incremental c) many =
    (many, refl, c, refl, implied (has_value hwm))

by_tasks :
    (h : HandlerClass) (tasks : ℕ) (hwm : Option Hwm) (first_column : Option Text)
    (strategy : Strategy)
    → Partitions h tasks hwm (
        if tasks == 1
        then none
        else options_for h tasks hwm first_column (quote_increment h strategy))
by_tasks h tasks hwm first strategy = elim (Bool-cases (tasks == 1)) [
  | inl single ↦ rw single tt
  | inr many ↦ rw many (options_for-Partitions h tasks hwm first strategy many)
]

-- A reader that works in parts works in as many parts as there are tasks, a number other than
-- one; it parts by a column in the quotes of its database, the one of an incremental strategy
-- included, and by ranges only if the mark has a value that counts as true.
pub reader_options-Partitions :
    (h : HandlerClass) (tasks : ℕ) (hwm : Option Hwm) (first_column : Option Text)
    (strategy : Strategy)
    → Partitions h tasks hwm (reader_options h tasks hwm first_column strategy)
unfolding reader_options get_reading_options
reader_options-Partitions hive_handler tasks hwm first strategy = tt
reader_options-Partitions iceberg_handler tasks hwm first strategy = tt
reader_options-Partitions postgres_handler tasks hwm first strategy =
    by_tasks postgres_handler tasks hwm first strategy
reader_options-Partitions clickhouse_handler tasks hwm first strategy =
    by_tasks clickhouse_handler tasks hwm first strategy
reader_options-Partitions mssql_handler tasks hwm first strategy =
    by_tasks mssql_handler tasks hwm first strategy
reader_options-Partitions mysql_handler tasks hwm first strategy =
    by_tasks mysql_handler tasks hwm first strategy
reader_options-Partitions oracle_handler tasks hwm first strategy =
    by_tasks oracle_handler tasks hwm first strategy
reader_options-Partitions file_handler tasks hwm first strategy =
    by_tasks file_handler tasks hwm first strategy
