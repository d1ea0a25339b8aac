-- ===== src/Handlers/Transformations.antt =====
-- The transformations of a transfer, as the handlers gather them: `_get_rows_filter_expression`,
-- `_get_columns_filter_expressions` and `_get_sql_query`, which databases and files share.
use syncmaster.Handlers.Asks.{field_tokens, bare}
use syncmaster.Prelude.{
  List, Text, All, ◌++◌, Option, map, codes, [], ◌∷◌, ◌≡◌, none, some, if◌then◌else◌, is_empty,
}
use syncmaster.Handlers.{HandlerClass, quote_field, RowsFilter, make_rows_filter_expression}
use syncmaster.Handlers.Sql.{tokens_of, IsBare, SqlToken}

pub data ColumnsFilter : Type 0 where
  include : Text → ColumnsFilter
  rename : Text → Text → ColumnsFilter
  cast : Text → Text → ColumnsFilter

-- Filters of the metadata of files concern files only, and are not modelled.
pub data Transformation : Type 0 where
  dataframe_rows_filter : List RowsFilter → Transformation
  dataframe_columns_filter : List ColumnsFilter → Transformation
  file_metadata_filter : Transformation
  sql : Text → Transformation

abbrev pub rows_filters : List Transformation → List RowsFilter
rows_filters [] = []
rows_filters (dataframe_rows_filter filters ∷ ts) = filters ++ rows_filters ts
rows_filters (_ ∷ ts) = rows_filters ts

abbrev pub columns_filters : List Transformation → List ColumnsFilter
columns_filters [] = []
columns_filters (dataframe_columns_filter filters ∷ ts) = filters ++ columns_filters ts
columns_filters (_ ∷ ts) = columns_filters ts

-- A step of the loop of `_make_columns_filter_expressions`.
unfoldable pub column_expression : HandlerClass → ColumnsFilter → Text
column_expression h (include field) = quote_field h field
column_expression h (rename field to) = quote_field h field ++ (codes " AS " ++ quote_field h to)
column_expression h (cast field as_type) =
    codes "CAST("
    ++ (quote_field h field
        ++ (codes " AS " ++ (as_type ++ (codes ") AS " ++ quote_field h field))))

-- `expressions or None`
unfoldable pub make_columns_filter_expressions :
    HandlerClass → List ColumnsFilter → Option (List Text)
make_columns_filter_expressions h filters =
    let expressions = map (column_expression h) filters in
    if is_empty expressions then none else some expressions

unfoldable pub get_rows_filter_expression : HandlerClass → List Transformation → Option Text
get_rows_filter_expression h ts = make_rows_filter_expression h (rows_filters ts)

unfoldable pub get_columns_filter_expressions :
    HandlerClass → List Transformation → Option (List Text)
get_columns_filter_expressions h ts = make_columns_filter_expressions h (columns_filters ts)

-- The query of the first transformation of this type.
unfoldable pub get_sql_query : List Transformation → Option Text
get_sql_query [] = none
get_sql_query (sql query ∷ ts) = some query
get_sql_query (_ ∷ ts) = get_sql_query ts

abbrev pub AllBare : ColumnsFilter → Type 0
AllBare (include field) = IsBare field
AllBare (rename field to) = IsBare field × IsBare to
AllBare (cast field as_type) = IsBare field × IsBare as_type

-- What a column is read as: the field, its new name or the cast.
abbrev pub column_tokens : HandlerClass → ColumnsFilter → List SqlToken
column_tokens h (include field) = field_tokens h field
column_tokens h (rename field to) =
    field_tokens h field ++ (bare (codes " AS ") ++ field_tokens h to)
column_tokens h (cast field as_type) =
    bare (codes "CAST(")
    ++ (field_tokens h field
        ++ (bare (codes " AS ")
            ++ (bare as_type ++ (bare (codes ") AS ") ++ field_tokens h field))))

-- The columns of a list, each read on its own.
abbrev pub ReadAs : HandlerClass → List ColumnsFilter → Type 0
ReadAs h = All (λ f. tokens_of (column_expression h f) ≡ some (column_tokens h f))
