-- ===== src/Dto/Transfers.antt =====
-- The data objects of transfers: syncmaster/dto/transfers.py, with the strategy and the resources of
-- syncmaster/dto/transfers_strategy.py and syncmaster/dto/transfers_resources.py. The parsers of
-- file formats and of JSON texts are parameters.
use syncmaster.Credentials.{assign}
use syncmaster.Db.Json.{Json, Dict, Fields, obj_of}
use syncmaster.Dto.{
  type_error, value_error, Outcome, returned, raised, ◌>>=◌, lookup, Param, required, optional,
  Dataclass, construct,
}
use syncmaster.Prelude.{
  Bool, List, String, Option, false, some, none, [], ◌∷◌, ◌++◌, str_eq, is_some, if◌then◌else◌,
  ◌||◌,
}

-- `d.pop(key, None)`: the dictionary after it.
unfoldable pub erase : String → Dict → Dict
erase key [] = []
erase key ((k, v) ∷ d) = let rest = erase key d in if str_eq k key then rest else (k, v) ∷ rest

-- `d.setdefault(key, v)`
abbrev with_default : String → Json → Dict → Dict
with_default key v d = if is_some (lookup key d) then d else d ++ (key, v) ∷ []

abbrev pub dict_of : Fields → Dict
dict_of Fields.end = []
dict_of (Fields.field k v fs) = (k, v) ∷ dict_of fs

-- `FullStrategy` and `IncrementalStrategy`
pub data StrategyDto : Type 0 where
  full_strategy : StrategyDto
  incremental_strategy : Json → StrategyDto

abbrev strategy_type : Option Json → String
strategy_type (some (Json.str s)) = s
strategy_type _ = ""

abbrev full_class : Dataclass
full_class = record { type = ""; fields = required "type" ∷ [] }

abbrev incremental_class : Dataclass
incremental_class = record { type = ""; fields = required "type" ∷ required "increment_by" ∷ [] }

abbrev increment_of : Option Json → Outcome StrategyDto
increment_of (some v) = returned (incremental_strategy v)
increment_of none = raised type_error

-- `Strategy.from_dict`
unfoldable pub from_dict : Dict → Outcome StrategyDto
unfolding construct
from_dict d =
    if str_eq (strategy_type (lookup "type" d)) "full"
    then construct full_class d >>= (λ _. returned full_strategy)
    else if str_eq (strategy_type (lookup "type" d)) "incremental"
    then construct incremental_class d >>= (λ o. increment_of (lookup "increment_by" o.attributes))
    else raised value_error

abbrev pub resources_class : Dataclass
resources_class = record {
  type = "";
  fields =
      required "max_parallel_tasks"
      ∷ required "cpu_cores_per_task"
      ∷ required "ram_bytes_per_task"
      ∷ [];
}

-- The keys of `_format_parsers`
pub data FormatClass : Type 0 where
  csv jsonline json excel orc parquet xml : FormatClass

abbrev format_parser : String → Option FormatClass
format_parser name =
    if str_eq name "csv"
    then some csv
    else if str_eq name "jsonline"
    then some jsonline
    else if str_eq name "json"
    then some json
    else if str_eq name "excel"
    then some excel
    else if str_eq name "orc"
    then some orc
    else if str_eq name "parquet"
    then some parquet
    else if str_eq name "xml"
    then some xml
    else none

-- `_rewrite_option_name`
unfoldable pub rewrite_option_name : String → String → Dict → Dict
unfolding erase
rewrite_option_name from_name to_name d = elim (lookup from_name d) [
  | some v ↦ assign to_name v (erase from_name d)
  | none ↦ d
]

abbrev is_text : String → Option Json → Bool
is_text s (some (Json.str t)) = str_eq t s
is_text s _ = false

-- XML has no option for files without compression.
abbrev drop_none_compression : Dict → Dict
drop_none_compression d =
    if is_text "none" (lookup "compression" d) then erase "compression" d else d

-- The renaming of `_get_file_format`, for the type of the format.
unfoldable pub rewritten : String → Dict → Dict
unfolding rewrite_option_name erase
rewritten file_type d =
    if str_eq file_type "xml"
    then drop_none_compression
        (rewrite_option_name "row_tag" "rowTag" (rewrite_option_name "root_tag" "rootTag" d))
    else if str_eq file_type "excel"
    then rewrite_option_name "start_cell" "dataAddress"
        (rewrite_option_name "include_header" "header" d)
    else if str_eq file_type "csv"
    then rewrite_option_name "include_header" "header" (rewrite_option_name "line_sep" "lineSep" d)
    else if str_eq file_type "json" || str_eq file_type "jsonline"
    then rewrite_option_name "line_sep" "lineSep" d
    else d

abbrev base_fields : List Param
base_fields = optional "options" (obj_of []) ∷ []

abbrev pub db_fields : List Param
db_fields = base_fields ++ (required "table_name" ∷ [])

abbrev pub file_fields : List Param
file_fields =
    base_fields
    ++ (required "directory_path"
        ∷ required "file_format"
        ∷ optional "file_name_template" Json.null
        ∷ optional "df_schema" Json.null
        ∷ [])

-- `self.options.setdefault("if_exists", mode)`, where the options are a dictionary.
abbrev with_mode : String → Json → Json
with_mode mode (Json.obj fs) = obj_of (with_default "if_exists" (Json.str mode) (dict_of fs))
with_mode mode j = j

abbrev none_as_empty : Json → Json
none_as_empty Json.null = obj_of []
none_as_empty j = j

abbrev on_attribute : String → (Json → Json) → Dict → Dict
on_attribute key f [] = []
on_attribute key f ((k, v) ∷ d) =
    if str_eq k key then (k, f v) ∷ d else (k, v) ∷ on_attribute key f d

-- `DBTransferDTO.__post_init__`
abbrev pub table_post_init : Dict → Dict
table_post_init d =
    on_attribute "options" (λ o. with_mode "replace_entire_table" (none_as_empty o)) d

-- What `HiveTransferDTO` and `IcebergTransferDTO` do after it.
abbrev pub partitions_post_init : Dict → Dict
partitions_post_init d = on_attribute "options" (with_mode "replace_overlapping_partitions") d

module _ (parse_obj : FormatClass → Dict → Outcome Json) (loads : String → Outcome Json) where
  abbrev parsed : Option FormatClass → Dict → Outcome Json
  parsed (some c) d = parse_obj c d
  parsed none d = raised value_error

  abbrev typed_format : Option Json → Dict → Outcome Json
  typed_format (some (Json.str file_type)) d =
      parsed (format_parser file_type) (rewritten file_type d)
  typed_format _ d = raised value_error

  -- `_get_file_format`
  unfoldable pub get_file_format : Dict → Outcome Json
  unfolding erase rewritten
  get_file_format d = typed_format (lookup "type" d) (erase "type" d)

  abbrev format_attribute : Option Json → Outcome Json
  format_attribute (some (Json.obj fs)) = get_file_format (dict_of fs)
  format_attribute (some j) = returned j
  format_attribute none = raised type_error

  abbrev schema_attribute : Option Json → Outcome Json
  schema_attribute (some (Json.str s)) = loads s
  schema_attribute (some j) = returned j
  schema_attribute none = raised type_error

  -- `FileTransferDTO.__post_init__`
  abbrev pub file_post_init : Dict → Outcome Dict
  file_post_init d = format_attribute (lookup "file_format" d) >>= λ format.
      schema_attribute (lookup "df_schema" d) >>= λ schema.
      returned (partitions_post_init (assign "df_schema" schema (assign "file_format" format d)))
