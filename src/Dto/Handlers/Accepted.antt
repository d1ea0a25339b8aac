-- ===== src/Dto/Handlers/Accepted.antt =====
-- `get_handler` on what the schemas accept.
use syncmaster.Dto.Handlers.Tables.{tables}
use syncmaster.Dto.Handlers.Storages.{storages}
use syncmaster.Schemas.Auth.{create_auth_schema}
use syncmaster.Errors.{Side}
use syncmaster.Db.Json.{Dict, Json, Fields}
use syncmaster.Schemas.Connections.{
  CreateConnection, is_accepted, connection_type, type_name, dump_data, auth_type, data_schema,
}
use syncmaster.Dto.Handlers.{
  TransferArgs, get_handler, RunDto, Handler, merge, Entry, entry_of, repeats,
}
use syncmaster.Prelude.{ℕ, ◌≡◌, String, List, refl, false, ◌⊎◌, true, inl, inr, Bool-cases, some}
use syncmaster.Dto.{Dto, construct, Outcome, returned, lookup}
use syncmaster.Dto.Transfers.{
  FormatClass, StrategyDto, from_dict, resources_class, full_strategy, incremental_strategy,
  get_file_format, dict_of, erase,
}
use syncmaster.Dto.Handlers.Made.{
  Fits, Holds, names, attributes_of, kept_params, stores_files, dump_auth,
}
use syncmaster.Schemas.Transfers.{
  Strategy, full, incremental, Resources, dump_strategy, dump_resources, dump_params,
}

abbrev strategy_of : Strategy → StrategyDto
strategy_of full = full_strategy
strategy_of (incremental increment_by) = incremental_strategy (Json.str increment_by)

from_dict-dump_strategy : (s : Strategy) → from_dict (dump_strategy s) ≡ returned (strategy_of s)
unfolding from_dict dump_strategy
from_dict-dump_strategy full = refl
from_dict-dump_strategy (incremental _) = refl

abbrev resources_of : Resources → Dto
resources_of r = record { type = ""; attributes = dump_resources r }

resources-dump_resources :
    (r : Resources) → construct resources_class (dump_resources r) ≡ returned (resources_of r)
unfolding construct dump_resources
resources-dump_resources r = refl

-- The columns of a transfer.
pub record Columns : Type 0 where
  pub id : ℕ
  pub name : String
  pub group_name : String
  pub strategy : Strategy
  pub resources : Resources
  pub transformations : List Json

abbrev pub args_of : Columns → TransferArgs
args_of t = record {
  id = t.id;
  name = t.name;
  group_name = t.group_name;
  strategy_params = dump_strategy t.strategy;
  resources = dump_resources t.resources;
  transformations = t.transformations;
}

-- A handler of the class of the connection's type, whose objects have what the request gave.
pub record IsFor (c : CreateConnection) (attribute secret : String → Json) (side : Side)
    (param : String → Json) (t : Columns) (h : Handler) : Type 0 where
  pub class_of_type : h.handler_class ≡ connection_type c
  pub type_of_class : h.connection_dto.type ≡ type_name (connection_type c)
  pub given_data : Holds (names (data_schema c)) (attributes_of c attribute) h.connection_dto
  pub credentials : Holds (names (create_auth_schema (auth_type c))) secret h.connection_dto
  pub parameters : Holds (kept_params c side) param h.transfer_dto.attributes
  pub chosen_strategy : h.transfer_dto.strategy ≡ strategy_of t.strategy

module _ (parse_obj : FormatClass → Dict → Outcome Json) (loads : String → Outcome Json)
    (catalog_name : String) where
  -- The parser takes the format, if the connection is to a storage of files.
  abbrev pub TakesFormat : CreateConnection → Fields → Type 0
  TakesFormat c format =
      (stores_files c ≡ false)
      ⊎ ((parsed : Json) × (get_file_format parse_obj loads (dict_of format) ≡ returned parsed))

  pub parts :
      (attribute secret param : String → Json) (format : Fields) (c : CreateConnection)
      (side : Side)
      → is_accepted c ≡ true
      → TakesFormat c format
      → Fits parse_obj loads catalog_name attribute secret param format c side
  parts attribute secret param format c side accepted (inl table) =
      tables parse_obj loads catalog_name attribute secret param format c side table accepted
  parts attribute secret param format c side accepted (inr (parsed, taken)) =
      elim (Bool-cases (stores_files c)) [
        | inl stores ↦
            storages parse_obj loads catalog_name attribute secret param format parsed taken c side
              stores
        | inr table ↦
            tables parse_obj loads catalog_name attribute secret param format c side table accepted
      ]

  abbrev handler_of : Entry parse_obj loads catalog_name → Dto → Dto → Columns → RunDto → Handler
  handler_of e o p t run = record {
    handler_class = e.handler;
    connection_dto = o;
    transfer_dto = record {
      args = args_of t;
      strategy = strategy_of t.strategy;
      resources = resources_of t.resources;
      attributes = p;
    };
    run_dto = run;
  }

  -- `get_handler`, where each of its steps returns.
  get_handler_lem :
      (connection_data auth_data params : Dict) (t : Columns) (run : RunDto)
      (e : Entry parse_obj loads catalog_name) (merged : Dict) (o p : Dto)
      → merge connection_data auth_data ≡ returned merged
      → entry_of parse_obj loads catalog_name (lookup "type" params) ≡ some e
      → e.connection_dto merged ≡ returned o
      → repeats (erase "type" params) ≡ false
      → e.transfer_dto (erase "type" params) ≡ returned p
      → get_handler parse_obj loads catalog_name connection_data auth_data params (args_of t) run
        ≡ returned (handler_of e o p t run, merged)
  unfolding get_handler
  get_handler_lem connection_data auth_data params t run e merged o p merges found made unique
        built =
      rw
        (
          merges,
          found,
          made,
          from_dict-dump_strategy t.strategy,
          resources-dump_resources t.resources,
          unique,
          built,
        )
        refl

  -- A connection and a transfer that the schemas accept give a handler in the worker: the class is
  -- the one for the type of the connection, no argument is missing, unexpected or given twice, and
  -- the objects have the data, the credentials, the parameters and the strategy of the requests, if
  -- the parser takes the format of the files.
  pub get_handler-IsFor :
      (attribute secret param : String → Json) (format : Fields) (c : CreateConnection)
      (side : Side) (t : Columns) (run : RunDto)
      → is_accepted c ≡ true
      → TakesFormat c format
      → (h : Handler) × (merged : Dict) × (get_handler parse_obj loads catalog_name
            (dump_data c attribute)
            (dump_auth (auth_type c) secret)
            (dump_params c side param format)
            (args_of t)
            run
          ≡ returned (h, merged))
        × (merge (dump_data c attribute) (dump_auth (auth_type c) secret) ≡ returned merged)
        × IsFor c attribute secret side param t h
  get_handler-IsFor attribute secret param format c side t run accepted taken =
      let (e, merged, o, p, found, cls, merges, made, type, values, secrets, unique, built, kept) =
        parts attribute secret param format c side accepted taken in
      (
        handler_of e o p t run,
        merged,
        get_handler_lem (dump_data c attribute) (dump_auth (auth_type c) secret)
            (dump_params c side param format) t run e merged o p merges found made unique built,
        merges,
        record {
          class_of_type = cls;
          type_of_class = type;
          given_data = values;
          credentials = secrets;
          parameters = kept;
          chosen_strategy = refl;
        },
      )
