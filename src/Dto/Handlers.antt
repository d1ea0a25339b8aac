-- ===== src/Dto/Handlers.antt =====
-- The handlers of a transfer: `connection_handler_proxy`, `TransferController.get_handler` and
-- `TransferController.__init__` of syncmaster/worker/controller.py. The dictionary of a connection
-- is changed by `get_handler`, and is one object if a transfer has one connection on both sides.
pub mod Made
pub mod Tables
pub mod Storages
pub mod Accepted
pub mod Merging
pub mod Shared
pub mod Port
pub mod Connect
pub mod Wanted
pub mod Connected
use syncmaster.Credentials.{assign}
use syncmaster.Db.Json.{Json, Dict}
use syncmaster.Errors.{ConnectionType}
use syncmaster.Dto.{
  Failure, type_error, key_error, connection_type_not_recognized, Outcome, returned, raised, ◌>>=◌,
  lookup, is_in, Param, Dataclass, Dto, construct, postgres_connection_dto,
  clickhouse_connection_dto, mssql_connection_dto, mysql_connection_dto, oracle_connection_dto,
  hive_connection_dto, hdfs_connection_dto, s3_connection_dto, sftp_connection_dto,
  ftp_connection_dto, ftps_connection_dto, samba_connection_dto, webdav_connection_dto,
  get_iceberg_connection_dto, optional,
}
use syncmaster.Dto.Transfers.{
  FormatClass, StrategyDto, from_dict, erase, db_fields, file_fields, table_post_init,
  partitions_post_init, resources_class, file_post_init,
}
use syncmaster.Prelude.{
  Bool, List, String, Option, ℕ, true, false, some, none, [], ◌∷◌, ◌++◌, str_eq, any, ◌==◌,
  if◌then◌else◌,
}

-- `d.update(e)`
unfoldable pub update : Dict → Dict → Dict
unfolding assign
update d [] = d
update d ((k, v) ∷ e) = update (assign k v d) e

-- `connection_data.update(connection_auth_data)`, then `connection_data.pop("type")`.
unfoldable pub merge : Dict → Dict → Outcome Dict
unfolding update erase
merge connection_data connection_auth_data =
    let merged = update connection_data connection_auth_data in
    if is_in "type" merged then returned (erase "type" merged) else raised key_error

-- The arguments of a transfer data object that are given by their names.
pub record TransferArgs : Type 0 where
  pub id : ℕ
  pub name : String
  pub group_name : String
  pub strategy_params : Dict
  pub resources : Dict
  pub transformations : List Json

pub record TransferData : Type 0 where
  pub args : TransferArgs
  pub strategy : StrategyDto
  pub resources : Dto
  pub attributes : Dto

pub record RunDto : Type 0 where
  pub id : ℕ
  pub created_at : ℕ

-- The class of a handler is named by the type that it is for.
pub record Handler : Type 0 where
  pub handler_class : ConnectionType
  pub connection_dto : Dto
  pub transfer_dto : TransferData
  pub run_dto : RunDto

abbrev pub named_arguments : List String
named_arguments = "id" ∷ "name" ∷ "group_name" ∷ "strategy" ∷ "resources" ∷ "transformations" ∷ []

-- A keyword that is given twice is a `TypeError`.
abbrev pub repeats : Dict → Bool
repeats d = any (λ name. is_in name d) named_arguments

module _ (parse_obj : FormatClass → Dict → Outcome Json) (loads : String → Outcome Json)
    (catalog_name : String) where
  abbrev pub initialized : (Dict → Outcome Dict) → Dto → Outcome Dto
  initialized post_init o =
      post_init o.attributes >>= λ d. returned (record { type = o.type; attributes = d })

  -- The classes of databases, the classes of Hive, and the one of Iceberg.
  abbrev pub table_dto : String → Dict → Outcome Dto
  table_dto type keywords =
      construct (record { type = type; fields = db_fields }) keywords
      >>= initialized (λ d. returned (table_post_init d))

  abbrev pub hive_dto : Dict → Outcome Dto
  hive_dto keywords =
      construct (record { type = "hive"; fields = db_fields }) keywords
      >>= initialized (λ d. returned (partitions_post_init (table_post_init d)))

  abbrev pub iceberg_dto : Dict → Outcome Dto
  iceberg_dto keywords =
      construct
        (record {
          type = "iceberg";
          fields = db_fields ++ (optional "catalog_name" (Json.str catalog_name) ∷ []);
        })
        keywords
      >>= initialized (λ d. returned (partitions_post_init (table_post_init d)))

  abbrev pub file_dto : String → Dict → Outcome Dto
  file_dto type keywords =
      construct (record { type = type; fields = file_fields }) keywords
      >>= initialized (file_post_init parse_obj loads)

  pub record Entry : Type 0 where
    pub handler : ConnectionType
    pub connection_dto : Dict → Outcome Dto
    pub transfer_dto : Dict → Outcome Dto

  abbrev pub entry : ConnectionType → (Dict → Outcome Dto) → (Dict → Outcome Dto) → Entry
  entry h c t = record { handler = h; connection_dto = c; transfer_dto = t }

  unfoldable pub connection_handler_proxy : List (String × Entry)
  unfolding construct get_iceberg_connection_dto
  connection_handler_proxy =
      ("hive", entry ConnectionType.hive (construct hive_connection_dto) hive_dto)
      ∷ ("iceberg", entry ConnectionType.iceberg get_iceberg_connection_dto iceberg_dto)
      ∷ (
        "oracle",
        entry ConnectionType.oracle (construct oracle_connection_dto) (table_dto "oracle"),
      )
      ∷ (
        "clickhouse",
        entry ConnectionType.clickhouse (construct clickhouse_connection_dto)
            (table_dto "clickhouse"),
      )
      ∷ ("mssql", entry ConnectionType.mssql (construct mssql_connection_dto) (table_dto "mssql"))
      ∷ ("mysql", entry ConnectionType.mysql (construct mysql_connection_dto) (table_dto "mysql"))
      ∷ (
        "postgres",
        entry ConnectionType.postgres (construct postgres_connection_dto) (table_dto "postgres"),
      )
      ∷ ("s3", entry ConnectionType.s3 (construct s3_connection_dto) (file_dto "s3"))
      ∷ ("hdfs", entry ConnectionType.hdfs (construct hdfs_connection_dto) (file_dto "hdfs"))
      ∷ ("sftp", entry ConnectionType.sftp (construct sftp_connection_dto) (file_dto "sftp"))
      ∷ ("ftp", entry ConnectionType.ftp (construct ftp_connection_dto) (file_dto "ftp"))
      ∷ ("ftps", entry ConnectionType.ftps (construct ftps_connection_dto) (file_dto "ftps"))
      ∷ ("samba", entry ConnectionType.samba (construct samba_connection_dto) (file_dto "samba"))
      ∷ (
        "webdav",
        entry ConnectionType.webdav (construct webdav_connection_dto) (file_dto "webdav"),
      )
      ∷ []

  abbrev pub find_entry : String → List (String × Entry) → Option Entry
  find_entry name [] = none
  find_entry name ((k, e) ∷ es) = if str_eq k name then some e else find_entry name es

  -- `connection_handler_proxy.get(handler_type, None)`
  unfoldable pub entry_of : Option Json → Option Entry
  unfolding connection_handler_proxy
  entry_of (some (Json.str name)) = find_entry name connection_handler_proxy
  entry_of _ = none

  -- `transfer_dto(id=…, name=…, …, **transfer_params)`
  abbrev pub transfer_data : Entry → TransferArgs → Dict → Outcome TransferData
  transfer_data e args params = from_dict args.strategy_params >>= λ strategy.
      construct resources_class args.resources >>= λ resources.
      (if repeats params then raised type_error else e.transfer_dto params) >>= λ o.
      returned (record { args = args; strategy = strategy; resources = resources; attributes = o })

  abbrev pub make : Option Entry → Dict → Dict → TransferArgs → RunDto → Outcome Handler
  make none merged params args run = raised connection_type_not_recognized
  make (some e) merged params args run = e.connection_dto merged >>= λ connection.
      transfer_data e args params >>= λ transfer. returned (record {
        handler_class = e.handler;
        connection_dto = connection;
        transfer_dto = transfer;
        run_dto = run;
      })

  -- `get_handler`: the handler, and the dictionary of the connection after the call.
  unfoldable pub get_handler : Dict → Dict → Dict → TransferArgs → RunDto → Outcome (Handler × Dict)
  unfolding merge
  get_handler connection_data connection_auth_data transfer_params args run =
      merge connection_data connection_auth_data >>= λ merged.
      make (entry_of (lookup "type" transfer_params)) merged (erase "type" transfer_params) args run
      >>= λ h. returned (h, merged)

  -- The dictionaries of the connections, by the keys of their rows.
  abbrev pub Store : Type 0
  Store = ℕ → Dict

  abbrev pub put : ℕ → Dict → Store → Store
  put cid d store j = if j == cid then d else store j

  -- `__init__`: the handlers of the source and of the target.
  unfoldable pub init_controller :
      ℕ → ℕ → Store → (ℕ → Dict) → Dict → Dict → TransferArgs → RunDto → Outcome (Handler × Handler)
  unfolding get_handler
  init_controller source target store auth_data source_params target_params args run =
      get_handler (store source) (auth_data source) source_params args run >>= λ s.
      get_handler (put source s.1 store target) (auth_data target) target_params args run >>= λ t.
      returned (s.0, t.0)
