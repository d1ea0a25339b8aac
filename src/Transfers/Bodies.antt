-- ===== src/Transfers/Bodies.antt =====
-- `CreateTransferSchema` of syncmaster/schemas/v1/transfers/__init__.py, which both `create_transfer`
-- and `update_transfer` read, with its validators.
use syncmaster.Db.Json.{Json, Fields, obj_of}
use syncmaster.Errors.{source, target}
use syncmaster.Schemas.Connections.{CreateConnection, connection_type, type_name}
use syncmaster.Schemas.Transfers.{
  Strategy, full, incremental, dump_strategy, dump_params, dump_resources, Resources,
}
use syncmaster.Transfers.Api.{TransferBody}
use syncmaster.Prelude.{
  String, ℕ, Bool, Option, none, some, if◌then◌else◌, not, ◌&&◌, any, str_eq, [], ◌∷◌, List,
}

-- The parameters of one side: its type, its fields and the format of its files.
pub record SideParams : Type 0 where
  pub connection : CreateConnection
  pub param : String → Json
  pub format : Fields

-- The fields as they stand before the validators run.
pub record CreateTransfer : Type 0 where
  pub group_id : ℕ
  pub queue_id : ℕ
  pub source_connection_id : ℕ
  pub target_connection_id : ℕ
  pub name : String
  pub description : String
  pub source_params : SideParams
  pub target_params : SideParams
  pub strategy_params : Strategy
  pub transformations : Json
  pub resources : Resources
  pub is_scheduled : Bool
  pub schedule : Option String

-- `value or None`
abbrev pub or_none : Option String → Option String
or_none none = none
or_none (some s) = if str_eq s "" then none else some s

-- `validate_scheduling`, with `none` where it raises.
abbrev scheduled_at : Bool → Option String → Option (Option String)
scheduled_at is_scheduled none = if is_scheduled then none else some none
scheduled_at is_scheduled (some s) = some (some s)

unfoldable pub validate_scheduling : Bool → Option String → Option (Option String)
validate_scheduling is_scheduled value = scheduled_at is_scheduled (or_none value)

-- `FILE_CONNECTION_TYPES` of syncmaster/schemas/v1/connection_types.py
abbrev pub file_connection_types : List String
file_connection_types = "ftp" ∷ "ftps" ∷ "hdfs" ∷ "s3" ∷ "samba" ∷ "sftp" ∷ "webdav" ∷ []

-- `validate_strategy`
unfoldable pub validate_strategy : String → Strategy → Option Strategy
validate_strategy source_type full = some full
validate_strategy source_type (incremental increment_by) =
    if any (str_eq source_type) ("s3" ∷ "hdfs" ∷ [])
    then none
    else if any (str_eq source_type) file_connection_types
        && not (any (str_eq increment_by) ("file_modified_since" ∷ "file_name" ∷ []))
    then none
    else some (incremental increment_by)

-- `schedule or ""`
abbrev pub or_empty : Option String → String
or_empty none = ""
or_empty (some s) = s

unfoldable pub params_type : SideParams → String
unfolding connection_type type_name
params_type p = type_name (connection_type p.connection)

-- What the handlers pass on of a body that the validators let through.
unfoldable pub dumped : CreateTransfer → Option String → Strategy → TransferBody
dumped r schedule strategy = record {
  group_id = r.group_id;
  source_type = connection_type r.source_params.connection;
  target_type = connection_type r.target_params.connection;
  values = record {
    name = r.name;
    description = r.description;
    source_connection_id = r.source_connection_id;
    target_connection_id = r.target_connection_id;
    strategy_params = obj_of (dump_strategy strategy);
    source_params = obj_of (
        dump_params r.source_params.connection source r.source_params.param r.source_params.format);
    target_params = obj_of (
        dump_params r.target_params.connection target r.target_params.param r.target_params.format);
    transformations = r.transformations;
    resources = obj_of (dump_resources r.resources);
    is_scheduled = r.is_scheduled;
    schedule = or_empty schedule;
    queue_id = r.queue_id;
  };
}

abbrev pub validated :
    CreateTransfer → Option Strategy → Option (Option String) → Option TransferBody
validated r none schedule = none
validated r (some strategy) none = none
validated r (some strategy) (some schedule) = some (dumped r schedule strategy)

-- The body that a request gives, or none where it is refused.
unfoldable pub create_transfer_schema : CreateTransfer → Option TransferBody
unfolding params_type dumped
create_transfer_schema r =
    validated r (validate_strategy (params_type r.source_params) r.strategy_params)
      (validate_scheduling r.is_scheduled r.schedule)
