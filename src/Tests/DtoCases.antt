-- ===== src/Tests/DtoCases.antt =====
-- Connections and transfers as the worker gets them: requests that the schemas accept, and the
-- handlers that they give.
use syncmaster.Dto.Handlers.Port.{Ports, get_handler-Ports}
use syncmaster.Schemas.{admits}
use syncmaster.Errors.{source, target}
use syncmaster.Dto.Handlers.Wanted.{wanted_calls}
use syncmaster.Dto.Handlers.Connect.{connect}
use syncmaster.Dto.Handlers.Connected.{get_handler-connects}
use syncmaster.Dto.Handlers.Made.{dump_auth}
use syncmaster.Schemas.Transfers.{dump_params}
use syncmaster.Dto.{
  Outcome, raised, returned, value_error, construct, ftp_connection_dto, type_error,
}
use syncmaster.Schemas.Connections.{
  is_accepted, CreateConnection, dump_data, auth_type, data_schema,
}
use syncmaster.Dto.Handlers.{RunDto, Handler, init_controller, get_handler, merge}
use syncmaster.Schemas.Transfers.{incremental}
use syncmaster.Db.Json.{Fields, Json, Dict, fields_of, obj_of}
use syncmaster.Prelude.{some, String, ℕ, [], inr, ◌∷◌, if◌then◌else◌, str_eq, refl, ◌≡◌}
use syncmaster.Dto.Transfers.{FormatClass, get_file_format}
use syncmaster.Dto.Handlers.Accepted.{Columns, args_of, IsFor, TakesFormat, get_handler-IsFor}
use syncmaster.Dto.Handlers.Shared.{stored, auth, init_controller-IsFor}
use syncmaster.Credentials.{assign}

-- A format is taken as it is.
abbrev take_format : FormatClass → Dict → Outcome Json
take_format c d = returned (obj_of d)

abbrev no_texts : String → Outcome Json
no_texts s = raised value_error

-- Data of a connection to S3 without a port.
abbrev bucket : String → Json
bucket name =
    if str_eq name "port"
    then Json.null
    else if str_eq name "additional_params"
    then obj_of []
    else if str_eq name "protocol"
    then Json.str "http"
    else if str_eq name "bucket_style"
    then Json.str "path"
    else Json.str "reports"

abbrev keys : String → Json
keys name = Json.str "key"

abbrev csv_files : Fields
csv_files = fields_of (("type", Json.str "csv") ∷ ("line_sep", Json.str "\n") ∷ [])

abbrev nightly : Columns
nightly = record {
  id = 7;
  name = "nightly";
  group_name = "reports";
  strategy = incremental "file_name";
  resources = record {
    max_parallel_tasks = 2;
    cpu_cores_per_task = 1;
    ram_bytes_per_task = 1073741824;
  };
  transformations = [];
}

abbrev first_run : RunDto
first_run = record { id = 1; created_at = 100 }

takes_csv : TakesFormat take_format no_texts "iceberg_1" CreateConnection.s3 csv_files
unfolding get_file_format assign fields_of
takes_csv = inr (obj_of (("lineSep", Json.str "\n") ∷ []), refl)

get_handler-IsFor_example :
    (h : Handler) × (merged : Dict) × (get_handler take_format no_texts "iceberg_1"
        (dump_data CreateConnection.s3 bucket)
        (dump_auth (auth_type CreateConnection.s3) keys)
        (dump_params CreateConnection.s3 source keys csv_files)
        (args_of nightly)
        first_run
      ≡ returned (h, merged))
    × (merge (dump_data CreateConnection.s3 bucket) (dump_auth (auth_type CreateConnection.s3) keys)
        ≡ returned merged)
    × IsFor CreateConnection.s3 bucket keys source keys nightly h
unfolding is_accepted
get_handler-IsFor_example =
    get_handler-IsFor take_format no_texts "iceberg_1" bucket keys keys csv_files
      CreateConnection.s3 source nightly first_run refl takes_csv

-- One bucket as the source and as the target.
abbrev only_s3 : ℕ → CreateConnection
only_s3 _ = CreateConnection.s3

init_controller-IsFor_example :
    (s h : Handler) × (init_controller take_format no_texts "iceberg_1" 4 4
        (stored only_s3 (λ _. bucket))
        (auth only_s3 (λ _. keys))
        (dump_params CreateConnection.s3 source keys csv_files)
        (dump_params CreateConnection.s3 target keys csv_files)
        (args_of nightly)
        first_run
      ≡ returned (s, h))
    × IsFor CreateConnection.s3 bucket keys source keys nightly s
    × IsFor CreateConnection.s3 bucket keys target keys nightly h
unfolding is_accepted
init_controller-IsFor_example =
    init_controller-IsFor take_format no_texts "iceberg_1" only_s3 (λ _. bucket) (λ _. keys) nightly
      first_run 4 4 keys keys csv_files csv_files refl refl takes_csv takes_csv

get_handler-Ports_example :
    (h : Handler) × (merged : Dict) × (get_handler take_format no_texts "iceberg_1"
        (dump_data CreateConnection.s3 bucket)
        (dump_auth (auth_type CreateConnection.s3) keys)
        (dump_params CreateConnection.s3 source keys csv_files)
        (args_of nightly)
        first_run
      ≡ returned (h, merged))
    × Ports CreateConnection.s3 h.connection_dto
unfolding is_accepted data_schema admits obj_of
get_handler-Ports_example =
    get_handler-Ports take_format no_texts "iceberg_1" bucket keys keys csv_files
      CreateConnection.s3 source nightly first_run refl takes_csv
      (refl, (refl, (refl, (refl, (refl, (refl, (refl, tt)))))))

get_handler-connects_example :
    (h : Handler) × (merged : Dict) × (get_handler take_format no_texts "iceberg_1"
        (dump_data CreateConnection.s3 bucket)
        (dump_auth (auth_type CreateConnection.s3) keys)
        (dump_params CreateConnection.s3 source keys csv_files)
        (args_of nightly)
        first_run
      ≡ returned (h, merged))
    × (connect h ≡ some (wanted_calls CreateConnection.s3 bucket keys))
unfolding is_accepted data_schema admits obj_of syncmaster.Schemas.Connections.connection_type
get_handler-connects_example =
    get_handler-connects take_format no_texts "iceberg_1" bucket keys keys csv_files
      CreateConnection.s3 source nightly first_run refl takes_csv
      (refl, (refl, (refl, (refl, (refl, (refl, (refl, tt))))))) refl

-- The port that the request left out.
s3_port_filled :
    dump_data CreateConnection.s3 bucket
    ≡ ("host", Json.str "reports")
      ∷ ("bucket", Json.str "reports")
      ∷ ("protocol", Json.str "http")
      ∷ ("region", Json.str "reports")
      ∷ ("port", Json.int 80)
      ∷ ("bucket_style", Json.str "path")
      ∷ ("additional_params", obj_of [])
      ∷ []
unfolding dump_data
s3_port_filled = refl

-- An access key where the schema wants a password.
wrong_secret :
    construct ftp_connection_dto (
      ("host", keys "host")
      ∷ ("port", Json.int 21)
      ∷ ("user", keys "user")
      ∷ ("secret_key", keys "password")
      ∷ [])
    ≡ raised type_error
unfolding construct
wrong_secret = refl
