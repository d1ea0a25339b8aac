-- ===== src/Schemas/Transfers.antt =====
-- The parameters of a transfer, its strategy and its resources, as validated models are dumped:
-- syncmaster/schemas/v1/transfers.
use syncmaster.Db.Json.{Json, Dict, Fields}
use syncmaster.Errors.{Side, source, target}
use syncmaster.Prelude.{String, ◌∷◌, [], ◌++◌, ℕ}
use syncmaster.Schemas.Connections.{CreateConnection, connection_type, type_name}

-- The schemas of syncmaster/schemas/v1/transfers/db.py
abbrev pub table_params : (String → Json) → Dict
table_params param = ("table_name", param "table_name") ∷ []

-- `FileTransferSource` and `FileTransferTarget`; the format of the files is a dictionary.
abbrev pub directory_params : Side → (String → Json) → Fields → Dict
directory_params source param format =
    ("directory_path", param "directory_path")
    ∷ ("file_format", Json.obj format)
    ∷ ("options", param "options")
    ∷ []
directory_params target param format =
    ("directory_path", param "directory_path")
    ∷ ("file_format", Json.obj format)
    ∷ ("file_name_template", param "file_name_template")
    ∷ ("options", param "options")
    ∷ []

abbrev pub params_of : CreateConnection → Side → (String → Json) → Fields → Dict
params_of CreateConnection.ftp side param format = directory_params side param format
params_of CreateConnection.ftps side param format = directory_params side param format
params_of CreateConnection.sftp side param format = directory_params side param format
params_of CreateConnection.hdfs side param format = directory_params side param format
params_of CreateConnection.s3 side param format = directory_params side param format
params_of CreateConnection.samba side param format = directory_params side param format
params_of CreateConnection.webdav side param format = directory_params side param format
params_of _ side param format = table_params param

-- `transfer_data.source_params.model_dump(mode="json")`, and the same for the target.
unfoldable pub dump_params : CreateConnection → Side → (String → Json) → Fields → Dict
unfolding connection_type type_name
dump_params c side param format =
    params_of c side param format ++ ("type", Json.str (type_name (connection_type c))) ∷ []

-- The two strategies.
pub data Strategy : Type 0 where
  full : Strategy
  incremental : String → Strategy

unfoldable pub dump_strategy : Strategy → Dict
dump_strategy full = ("type", Json.str "full") ∷ []
dump_strategy (incremental increment_by) =
    ("type", Json.str "incremental") ∷ ("increment_by", Json.str increment_by) ∷ []

pub record Resources : Type 0 where
  pub max_parallel_tasks : ℕ
  pub cpu_cores_per_task : ℕ
  pub ram_bytes_per_task : ℕ

unfoldable pub dump_resources : Resources → Dict
dump_resources r =
    ("max_parallel_tasks", Json.int r.max_parallel_tasks)
    ∷ ("cpu_cores_per_task", Json.int r.cpu_cores_per_task)
    ∷ ("ram_bytes_per_task", Json.int r.ram_bytes_per_task)
    ∷ []
