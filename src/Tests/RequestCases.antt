-- ===== src/Tests/RequestCases.antt =====
-- Requests on transfers, one after the other, on a database without transfers.
use syncmaster.Db.{Db, User}
use syncmaster.Db.Json.{Json, Fields}
use syncmaster.Prelude.{String, ◌≡◌, refl, [], ◌∷◌, none, some, true, false, List, length}
use syncmaster.Schemas.Connections.{CreateConnection}
use syncmaster.Schemas.Transfers.{Strategy, full, incremental}
use syncmaster.Transfers.Api.{CopyBody}
use syncmaster.Transfers.Bodies.{SideParams, CreateTransfer, create_transfer_schema}
use syncmaster.Transfers.Requests.{TransferRequest, serve_transfers, serve_transfers-AllRunnable}
use syncmaster.Transfers.Rows.{AllRunnable}
use syncmaster.Tests.Sample.{bob, root, sample}

abbrev table : CreateConnection → SideParams
table connection = record {
  connection = connection;
  param = λ name. Json.str name;
  format = Fields.end;
}

-- A transfer from the table of connection 1 to the one of connection 2, every hour.
abbrev hourly : String → Strategy → CreateTransfer
hourly name strategy = record {
  group_id = 1;
  queue_id = 1;
  source_connection_id = 1;
  target_connection_id = 2;
  name = name;
  description = "";
  source_params = table CreateConnection.postgres;
  target_params = table CreateConnection.hive;
  strategy_params = strategy;
  transformations = Json.null;
  resources = record {
    max_parallel_tasks = 1;
    cpu_cores_per_task = 1;
    ram_bytes_per_task = 1073741824;
  };
  is_scheduled = true;
  schedule = some "0 * * * *";
}

abbrev unscheduled : CreateTransfer
unscheduled = record (hourly "never" full) { schedule = some "" }

abbrev to_lab : CopyBody
to_lab = record {
  new_group_id = 2;
  new_queue_id = 2;
  new_source_connection_name = some "source";
  new_target_connection_name = some "target";
  new_name = none;
  remove_source = false;
}

abbrev no_transfers : Db
no_transfers = record sample { transfers = [] }

abbrev requests : List (User × TransferRequest)
requests =
    (bob, TransferRequest.create (hourly "new" (incremental "id")))
    ∷ (bob, TransferRequest.create unscheduled)
    ∷ (root, TransferRequest.copy 3 to_lab)
    ∷ []

unscheduled_refused : create_transfer_schema unscheduled ≡ none
unfolding create_transfer_schema syncmaster.Transfers.Bodies.validate_strategy
    syncmaster.Transfers.Bodies.validate_scheduling
unscheduled_refused = refl

two_rows : length (serve_transfers requests no_transfers).transfers ≡ 2
unfolding serve_transfers syncmaster.Transfers.Requests.handle_transfer
    syncmaster.Transfers.Api.copy_transfer syncmaster.Transfers.Api.copy_all
    syncmaster.Access.get_resource_permission syncmaster.Prelude.Tables.get create_transfer_schema
    syncmaster.Transfers.Bodies.validate_strategy syncmaster.Transfers.Bodies.validate_scheduling
    syncmaster.Transfers.Api.create_transfer syncmaster.Access.get_group_permission
    syncmaster.Connections.read_by_id syncmaster.Queues.read_by_id
    syncmaster.Transfers.Api.check_body syncmaster.Session.unit_of_work syncmaster.Transfers.create
    syncmaster.Transfers.Statements.insert_transfer syncmaster.Transfers.read_by_id
    syncmaster.Connections.copy syncmaster.Connections.Statements.insert_connection
    syncmaster.Transfers.copy syncmaster.Transfers.Statements.copy_transfer_row
    syncmaster.Schemas.Connections.connection_type syncmaster.Schemas.Connections.type_name
    syncmaster.Transfers.Bodies.params_type syncmaster.Transfers.Bodies.dumped
two_rows = refl

serve_transfers-AllRunnable_example : AllRunnable (serve_transfers requests no_transfers)
serve_transfers-AllRunnable_example = serve_transfers-AllRunnable requests no_transfers tt
