-- ===== src/Errors.antt =====
-- syncmaster/exceptions: the exception classes, and what the session itself raises.
use syncmaster.Prelude.{ℕ, String, Bool, true, false, ◌==◌}

-- The database connector types, `ConnectionType` of syncmaster/db/models/connection.py.
pub data ConnectionType : Type 0 where
  postgres hive iceberg oracle clickhouse mssql mysql : ConnectionType
  s3 hdfs sftp ftp ftps webdav samba : ConnectionType

-- `Status` of syncmaster/db/models/run.py
pub data Status : Type 0 where
  created started failed send_stop_signal stopped finished : Status

pub data Side : Type 0 where
  source target : Side

-- A subclass of `SyncmasterError`. A message that is built from a number keeps the number.
pub data SyncmasterError : Type 0 where
  syncmaster_error entity_not_found action_not_allowed : SyncmasterError
  authorization_error logout_error redirect_error : String → SyncmasterError
  connection_not_found connection_owner connection_type_not_recognized : SyncmasterError
  connection_type_update connection_auth_data_update : SyncmasterError
  user_do_not_have_rights_in_the_target_group duplicated_connection_name : SyncmasterError
  connection_delete auth_data_not_found : ℕ → SyncmasterError
  group_name_already_exists group_already_exists group_not_found : SyncmasterError
  already_is_group_member already_is_not_group_member already_is_group_owner : SyncmasterError
  queue_not_found different_transfer_and_queue_group duplicated_queue_name : SyncmasterError
  queue_delete : ℕ → SyncmasterError
  run_not_found : SyncmasterError
  cannot_stop_run : ℕ → Status → SyncmasterError
  cannot_connect_to_task_queue : ℕ → SyncmasterError
  transfer_owner transfer_not_found duplicated_transfer_name : SyncmasterError
  different_transfer_and_connections_groups : SyncmasterError
  different_type_connections_and_params : ConnectionType → ConnectionType → Side → SyncmasterError
  username_already_exists user_not_found : SyncmasterError

-- `isinstance(e, EntityNotFoundError)`
abbrev pub is_entity_not_found : SyncmasterError → Bool
is_entity_not_found entity_not_found = true
is_entity_not_found connection_not_found = true
is_entity_not_found queue_not_found = true
is_entity_not_found run_not_found = true
is_entity_not_found _ = false

-- The constraints of the tables, by the names that the naming convention of
-- syncmaster/db/models/base.py gives them.
pub data Constraint : Type 0 where
  uq__group__name fk__group__owner_id__user : Constraint
  pk__user_group fk__user_group__group_id__group fk__user_group__user_id__user : Constraint
  uq__queue__slug fk__queue__group_id__group : Constraint
  uq__connection__name_group_id fk__connection__group_id__group : Constraint
  pk__auth_data fk__auth_data__connection_id__connection : Constraint
  uq__transfer__name_group_id fk__transfer__group_id__group : Constraint
  fk__transfer__source_connection_id__connection : Constraint
  fk__transfer__target_connection_id__connection fk__transfer__queue_id__queue : Constraint
  fk__run__transfer_id__transfer ix__user__username : Constraint

-- What a statement or a handler can raise: an error of the program, `IntegrityError` of a violated
-- constraint, `NoResultFound`, the `ValueError` of a text that is no member of an enum, the
-- `KeyError` of a missing key, the failure to decrypt a value, or the error of the driver for a value
-- that is out of the range of its column.
pub data Exception : Type 0 where
  raised : SyncmasterError → Exception
  integrity_error : Constraint → Exception
  no_result_found value_error key_error invalid_token data_error : Exception

-- The number that tells connection types apart, for `!=` and `in`.
abbrev pub type_index : ConnectionType → ℕ
type_index postgres = 0
type_index hive = 1
type_index iceberg = 2
type_index oracle = 3
type_index clickhouse = 4
type_index mssql = 5
type_index mysql = 6
type_index s3 = 7
type_index hdfs = 8
type_index sftp = 9
type_index ftp = 10
type_index ftps = 11
type_index webdav = 12
type_index samba = 13

abbrev pub type_eq : ConnectionType → ConnectionType → Bool
type_eq a b = type_index a == type_index b
