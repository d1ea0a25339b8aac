-- ===== src/Transfers/Api.antt =====
-- The handlers of syncmaster/server/api/v1/transfers.py.
use syncmaster.Transfers
use syncmaster.Queues
use syncmaster.Connections
use syncmaster.Session.{M, ◌>>=◌, ◌>>◌, raise_if, unit_of_work, pure}
use syncmaster.Errors.{
  ConnectionType, action_not_allowed, transfer_not_found, connection_not_found,
  different_transfer_and_queue_group, different_transfer_and_connections_groups, type_eq,
  different_type_connections_and_params, target, source,
}
use syncmaster.Db.{Connection, User, Transfer, Queue}
use syncmaster.Prelude.{ℕ, Option, String, Bool, if◌then◌else◌, not, ◌==◌, ◌&&◌, ◌||◌}
use syncmaster.Transfers.{transfer_model}
use syncmaster.Connections.{connection_model}
use syncmaster.Transfers.Statements.{TransferValues}
use syncmaster.Access.{get_group_permission, get_resource_permission, delete, write, below, is_none}

-- `CreateTransferSchema`: the values of the row, the group and the types of the two parameters.
pub record TransferBody : Type 0 where
  pub group_id : ℕ
  pub source_type : ConnectionType
  pub target_type : ConnectionType
  pub values : TransferValues

-- The tests that `create_transfer` and `update_transfer` share, in their order.
unfoldable pub check_body : TransferBody → Connection → Connection → Queue → M Unit
check_body body target_connection source_connection queue = do
  raise_if
      (not (target_connection.group_id == source_connection.group_id)
        || not (target_connection.group_id == body.group_id)
        || not (source_connection.group_id == body.group_id))
      different_transfer_and_connections_groups
  raise_if (not (type_eq target_connection.type body.target_type))
      (different_type_connections_and_params target_connection.type body.target_type target)
  raise_if (not (type_eq source_connection.type body.source_type))
      (different_type_connections_and_params source_connection.type body.source_type source)
  raise_if (not (body.group_id == queue.group_id)) different_transfer_and_queue_group

unfoldable pub create_transfer : User → TransferBody → M Transfer
create_transfer current_user body = do
  group_permission ← get_group_permission current_user body.group_id
  raise_if (below group_permission write) action_not_allowed
  target_connection ← Connections.read_by_id body.values.target_connection_id
  source_connection ← Connections.read_by_id body.values.source_connection_id
  queue ← Queues.read_by_id body.values.queue_id
  check_body body target_connection source_connection queue
  unit_of_work (Transfers.create body.group_id body.values)

unfoldable pub read_transfer : User → ℕ → M Transfer
read_transfer current_user tid = do
  resource_role ← get_resource_permission transfer_model current_user tid
  raise_if (is_none resource_role) transfer_not_found
  Transfers.read_by_id tid

-- `CopyTransferSchema`
pub record CopyBody : Type 0 where
  pub new_group_id : ℕ
  pub new_queue_id : ℕ
  pub new_source_connection_name : Option String
  pub new_target_connection_name : Option String
  pub new_name : Option String
  pub remove_source : Bool

-- In the block of `copy_transfer`: a transfer from a connection to itself has its connection copied
-- once.
abbrev pub copy_target : Transfer → CopyBody → Connection → M Connection
copy_target transfer body source_copy =
    if not (transfer.source_connection_id == transfer.target_connection_id)
    then Connections.copy transfer.target_connection_id body.new_group_id
        body.new_target_connection_name
    else pure source_copy

-- The end of the block.
abbrev pub copy_between : ℕ → CopyBody → Connection → Connection → M Transfer
copy_between tid body source_copy target_copy = do
  copied_transfer ←
      Transfers.copy tid body.new_queue_id body.new_group_id source_copy.id target_copy.id
        body.new_name
  if body.remove_source then Transfers.delete tid else pure tt
  pure copied_transfer

unfoldable pub copy_all : ℕ → Transfer → CopyBody → M Transfer
copy_all tid transfer body = do
  source_copy ←
      Connections.copy transfer.source_connection_id body.new_group_id
        body.new_source_connection_name
  target_copy ← copy_target transfer body source_copy
  copy_between tid body source_copy target_copy

unfoldable pub copy_transfer : User → ℕ → CopyBody → M Transfer
copy_transfer current_user tid body = do
  resource_role ← get_resource_permission transfer_model current_user tid
  raise_if (is_none resource_role) transfer_not_found
  raise_if (body.remove_source && below resource_role delete) action_not_allowed
  target_group_role ← get_group_permission current_user body.new_group_id
  raise_if (below target_group_role write) action_not_allowed
  transfer ← Transfers.read_by_id tid
  source_connection_role ←
      get_resource_permission connection_model current_user transfer.source_connection_id
  raise_if (is_none source_connection_role) connection_not_found
  target_connection_role ←
      get_resource_permission connection_model current_user transfer.target_connection_id
  raise_if (is_none target_connection_role) connection_not_found
  new_queue ← Queues.read_by_id body.new_queue_id
  raise_if (not (new_queue.group_id == body.new_group_id)) different_transfer_and_queue_group
  unit_of_work (copy_all tid transfer body)

unfoldable pub update_transfer : User → ℕ → TransferBody → M Transfer
update_transfer current_user tid body = do
  resource_role ← get_resource_permission transfer_model current_user tid
  raise_if (is_none resource_role) transfer_not_found
  raise_if (below resource_role write) action_not_allowed
  target_connection ← Connections.read_by_id body.values.target_connection_id
  source_connection ← Connections.read_by_id body.values.source_connection_id
  queue ← Queues.read_by_id body.values.queue_id
  target_connection_resource_role ←
      get_resource_permission connection_model current_user target_connection.id
  source_connection_resource_role ←
      get_resource_permission connection_model current_user source_connection.id
  raise_if (is_none source_connection_resource_role || is_none target_connection_resource_role)
      connection_not_found
  check_body body target_connection source_connection queue
  unit_of_work (Transfers.update tid body.values)

unfoldable pub delete_transfer : User → ℕ → M Unit
delete_transfer current_user tid = do
  resource_role ← get_resource_permission transfer_model current_user tid
  raise_if (is_none resource_role) transfer_not_found
  raise_if (below resource_role delete) action_not_allowed
  unit_of_work (Transfers.delete tid)
