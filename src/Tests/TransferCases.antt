-- ===== src/Tests/TransferCases.antt =====
-- Transfers and queues on the sample.
use syncmaster.Queues.Deletion.{delete_queue-transfers}
use syncmaster.Transfers.Regroup.{update_transfer-IsConsistent}
use syncmaster.Transfers.Consistency.{IsConsistent, create_transfer-IsConsistent}
use syncmaster.Db.Json.{null}
use syncmaster.Queues.Api.{delete_queue}
use syncmaster.Errors.{postgres, hive}
use syncmaster.Transfers.Statements.{TransferValues, set_transfer, new_transfer, copied}
use syncmaster.Db.{Db, queue_key, Transfer}
use syncmaster.Prelude.Tables.{get}
use syncmaster.Transfers.Api.{
  TransferBody, create_transfer, update_transfer, CopyBody, copy_transfer,
}
use syncmaster.Prelude.{
  ℕ, ◌∷◌, ◌≡◌, [], false, keep, refl, ◌↔◌, not, ◌++◌, ◌==◌, none, ◌&&◌, nat_eq, arith, some, true,
}
use syncmaster.Transfers.Copying.{Fresh, copy_transfer-IsConsistent}
use syncmaster.Tests.Sample.{bob, root, sample, transfer, queue}

-- A body for a transfer of group `gid` from connection `source_id` to connection `target_id`.
abbrev values : ℕ → ℕ → ℕ → TransferValues
values source_id target_id qid = record {
  name = "new";
  description = "";
  source_connection_id = source_id;
  target_connection_id = target_id;
  strategy_params = null;
  source_params = null;
  target_params = null;
  transformations = null;
  resources = null;
  is_scheduled = false;
  schedule = "";
  queue_id = qid;
}

abbrev in_team : TransferBody
in_team = record { group_id = 1; source_type = postgres; target_type = hive; values = values 1 2 1 }

abbrev in_lab : TransferBody
in_lab = record { group_id = 2; source_type = postgres; target_type = hive; values = values 3 4 2 }

create_transfer-IsConsistent_example :
    let db' = (create_transfer bob in_team sample).1 in
    let t = new_transfer 1 (values 1 2 1) 3 10 in
    IsConsistent db' t × (t.group_id ≡ 1) × (db'.transfers ≡ sample.transfers ++ t ∷ [])
unfolding get create_transfer syncmaster.Access.get_group_permission
    syncmaster.Connections.read_by_id syncmaster.Queues.read_by_id
    syncmaster.Transfers.Api.check_body syncmaster.Session.unit_of_work syncmaster.Transfers.create
    syncmaster.Transfers.Statements.insert_transfer
create_transfer-IsConsistent_example =
    create_transfer-IsConsistent bob in_team sample (create_transfer bob in_team sample).1
      (new_transfer 1 (values 1 2 1) 3 10) refl

-- A superuser moves transfer 1 of group 1 to the connections and the queue of group 2.
update_transfer-IsConsistent_example :
    let db' = (update_transfer root 1 in_lab sample).1 in
    let t = set_transfer (values 3 4 2) 10 (transfer 1 1 1 2 1) in
    (t.group_id ≡ 1) × (IsConsistent db' t ↔ (in_lab.group_id ≡ 1))
unfolding get update_transfer syncmaster.Access.get_resource_permission
    syncmaster.Connections.read_by_id syncmaster.Queues.read_by_id
    syncmaster.Transfers.Api.check_body syncmaster.Session.unit_of_work syncmaster.Transfers.update
    syncmaster.Transfers.Statements.update_transfer_row syncmaster.Prelude.Tables.update
update_transfer-IsConsistent_example =
    update_transfer-IsConsistent root 1 in_lab sample (update_transfer root 1 in_lab sample).1
      (set_transfer (values 3 4 2) 10 (transfer 1 1 1 2 1)) (transfer 1 1 1 2 1) refl refl

-- The sample after that update: queue 2 of group 2 is used by the transfer of group 1 too, and once
-- its own transfer is gone, the queue can be deleted.
abbrev across : Db
across = record sample { transfers = transfer 1 1 3 4 2 ∷ [] }

delete_queue-transfers_example :
    ((delete_queue (λ ts. ts) root 2 across).1.transfers
      ≡ keep (λ t. not (t.queue_id == 2)) across.transfers)
    × (get queue_key 2 (delete_queue (λ ts. ts) root 2 across).1.queues ≡ none)
    × (keep (λ (t : Transfer). t.group_id == 2 && t.queue_id == 2) across.transfers ≡ [])
unfolding get delete_queue syncmaster.Queues.get_resource_permission
    syncmaster.Access.get_resource_permission_with syncmaster.Queues.read_by_id
    syncmaster.Transfers.paginate syncmaster.Pagination.paginate
    syncmaster.Transfers.select_transfers syncmaster.Session.unit_of_work syncmaster.Queues.delete
    syncmaster.Queues.Statements.delete_queue_row
delete_queue-transfers_example =
    delete_queue-transfers (λ ts. ts) (λ ts. refl) root 2 across (queue 2 2) refl refl

-- The transfer of group 1 is gone.
deleted_across : (delete_queue (λ ts. ts) root 2 across).1.transfers ≡ []
unfolding get delete_queue syncmaster.Queues.get_resource_permission
    syncmaster.Access.get_resource_permission_with syncmaster.Queues.read_by_id
    syncmaster.Transfers.paginate syncmaster.Pagination.paginate
    syncmaster.Transfers.select_transfers syncmaster.Session.unit_of_work syncmaster.Queues.delete
    syncmaster.Queues.Statements.delete_queue_row syncmaster.Db.Cascade.delete_queues
deleted_across = refl

-- A superuser copies transfer 1 into group 2, with new names for the connections.
abbrev copy_body : CopyBody
copy_body = record {
  new_group_id = 2;
  new_queue_id = 2;
  new_source_connection_name = some "c";
  new_target_connection_name = some "d";
  new_name = some "again";
  remove_source = true;
}

abbrev copied_transfer : Transfer
copied_transfer = copied (transfer 1 1 1 2 1) 2 2 5 6 (some "again") 3

fresh : Fresh sample
unfolding get
fresh k le = ground arith

copy_transfer-IsConsistent_example :
    IsConsistent (copy_transfer root 1 copy_body sample).1 copied_transfer
    × (copied_transfer.group_id ≡ 2)
unfolding get copy_transfer syncmaster.Access.get_resource_permission
    syncmaster.Access.get_group_permission syncmaster.Transfers.read_by_id
    syncmaster.Queues.read_by_id syncmaster.Session.unit_of_work syncmaster.Transfers.Api.copy_all
    syncmaster.Connections.copy syncmaster.Connections.Statements.insert_connection
    syncmaster.Transfers.copy syncmaster.Transfers.Statements.copy_transfer_row
    syncmaster.Transfers.delete syncmaster.Transfers.Statements.delete_transfer_row
copy_transfer-IsConsistent_example =
    copy_transfer-IsConsistent root 1 copy_body sample (copy_transfer root 1 copy_body sample).1
      copied_transfer fresh refl
