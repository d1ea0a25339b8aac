-- ===== src/Queues/Api.antt =====
-- The handlers of syncmaster/server/api/v1/queue.py.
use syncmaster.Transfers.{no_filter}
use syncmaster.Transfers
use syncmaster.Errors.{group_not_found, queue_not_found, action_not_allowed, queue_delete}
use syncmaster.Queues
use syncmaster.Session.{M, ◌>>=◌, ◌>>◌, raise_if, unit_of_work}
use syncmaster.Prelude.{List, ℕ, String, some, not, is_empty}
use syncmaster.Db.{User, Transfer, Queue}
use syncmaster.Queues.{QueueData}
use syncmaster.Access.{delete, below, is_none}

unfoldable pub read_queue : User → ℕ → M Queue
read_queue current_user qid = do
  resource_role ← Queues.get_resource_permission current_user qid
  raise_if (is_none resource_role) queue_not_found
  Queues.read_by_id qid

unfoldable pub create_queue : User → QueueData → M Queue
create_queue current_user queue_data = do
  group_permission ← Queues.get_group_permission current_user queue_data.group_id
  raise_if (is_none group_permission) group_not_found
  raise_if (below group_permission delete) action_not_allowed
  unit_of_work (Queues.create queue_data)

unfoldable pub update_queue : User → ℕ → String → String → M Queue
update_queue current_user qid name description = do
  resource_role ← Queues.get_resource_permission current_user qid
  raise_if (is_none resource_role) queue_not_found
  raise_if (below resource_role delete) action_not_allowed
  unit_of_work (Queues.update qid name description)

-- A queue with transfers is not deleted; the error names their number.
unfoldable pub delete_queue : (List Transfer → List Transfer) → User → ℕ → M Unit
delete_queue order current_user qid = do
  resource_role ← Queues.get_resource_permission current_user qid
  raise_if (is_none resource_role) queue_not_found
  raise_if (below resource_role delete) action_not_allowed
  queue ← Queues.read_by_id qid
  transfers ←
      Transfers.paginate order 1 1 queue.group_id (record no_filter { queue_id = some queue.id })
  raise_if (not (is_empty transfers.items)) (queue_delete transfers.total)
  unit_of_work (Queues.delete qid)
