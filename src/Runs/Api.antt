-- ===== src/Runs/Api.antt =====
-- The handlers of syncmaster/server/api/v1/runs.py.
use syncmaster.{}
use syncmaster.Queues
use syncmaster.Queues
use syncmaster.Transfers
use syncmaster.Errors.{failed, transfer_not_found, action_not_allowed, cannot_connect_to_task_queue}
use syncmaster.Runs
use syncmaster.Session.{M, ◌>>◌, ◌>>=◌, unit_of_work, raise_if, raise, pure}
use syncmaster.Prelude.{ℕ, List, Bool, if◌then◌else◌}
use syncmaster.Db.{User, Run, manual}
use syncmaster.Credentials.{Fernet, read_schema}
use syncmaster.Credentials
use syncmaster.Transfers.{transfer_model}
use syncmaster.Access.{get_resource_permission, write, below, is_none}

unfoldable pub read_run : User → ℕ → M Run
read_run current_user rid = do
  run ← Runs.read_by_id rid
  resource_role ← get_resource_permission transfer_model current_user run.transfer_id
  raise_if (is_none resource_role) transfer_not_found
  pure run

-- `except KombuError`: the run failed, and so does the request.
unfoldable pub not_sent : ℕ → M Run
not_sent rid = do
  run ← unit_of_work (Runs.update rid failed)
  raise (cannot_connect_to_task_queue run.id)

-- The task queue is not modelled: `sent rid slug` says whether `celery.send_task` went through.
module _ (fernet : Fernet) (sent : ℕ → List ℕ → Bool) where
  unfoldable pub start_run : User → ℕ → M Run
  start_run current_user tid = do
    resource_rule ← get_resource_permission transfer_model current_user tid
    raise_if (is_none resource_rule) transfer_not_found
    raise_if (below resource_rule write) action_not_allowed
    transfer ← Transfers.read_by_id tid
    queue ← Queues.read_by_id transfer.queue_id
    credentials_source ← Credentials.read fernet transfer.source_connection_id
    credentials_target ← Credentials.read fernet transfer.target_connection_id
    run ←
        unit_of_work
          (Runs.create tid (read_schema credentials_source) (read_schema credentials_target) manual)
    if sent run.id queue.slug then pure run else not_sent run.id

unfoldable pub stop_run : User → ℕ → M Run
stop_run current_user rid = do
  run ← Runs.read_by_id rid
  resource_rule ← get_resource_permission transfer_model current_user run.transfer_id
  raise_if (is_none resource_rule) transfer_not_found
  raise_if (below resource_rule write) action_not_allowed
  unit_of_work (Runs.stop rid)
