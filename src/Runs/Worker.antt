-- ===== src/Runs/Worker.antt =====
-- `run_transfer` of syncmaster/worker/transfer.py: its transactions on the run. What the task does
-- between them, `TransferController.perform_transfer`, is the environment's: it returns or raises.
use syncmaster.Session.{Result, ok, M, ◌>>◌, err, pure, ◌>>=◌, one, gets, or_fail}
use syncmaster.Credentials.{Fernet, Auth}
use syncmaster.{}
use syncmaster.Runs.{status_eq}
use syncmaster.Db.{Db, Run, run_key, transfer_key, auth_data_key}
use syncmaster.Errors.{Status, started, finished, created, failed, invalid_token}
use syncmaster.Prelude.{Bool, String, ℕ, Option, some, nat_eq, if◌then◌else◌, none, false}
use syncmaster.Prelude.Tables.{get, update as update_rows}

abbrev pub set_started : String → ℕ → Run → Run
set_started log_url now r = record r {
  status = started;
  started_at = some now;
  log_url = some log_url;
  updated_at = now;
}

-- `session.scalar(select(Run).where(Run.id == rid, Run.status == Status.CREATED))`
abbrev created_run : Option Run → Option Run
created_run none = none
created_run (some run) = if status_eq run.status created then some run else none

module _ (fernet : Fernet) (log_url : Run → String) where
  -- The credentials of a connection: the row, and then its value decrypted.
  unfoldable pub load_auth_data : ℕ → M Auth
  load_auth_data cid = do
    row ← one (← gets (λ db. get auth_data_key cid db.auth_data))
    or_fail invalid_token (fernet.decrypt row.value)

  abbrev start : ℕ → Option Run → M (Option Run)
  start rid none = pure none
  start rid (some run) = do
    transfer ← one (← gets (λ db. get transfer_key run.transfer_id db.transfers))
    load_auth_data transfer.source_connection_id
    load_auth_data transfer.target_connection_id
    λ db.
        let started_run = set_started (log_url run) db.now run in
        pure (some started_run)
          (record db { runs = update_rows run_key rid (set_started (log_url run) db.now) db.runs })

  -- The first transaction: nothing to do if there is no run with this key that is still `CREATED`.
  unfoldable pub claim : ℕ → M (Option Run)
  claim rid = do found ← gets (λ db. get run_key rid db.runs); start rid (created_run found)

abbrev pub set_ended : Status → ℕ → Run → Run
set_ended status now r = record r { status = status; ended_at = some now; updated_at = now }

-- The last transaction: `performed` says whether the transfer returned or raised.
unfoldable pub conclude : Bool → ℕ → Db → Db
conclude performed rid db = record db {
  runs =
      update_rows run_key rid (set_ended (if performed then finished else failed) db.now) db.runs;
}

-- How the first transaction ended: nothing to do, a run to perform, or an exception.
abbrev pub finish : (Run → Bool) → (Db → Db) → ℕ → Db → Result (Option Run) × Db → Db
finish perform between rid db (ok none, db1) = db1
finish perform between rid db (ok (some run), db1) = conclude (perform run) rid (between db1)
finish perform between rid db (err e, db1) = conclude false rid db

-- The whole task: `between` stands for the transactions of others while the transfer is performed.
-- The session of a first transaction that raised is closed without a commit.
unfoldable pub run_transfer : Fernet → (Run → String) → (Run → Bool) → (Db → Db) → ℕ → Db → Db
run_transfer fernet log_url perform between rid db =
    finish perform between rid db (claim fernet log_url rid db)
