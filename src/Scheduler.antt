-- ===== src/Scheduler.antt =====
-- The scheduler: the fetcher of syncmaster/scheduler/transfer_fetcher.py, the jobs of
-- syncmaster/scheduler/transfer_job_manager.py, and one round of the loop of
-- syncmaster/scheduler/__main__.py.
pub mod Sync
pub mod Copies
pub mod Updates
use syncmaster.Runs.Api.{not_sent}
use syncmaster.Errors.{value_error, raised, transfer_not_found}
use syncmaster.Prelude.{
  List, Option, String, ℕ, Bool, ◌∷◌, keep, if◌then◌else◌, some, ltb, is_empty, is_some, not, true,
  [], ◌++◌, none, nat_eq,
}
use syncmaster.Credentials.{Fernet, read_schema}
use syncmaster.Transfers
use syncmaster.Credentials
use syncmaster.Runs
use syncmaster.Db.{Transfer, Db, Queue, queue_key, transfer_key, scheduled}
use syncmaster.Session.{Result, ok, err, M, ◌>>◌, ◌>>=◌, one, gets, unit_of_work, pure}
use syncmaster.Prelude.Tables.{get, update, delete}

-- A job of the job store, by the number of its transfer; every job calls `send_job_to_celery`.
pub record Job (Trigger : Type 0) : Type 0 where
  pub id : ℕ
  pub trigger : Trigger

abbrev pub job_key : {Trigger : Type 0} → Job Trigger → ℕ
job_key j = j.id

-- `Transfer.updated_at > self.last_updated_at`, if there is a last time.
abbrev pub newer : Option ℕ → Transfer → Bool
newer none t = true
newer (some last) t = ltb last t.updated_at

unfoldable pub fetch_updated_jobs : Option ℕ → Db → List Transfer
fetch_updated_jobs last db = keep (newer last) db.transfers

-- `max(t.updated_at for t in transfers)`
abbrev pub latest : List Transfer → ℕ
latest [] = 0
latest (t ∷ ts) = let rest = latest ts in if ltb rest t.updated_at then t.updated_at else rest

-- The parser of schedules is a library's: it gives a trigger, or raises `ValueError`.
module _ {Trigger : Type 0} (from_crontab : String → Option Trigger) where
  -- The job of a transfer that is scheduled, with a trigger that was parsed: `modify_job` or
  -- `add_job`.
  abbrev pub put_job : ℕ → Option Trigger → List (Job Trigger) → Result Unit × List (Job Trigger)
  put_job tid none jobs = (err value_error, jobs)
  put_job tid (some trigger) jobs =
      if is_some (get job_key tid jobs)
      then (ok tt, update job_key tid (λ j. record j { trigger = trigger }) jobs)
      else (ok tt, jobs ++ record { id = tid; trigger = trigger } ∷ [])

  -- One round of the loop of `update_jobs`.
  unfoldable pub update_job : Transfer → List (Job Trigger) → Result Unit × List (Job Trigger)
  update_job t jobs =
      if not t.is_scheduled
      then (ok tt, if is_some (get job_key t.id jobs) then delete job_key t.id jobs else jobs)
      else put_job t.id (from_crontab t.schedule) jobs

  -- An exception leaves the jobs as they are by then.
  unfoldable pub update_jobs : List Transfer → List (Job Trigger) → Result Unit × List (Job Trigger)
  update_jobs [] jobs = (ok tt, jobs)
  update_jobs (t ∷ ts) jobs =
      let (r, jobs') = update_job t jobs in
      elim r [ ok _ ↦ update_jobs ts jobs' | err e ↦ (err e, jobs') ]

  -- The jobs whose transfer is gone are removed.
  unfoldable pub remove_orphan_jobs : Db → List (Job Trigger) → List (Job Trigger)
  remove_orphan_jobs db jobs = keep (λ j. is_some (get transfer_key j.id db.transfers)) jobs

  -- The end of a round: the time stamp moves on if there was an update.
  abbrev advance :
      Option ℕ
      → List Transfer
      → Result Unit × List (Job Trigger)
      → Result (Option ℕ) × List (Job Trigger)
  advance last transfers (ok _, jobs) =
      (ok (if is_empty transfers then last else some (latest transfers)), jobs)
  advance last transfers (err e, jobs) = (err e, jobs)

  -- One round of the loop of the main module, on one state of the database.
  unfoldable pub round : Db → Option ℕ → List (Job Trigger) → Result (Option ℕ) × List (Job Trigger)
  round db last jobs =
      let transfers = fetch_updated_jobs last db in
      advance last transfers (update_jobs transfers (remove_orphan_jobs db jobs))

-- `send_job_to_celery`, after the transfer was read.
module _ (fernet : Fernet) (sent : ℕ → List ℕ → Bool) where
  abbrev send_run : ℕ → Transfer → M Unit
  send_run tid transfer = do
    queue ← one (← gets (λ db. get queue_key transfer.queue_id db.queues))
    credentials_source ← Credentials.read fernet transfer.source_connection_id
    credentials_target ← Credentials.read fernet transfer.target_connection_id
    run ← unit_of_work (
        Runs.create tid (read_schema credentials_source) (read_schema credentials_target) scheduled)
    if sent run.id queue.slug then pure tt else (not_sent run.id >> pure tt)

  -- `except TransferNotFoundError: return`
  abbrev send_found : ℕ → Result Transfer × Db → Result Unit × Db
  send_found tid (ok transfer, db) = send_run tid transfer db
  send_found tid (err (raised transfer_not_found), db) = (ok tt, db)
  send_found tid (err e, db) = (err e, db)

  unfoldable pub send_job_to_celery : ℕ → M Unit
  send_job_to_celery tid db = send_found tid (Transfers.read_by_id tid db)
