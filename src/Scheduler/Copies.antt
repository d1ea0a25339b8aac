-- ===== src/Scheduler/Copies.antt =====
-- Copied transfers and the fetcher of syncmaster/scheduler/transfer_fetcher.py.
use syncmaster.Scheduler.Sync.{
  update_jobs-get, Distinct-fetch, round-jobs, fetch-get, remove_orphan_jobs-get,
}
use syncmaster.Scheduler.{Job, job_key, round, fetch_updated_jobs, remove_orphan_jobs}
use syncmaster.Session.{ok}
use syncmaster.Prelude.{ℕ, Option, String, ◌≡◌, some, ◌++◌, ◌∷◌, [], arith, nat_eq, List, none, ◌≤◌}
use syncmaster.Transfers
use syncmaster.Transfers.Statements.{copy_transfer_row, copied}
use syncmaster.Db.{Transfer, Db, transfer_key}
use syncmaster.Prelude.Tables.{get, Distinct, get-append, Distinct-append}

module _ (tid qid gid source_id target_id : ℕ) (name : Option String) (db db' : Db)
    (t origin : Transfer) (found : get transfer_key tid db.transfers ≡ some origin) where
  copy-ok :
      Transfers.copy tid qid gid source_id target_id name db ≡ (ok t, db')
      → (t ≡ copied origin qid gid source_id target_id name db.seq.transfer)
        × (db'.transfers ≡ db.transfers ++ t ∷ [])
  unfolding Transfers.copy copy_transfer_row
  copy-ok h = ground (arith, found)

  module _ {Trigger : Type 0} (from_crontab : String → Option Trigger) where
    -- A copied transfer is as scheduled as its origin, but it keeps the origin's time stamp: if the
    -- scheduler had seen the origin, the next round that raises nothing gives the copy no job, with
    -- distinct keys and a new key that no row and no job has.
    pub copy-unscheduled :
        (m : ℕ) (last' : Option ℕ) (jobs jobs' : List (Job Trigger))
        → Transfers.copy tid qid gid source_id target_id name db ≡ (ok t, db')
        → get transfer_key db.seq.transfer db.transfers ≡ none
        → Distinct transfer_key db.transfers
        → origin.updated_at ≤ m
        → get job_key db.seq.transfer jobs ≡ none
        → round from_crontab db' (some m) jobs ≡ (ok last', jobs')
        → (get transfer_key t.id db'.transfers ≡ some t)
          × (t.is_scheduled ≡ origin.is_scheduled)
          × (get job_key t.id jobs' ≡ none)
    copy-unscheduled m last' jobs jobs' h fresh d seen no_job r =
        let (made, rows) = copy-ok h in
        let at_copy : get transfer_key t.id db'.transfers ≡ some t =
          rw (rows, made)
            (ground (arith, fresh, get-append transfer_key db.seq.transfer db.transfers t)) in
        let d' : Distinct transfer_key db'.transfers =
          rw (rows, made)
            (Distinct-append transfer_key db.transfers
              (copied origin qid gid source_id target_id name db.seq.transfer) d fresh) in
        let jobs_of =
          update_jobs-get from_crontab t.id (fetch_updated_jobs (some m) db')
            (remove_orphan_jobs from_crontab db' jobs) jobs'
            (Distinct-fetch from_crontab (some m) db' d')
            (round-jobs from_crontab db' (some m) last' jobs jobs' r) in
        let not_fetched = fetch-get from_crontab (some m) db' t.id t d' at_copy in
        let kept = remove_orphan_jobs-get from_crontab db' t.id jobs in
        let id_made : t.id ≡ db.seq.transfer = rw made in
        let old_made : t.updated_at ≡ origin.updated_at = rw made in
        (at_copy, rw made, ground (arith, jobs_of, not_fetched, kept))
