-- ===== src/Tests/SchedulerCases.antt =====
-- Rounds of the scheduler on the sample, with a parser that keeps the text of the schedule.
use syncmaster.Scheduler.Copies.{copy-unscheduled}
use syncmaster.Db.Json.{null}
use syncmaster.Scheduler.Updates.{written-InStep}
use syncmaster.Transfers.Statements.{TransferValues, new_transfer, copied}
use syncmaster.Db.{transfer_key, Transfer, Db}
use syncmaster.Session.{ok}
use syncmaster.Prelude.{
  List, String, none, some, ℕ, ◌≡◌, arith, ◌∷◌, Option, [], nat_eq, refl, true, inl,
}
use syncmaster.Transfers
use syncmaster.Scheduler.{Job, job_key, round}
use syncmaster.Scheduler.Sync.{InStep, job_of, round-synchronizes}
use syncmaster.Prelude.Tables.{get}
use syncmaster.Tests.Sample.{sample, transfer}

abbrev from_crontab : String → Option String
from_crontab schedule = some schedule

-- A job of a transfer that is gone, and the job of transfer 1.
abbrev old_jobs : List (Job String)
old_jobs = record { id = 9; trigger = "x" } ∷ record { id = 1; trigger = "x" } ∷ []

abbrev jobs_after : List (Job String)
jobs_after =
    record { id = 1; trigger = "0 0 * * *" } ∷ record { id = 2; trigger = "0 0 * * *" } ∷ []

-- The first round takes every transfer.
first_round : round from_crontab sample none old_jobs ≡ (ok (some 6), jobs_after)
unfolding get round syncmaster.Scheduler.update_jobs syncmaster.Scheduler.fetch_updated_jobs
    syncmaster.Scheduler.update_job syncmaster.Scheduler.remove_orphan_jobs
    syncmaster.Prelude.Tables.update
first_round = refl

in_step : InStep from_crontab (some 6) sample jobs_after
unfolding get
in_step k t found old = ground arith

round-synchronizes_example :
    get job_key 1 jobs_after
    ≡ (elim (get transfer_key 1 sample.transfers) [ none ↦ none | some t ↦ job_of from_crontab t ])
unfolding get
round-synchronizes_example =
    round-synchronizes from_crontab sample none (some 6) old_jobs jobs_after (refl, (refl, tt))
      (λ k t found old. absurd (ground arith)) first_round 1

abbrev values : TransferValues
values = record {
  name = "new";
  description = "";
  source_connection_id = 1;
  target_connection_id = 2;
  strategy_params = null;
  source_params = null;
  target_params = null;
  transformations = null;
  resources = null;
  is_scheduled = true;
  schedule = "0 0 * * *";
  queue_id = 1;
}

created_row :
    Transfers.create 1 values sample
    ≡ (ok (new_transfer 1 values 3 10), (Transfers.create 1 values sample).1)
unfolding get Transfers.create syncmaster.Transfers.Statements.insert_transfer
created_row = refl

written-InStep_example :
    InStep from_crontab (some 6) (Transfers.create 1 values sample).1 jobs_after
written-InStep_example =
    written-InStep from_crontab values 6 jobs_after sample (Transfers.create 1 values sample).1
      (new_transfer 1 values 3 10) (omega arith) in_step 1 (inl created_row)

-- Transfer 1 is copied into group 2, on its connections and its queue.
abbrev copied_transfer : Transfer
copied_transfer = copied (transfer 1 1 1 2 1) 2 2 3 4 (some "again") 3

abbrev after_copy : Db
after_copy = (Transfers.copy 1 2 2 3 4 (some "again") sample).1

copy-unscheduled_example :
    (get transfer_key copied_transfer.id after_copy.transfers ≡ some copied_transfer)
    × (copied_transfer.is_scheduled ≡ true)
    × (get job_key copied_transfer.id jobs_after ≡ none)
unfolding get Transfers.copy syncmaster.Transfers.Statements.copy_transfer_row round
    syncmaster.Scheduler.update_jobs syncmaster.Scheduler.fetch_updated_jobs
    syncmaster.Scheduler.remove_orphan_jobs
copy-unscheduled_example =
    copy-unscheduled 1 2 2 3 4 (some "again") sample after_copy copied_transfer (transfer 1 1 1 2 1)
      refl from_crontab 6 (some 6) jobs_after jobs_after refl refl (refl, (refl, tt)) (omega arith)
      refl refl
