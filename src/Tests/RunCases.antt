-- ===== src/Tests/RunCases.antt =====
-- Runs on the sample: run 1 was created, run 2 started, run 3 finished.
use syncmaster.Transfers.{transfer_model}
use syncmaster.Access.{get_resource_permission_with, resource_policy}
use syncmaster.Runs.Lifecycle.{
  stopped_before_claim, claim_once, run_transfer-concludes, stop_outcome, stop_run_lem,
}
use syncmaster.Errors.{raised, send_stop_signal, finished, created, run_not_found, cannot_stop_run}
use syncmaster.Session.{err, ok}
use syncmaster.Runs.{set_status}
use syncmaster.Runs.Worker.{claim, run_transfer, set_started, set_ended}
use syncmaster.Prelude.{String, some, ◌≡◌, true, none, refl, nat_eq}
use syncmaster.Runs.Api.{stop_run}
use syncmaster.Prelude.Tables.{get}
use syncmaster.Db.{Db, Run, run_key}
use syncmaster.Credentials.{Fernet}
use syncmaster.Prelude.Tables.{update}
use syncmaster.Tests.Sample.{bob, root, sample, login, run}

abbrev fernet : Fernet
fernet = record { encrypt = λ now a. "token"; decrypt = λ token. some login }

abbrev log_url : Run → String
log_url r = "log"

-- The sample after a task claimed run 1, and after a stop request for it.
abbrev claimed : Db
claimed = record sample { runs = update run_key 1 (set_started "log" 10) sample.runs }

abbrev stopped : Db
stopped = record sample { runs = update run_key 1 (set_status send_stop_signal 10) sample.runs }

claim_once_example : claim fernet log_url 1 claimed ≡ (ok none, claimed)
unfolding get claim syncmaster.Runs.Worker.load_auth_data
claim_once_example =
    claim_once fernet log_url 1 sample claimed (set_started "log" 10 (run 1 1 created)) refl

stopped_before_claim_example :
    run_transfer fernet log_url (λ r. true) (λ db. db) 1 stopped ≡ stopped
unfolding get stop_run syncmaster.Runs.read_by_id syncmaster.Access.get_resource_permission
    syncmaster.Session.unit_of_work syncmaster.Runs.stop
stopped_before_claim_example =
    stopped_before_claim fernet log_url 1 bob sample stopped
      (set_status send_stop_signal 10 (run 1 1 created)) (λ r. true) (λ db. db) refl

stop_run_lem_example : stop_run bob 3 sample ≡ elim (get run_key 3 sample.runs) [
  | none ↦ (err (raised run_not_found), sample)
  | some r ↦
      stop_outcome
        (get_resource_permission_with transfer_model resource_policy bob r.transfer_id sample)
        3
        r
        sample
]
stop_run_lem_example = stop_run_lem bob 3 sample

run_transfer-concludes_example :
    get run_key 1 (run_transfer fernet log_url (λ r. true) (λ db. db) 1 sample).runs
    ≡ some (set_ended finished 10 (set_started "log" 10 (run 1 1 created)))
unfolding get claim syncmaster.Runs.Worker.load_auth_data update
run_transfer-concludes_example =
    run_transfer-concludes fernet log_url 1 (λ r. true) (λ db. db) sample claimed
      (set_started "log" 10 (run 1 1 created)) (set_started "log" 10 (run 1 1 created)) refl refl

-- A finished run is not stopped.
stop_finished : stop_run root 3 sample ≡ (err (raised (cannot_stop_run 3 finished)), sample)
unfolding get stop_run syncmaster.Runs.read_by_id syncmaster.Access.get_resource_permission
    syncmaster.Session.unit_of_work syncmaster.Runs.stop
stop_finished = refl
