-- ===== src/Runs/Lifecycle.antt =====
-- The life of a run: `stop_run` of syncmaster/server/api/v1/runs.py and `run_transfer` of
-- syncmaster/worker/transfer.py.
use Runs.{stopped}
use syncmaster.Access.States.{get_resource_permission_lem}
use syncmaster.Errors.{
  created, raised, transfer_not_found, action_not_allowed, send_stop_signal, run_not_found,
  cannot_stop_run, finished, failed, started,
}
use syncmaster.Session.{Result, unit_of_work, err, ok}
use syncmaster.Runs
use syncmaster.Prelude.{
  ℕ, String, ◌≡◌, if◌then◌else◌, some, false, none, Option-cases, nat_eq, inl, inr, arith, Bool,
  Option, refl, ◌||◌,
}
use syncmaster.Credentials.{Fernet}
use syncmaster.Db.{User, Run, Db, run_key, transfer_key}
use syncmaster.Runs.Api.{stop_run}
use syncmaster.Runs.Worker.{claim, set_started, run_transfer, load_auth_data, conclude, set_ended}
use syncmaster.Runs.{can_stop, set_status, status_eq}
use syncmaster.Prelude.Tables.{get, update, get-update}
use syncmaster.Access.{
  below, is_none, write, resource_policy, get_resource_permission_with, Permission,
}
use syncmaster.Transfers.{transfer_model}

-- The answer to a request to stop the run `r`, by the rights of the user on its transfer.
abbrev pub stop_outcome : Permission → ℕ → Run → Db → Result Run × Db
stop_outcome p rid r db =
    if is_none p
    then (err (raised transfer_not_found), db)
    else if below p write
    then (err (raised action_not_allowed), db)
    else if status_eq r.status created || status_eq r.status started
    then (
      ok (set_status send_stop_signal db.now r),
      record db { runs = update run_key rid (set_status send_stop_signal db.now) db.runs },
    )
    else (err (raised (cannot_stop_run rid r.status)), db)

module _ (u : User) (rid : ℕ) (db : Db) where
  -- A stop request answers by the right of the user on the transfer of the run, and then by the
  -- status: a run that was created or started gets the stop signal, any other is left alone, and so
  -- is everything when the request is refused. A run that does not exist is not found.
  pub stop_run_lem : stop_run u rid db ≡ elim (get run_key rid db.runs) [
    | none ↦ (err (raised run_not_found), db)
    | some r ↦
        stop_outcome
          (get_resource_permission_with transfer_model resource_policy u r.transfer_id db)
          rid
          r
          db
  ]
  unfolding stop_run Runs.stop Runs.read_by_id unit_of_work
  stop_run_lem = elim (Option-cases (get run_key rid db.runs)) [
    | inl missing ↦ rw missing (ground (arith, missing))
    | inr (r, found) ↦
        rw found
          (ground (arith, found, get_resource_permission_lem transfer_model u r.transfer_id db))
  ]

-- There is no run with this key that is still `CREATED`.
abbrev pub IsTaken : ℕ → Db → Type 0
IsTaken rid db = (r : Run) → get run_key rid db.runs ≡ some r → status_eq r.status created ≡ false

module _ (fernet : Fernet) (log_url : Run → String) (rid : ℕ) where
  claim-taken : (db : Db) → IsTaken rid db → claim fernet log_url rid db ≡ (ok none, db)
  unfolding claim
  claim-taken db h = elim (Option-cases (get run_key rid db.runs)) [
    | inl missing ↦ ground (arith, missing)
    | inr (r, found) ↦ ground (arith, found, h r found)
  ]

  -- A run that is not `CREATED` any more, or does not exist, is not executed: the task changes
  -- nothing.
  pub run_transfer-taken :
      (perform : Run → Bool) (between : Db → Db) (db : Db)
      → IsTaken rid db
      → run_transfer fernet log_url perform between rid db ≡ db
  unfolding run_transfer
  run_transfer-taken perform between db h = rw (claim-taken db h)

  load-state : (cid : ℕ) (db : Db) → (load_auth_data fernet log_url cid db).1 ≡ db
  unfolding load_auth_data
  load-state cid db = ground arith

  -- What the first transaction does to the run that it claims.
  claim-row :
      (db db' : Db) (r row : Run)
      → get run_key rid db.runs ≡ some row
      → claim fernet log_url rid db ≡ (ok (some r), db')
      → (row.status ≡ created)
        × (r ≡ set_started (log_url row) db.now row)
        × (db' ≡ record db { runs = update run_key rid (set_started (log_url row) db.now) db.runs })
  unfolding claim
  claim-row db db' r row found h =
      elim (Option-cases (get transfer_key row.transfer_id db.transfers)) [
        | inl missing ↦ absurd (ground (arith, missing, found))
        | inr (t, at_transfer) ↦ ground (
          arith,
          found,
          at_transfer,
          load-state t.source_connection_id db,
          load-state t.target_connection_id db,
        )
      ]

  claim-some :
      (db db' : Db) (r : Run)
      → claim fernet log_url rid db ≡ (ok (some r), db')
      → (row : Run) × (get run_key rid db.runs ≡ some row)
  unfolding claim
  claim-some db db' r h = elim (Option-cases (get run_key rid db.runs)) [
    | inl missing ↦ absurd (ground (arith, missing))
    | inr (row, found) ↦ (row, found)
  ]

  get-claimed :
      (db db' : Db) (r row : Run)
      → get run_key rid db.runs ≡ some row
      → claim fernet log_url rid db ≡ (ok (some r), db')
      → get run_key rid db'.runs ≡ some r
  get-claimed db db' r row found h =
      let (_, er, ed) = claim-row db db' r row found h in
      rw (er, ed)
        (ground (
          arith,
          found,
          get-update run_key rid rid (set_started (log_url row) db.now) db.runs (λ x. refl),
        ))

  -- After one task has claimed a run, a second task that looks for the same run finds nothing to do
  -- and changes nothing.
  pub claim_once :
      (db db' : Db) (r : Run)
      → claim fernet log_url rid db ≡ (ok (some r), db')
      → claim fernet log_url rid db' ≡ (ok none, db')
  claim_once db db' r h =
      let (row, found) = claim-some db db' r h in
      let (_, er, _) = claim-row db db' r row found h in
      let at_claimed = get-claimed db db' r row found h in
      claim-taken db' (λ s e. ground (arith, at_claimed, e, er))

  -- When a stop request for a run has returned, a task that starts for that run afterwards changes
  -- nothing.
  pub stopped_before_claim :
      (u : User) (db db' : Db) (r : Run) (perform : Run → Bool) (between : Db → Db)
      → stop_run u rid db ≡ (ok r, db')
      → run_transfer fernet log_url perform between rid db' ≡ db'
  stopped_before_claim u db db' r perform between h =
      run_transfer-taken perform between db' (stopped (get run_key rid db.runs) refl)
    where
      stopped : (o : Option Run) → get run_key rid db.runs ≡ o → IsTaken rid db'
      stopped none e = absurd (ground (arith, e, stop_run_lem u rid db))
      stopped (some s) e = λ x f. ground (
        arith,
        e,
        f,
        stop_run_lem u rid db,
        get-update run_key rid rid (set_status send_stop_signal db.now) db.runs (λ x. refl),
      )

  -- The end of a run that a task claimed: `FINISHED` if the transfer was performed and `FAILED` if
  -- it raised, whatever others did to the row meanwhile, a stop request included, as long as they
  -- did not delete it.
  pub run_transfer-concludes :
      (perform : Run → Bool) (between : Db → Db) (db db' : Db) (r s : Run)
      → claim fernet log_url rid db ≡ (ok (some r), db')
      → get run_key rid (between db').runs ≡ some s
      → get run_key rid (run_transfer fernet log_url perform between rid db).runs
        ≡ some (set_ended (if perform r then finished else failed) (between db').now s)
  unfolding run_transfer conclude
  run_transfer-concludes perform between db db' r s h kept = rw h (
      ground (
        arith,
        kept,
        get-update run_key rid rid
            (set_ended (if perform r then finished else failed) (between db').now)
            (between db').runs (λ x. refl),
      ))
