-- ===== src/Scheduler/Updates.antt =====
-- Created and updated transfers (syncmaster/db/repositories/transfer.py), and the fetcher of
-- syncmaster/scheduler/transfer_fetcher.py.
use syncmaster.Session.{ok}
use syncmaster.Prelude.{
  String, Option, ℕ, List, ◌<◌, some, ◌≡◌, arith, ◌++◌, nat_eq, ◌∷◌, refl, [], ◌⊎◌, inl, inr,
}
use syncmaster.Transfers
use syncmaster.Transfers.Statements.{
  TransferValues, insert_transfer, update_transfer_row, set_transfer,
}
use syncmaster.Db.{Transfer, Db, transfer_key}
use syncmaster.Scheduler.{Job}
use syncmaster.Scheduler.Sync.{InStep}
use syncmaster.Prelude.Tables.{get-append, get-update, update}

module _ {Trigger : Type 0} (from_crontab : String → Option Trigger) (v : TransferValues) (m : ℕ)
    (jobs : List (Job Trigger)) (db db' : Db) (t : Transfer) (later : m < db.now)
    (step : InStep from_crontab (some m) db jobs) where
  create-rows :
      (gid : ℕ)
      → Transfers.create gid v db ≡ (ok t, db')
      → (db'.transfers ≡ db.transfers ++ t ∷ []) × (t.updated_at ≡ db.now)
  unfolding Transfers.create insert_transfer
  create-rows gid h = ground arith

  update-rows :
      (tid : ℕ)
      → Transfers.update tid v db ≡ (ok t, db')
      → db'.transfers ≡ update transfer_key tid (set_transfer v db.now) db.transfers
  unfolding Transfers.update update_transfer_row
  update-rows tid h = ground arith

  create-InStep :
      (gid : ℕ) → Transfers.create gid v db ≡ (ok t, db') → InStep from_crontab (some m) db' jobs
  create-InStep gid h k s found old =
      let (rows, stamp) = create-rows gid h in
      let found' = rw rows at found in
      ground (arith, get-append transfer_key k db.transfers t, step k s)

  update-InStep :
      (tid : ℕ) → Transfers.update tid v db ≡ (ok t, db') → InStep from_crontab (some m) db' jobs
  update-InStep tid h k s found old =
      let rows = update-rows tid h in
      let found' = rw rows at found in
      ground (
        arith,
        get-update transfer_key tid k (set_transfer v db.now) db.transfers (λ r. refl),
        step k s,
      )

  -- What is created or updated after the last round is not missed by the next: with a clock that is
  -- past the time of the last round, a create or an update leaves the jobs in agreement with the
  -- transfers that were not updated since then, as they were before.
  pub written-InStep :
      (k : ℕ)
      → (Transfers.create k v db ≡ (ok t, db')) ⊎ (Transfers.update k v db ≡ (ok t, db'))
      → InStep from_crontab (some m) db' jobs
  written-InStep gid (inl h) = create-InStep gid h
  written-InStep tid (inr h) = update-InStep tid h
