-- ===== src/Transfers/Statements.antt =====
-- The statements on the table transfer (syncmaster/db/models/transfer.py), with its constraints.
use syncmaster.Errors.{
  fk__transfer__group_id__group, fk__transfer__source_connection_id__connection,
  fk__transfer__target_connection_id__connection, fk__transfer__queue_id__queue,
  uq__transfer__name_group_id,
}
use syncmaster.Db.Cascade.{delete_transfers}
use syncmaster.Repository.{or_origin}
use syncmaster.Db.Json.{Json}
use syncmaster.Db.{Transfer, transfer_key, group_key, connection_key, queue_key}
use syncmaster.Session.{M, ok, one, violates, ◌>>=◌, gets, pure}
use syncmaster.Prelude.Tables.{get, update}
use syncmaster.Prelude.{
  nat_eq, ℕ, String, List, Option, if◌then◌else◌, Bool, not, ◌+◌, is_some, any, str_eq, ◌==◌, ◌&&◌,
  ◌++◌, ◌∷◌, [],
}

-- The values of an insert or an update; `schedule` is `schedule or ""` already.
pub record TransferValues : Type 0 where
  pub name : String
  pub description : String
  pub source_connection_id : ℕ
  pub target_connection_id : ℕ
  pub strategy_params : Json
  pub source_params : Json
  pub target_params : Json
  pub transformations : Json
  pub resources : Json
  pub is_scheduled : Bool
  pub schedule : String
  pub queue_id : ℕ

abbrev next_transfer : M ℕ
next_transfer db =
    (ok db.seq.transfer, record db { seq = record db.seq { transfer = db.seq.transfer + 1 } })

abbrev pub transfer_name_taken : String → ℕ → List Transfer → Bool
transfer_name_taken name gid ts = any (λ t. str_eq t.name name && t.group_id == gid) ts

-- The checks of the foreign keys, in the order of the columns.
abbrev foreign_keys : ℕ → ℕ → ℕ → ℕ → {A : Type 0} → M A → M A
foreign_keys gid source_id target_id qid m db =
    if not (is_some (get group_key gid db.groups))
    then violates fk__transfer__group_id__group db
    else if not (is_some (get connection_key source_id db.connections))
    then violates fk__transfer__source_connection_id__connection db
    else if not (is_some (get connection_key target_id db.connections))
    then violates fk__transfer__target_connection_id__connection db
    else if not (is_some (get queue_key qid db.queues))
    then violates fk__transfer__queue_id__queue db
    else m db

-- Inserts a row with the next key.
abbrev insert_row : (ℕ → ℕ → Transfer) → M Transfer
insert_row make = do
  tid ← next_transfer
  λ db.
      let new = make tid db.now in
      if transfer_name_taken new.name new.group_id db.transfers
      then violates uq__transfer__name_group_id db
      else foreign_keys new.group_id new.source_connection_id new.target_connection_id new.queue_id
          (λ db. pure new (record db { transfers = db.transfers ++ new ∷ [] })) db

-- The row of a new transfer; the time stamps are the server's default.
abbrev pub new_transfer : ℕ → TransferValues → ℕ → ℕ → Transfer
new_transfer gid v tid now = record {
  id = tid;
  group_id = gid;
  name = v.name;
  description = v.description;
  source_connection_id = v.source_connection_id;
  target_connection_id = v.target_connection_id;
  strategy_params = v.strategy_params;
  source_params = v.source_params;
  target_params = v.target_params;
  transformations = v.transformations;
  resources = v.resources;
  is_scheduled = v.is_scheduled;
  schedule = v.schedule;
  queue_id = v.queue_id;
  created_at = now;
  updated_at = now;
}

-- `insert(Transfer).values(…).returning(Transfer)`
unfoldable pub insert_transfer : ℕ → TransferValues → M Transfer
insert_transfer gid v = insert_row (new_transfer gid v)

-- What `Repository._copy` inserts for a transfer: every column of the origin but its key, the time
-- stamps included, with the new values in place.
abbrev pub copied : Transfer → ℕ → ℕ → ℕ → ℕ → Option String → ℕ → Transfer
copied origin queue_id group_id source_id target_id name tid = record origin {
  id = tid;
  group_id = group_id;
  source_connection_id = source_id;
  target_connection_id = target_id;
  queue_id = queue_id;
  name = or_origin name origin.name;
}

unfoldable pub copy_transfer_row : ℕ → ℕ → ℕ → ℕ → ℕ → Option String → M Transfer
copy_transfer_row tid queue_id group_id source_id target_id name = do
  origin ← one (← gets (λ db. get transfer_key tid db.transfers))
  insert_row λ new_id _. copied origin queue_id group_id source_id target_id name new_id

-- The columns that an update sets; the group stays.
abbrev pub set_transfer : TransferValues → ℕ → Transfer → Transfer
set_transfer v now t = record t {
  name = v.name;
  description = v.description;
  source_connection_id = v.source_connection_id;
  target_connection_id = v.target_connection_id;
  strategy_params = v.strategy_params;
  source_params = v.source_params;
  target_params = v.target_params;
  transformations = v.transformations;
  resources = v.resources;
  is_scheduled = v.is_scheduled;
  schedule = v.schedule;
  queue_id = v.queue_id;
  updated_at = now;
}

-- `update(Transfer).where(Transfer.id == tid).values(…).returning(Transfer)`, and `one()`
unfoldable pub update_transfer_row : ℕ → TransferValues → M Transfer
update_transfer_row tid v = do
  row ← one (← gets (λ db. get transfer_key tid db.transfers))
  λ db.
      if any (λ t. not (t.id == tid) && str_eq t.name v.name && t.group_id == row.group_id)
        db.transfers
      then violates uq__transfer__name_group_id db
      else foreign_keys row.group_id v.source_connection_id v.target_connection_id v.queue_id
          (λ db.
            let db' = record db {
              transfers = update transfer_key tid (set_transfer v db.now) db.transfers;
            } in
            one (get transfer_key tid db'.transfers) db')
          db

-- `delete(Transfer).filter_by(id=tid)`: its runs go with it.
unfoldable pub delete_transfer_row : ℕ → M Transfer
delete_transfer_row tid db =
    one (get transfer_key tid db.transfers) (delete_transfers (λ t. t.id == tid) db)
