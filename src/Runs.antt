-- ===== src/Runs.antt =====
-- syncmaster/db/repositories/run.py, over the table run of syncmaster/db/models/run.py.
pub mod Api
pub mod Worker
pub mod Dumped
pub mod Lifecycle
use syncmaster.Pagination.{Pagination}
use syncmaster.Db.Json.{Json, obj_of, int, str, bool}
use syncmaster.Credentials.{Auth}
use syncmaster.Session.{
  M, ok, except_map, or_raise, ◌>>=◌, ◌>>◌, map_integrity, one, raise_if, gets, map_no_result, pure,
  violates,
}
use syncmaster.Db.{Connection, Transfer, Run, Db, RunType, transfer_key, run_key, connection_key}
use syncmaster.Prelude.{
  List, Option, ℕ, Bool, true, keep, ◌+◌, ◌==◌, ◌&&◌, false, none, some, if◌then◌else◌, leb,
  is_empty, not, ◌∷◌, nat_eq, ◌||◌, is_some, [], any, ◌++◌,
}
use syncmaster.Errors.{
  Constraint, Status, SyncmasterError, created, transfer_not_found, started, syncmaster_error,
  run_not_found, failed, fk__run__transfer_id__transfer, send_stop_signal, stopped,
  entity_not_found, cannot_stop_run, finished,
}
use syncmaster.Pagination
use syncmaster.Prelude.Tables.{get, update as update_rows}

-- `run.status in [Status.CREATED, Status.STARTED]`
abbrev pub can_stop : Status → Bool
can_stop created = true
can_stop started = true
can_stop _ = false

unfoldable pub raise_error : Constraint → SyncmasterError
raise_error fk__run__transfer_id__transfer = transfer_not_found
raise_error _ = syncmaster_error

-- The filters of `paginate`. An empty list of statuses is no filter.
pub record RunFilter : Type 0 where
  pub status : List Status
  pub started_at_since : Option ℕ
  pub started_at_until : Option ℕ

abbrev pub status_index : Status → ℕ
status_index created = 0
status_index started = 1
status_index failed = 2
status_index send_stop_signal = 3
status_index stopped = 4
status_index finished = 5

abbrev pub status_eq : Status → Status → Bool
status_eq a b = status_index a == status_index b

-- A comparison with NULL is not true.
abbrev not_before : Option ℕ → Option ℕ → Bool
not_before none _ = true
not_before (some since) none = false
not_before (some since) (some moment) = leb since moment

abbrev not_after : Option ℕ → Option ℕ → Bool
not_after none _ = true
not_after (some until) none = false
not_after (some until) (some moment) = leb moment until

-- The rows that `paginate` finds, before they are ordered by their time of creation.
unfoldable pub select_runs : ℕ → RunFilter → Db → List Run
select_runs tid f db =
    keep
      (λ r.
        r.transfer_id == tid
        && (is_empty f.status || any (status_eq r.status) f.status)
        && not_before f.started_at_since r.started_at
        && not_after f.started_at_until r.started_at)
      db.runs

unfoldable pub paginate : (List Run → List Run) → ℕ → ℕ → ℕ → RunFilter → M (Pagination Run)
paginate order tid page page_size f =
    gets (λ db. Pagination.paginate (order (select_runs tid f db)) page page_size)

unfoldable pub read_by_id : ℕ → M Run
read_by_id rid = do or_raise run_not_found (← gets (λ db. get run_key rid db.runs))

-- The dump of one connection in `read_full_serialized_transfer`.
unfoldable pub dump_connection : Connection → Auth → Json
dump_connection c creds = obj_of (
    ("id", int c.id)
    ∷ ("group_id", int c.group_id)
    ∷ ("name", str c.name)
    ∷ ("description", str c.description)
    ∷ ("data", c.payload)
    ∷ ("auth_data", obj_of creds.fields)
    ∷ [])

unfoldable pub dump_transfer : Transfer → Json → Json → Json
dump_transfer t source_connection target_connection = obj_of (
    ("id", int t.id)
    ∷ ("name", str t.name)
    ∷ ("group_id", int t.group_id)
    ∷ ("queue_id", int t.queue_id)
    ∷ ("source_connection_id", int t.source_connection_id)
    ∷ ("target_connection_id", int t.target_connection_id)
    ∷ ("is_scheduled", bool t.is_scheduled)
    ∷ ("description", str t.description)
    ∷ ("schedule", str t.schedule)
    ∷ ("source_params", t.source_params)
    ∷ ("target_params", t.target_params)
    ∷ ("strategy_params", t.strategy_params)
    ∷ ("source_connection", source_connection)
    ∷ ("target_connection", target_connection)
    ∷ [])

unfoldable pub read_full_serialized_transfer : ℕ → Auth → Auth → M Json
read_full_serialized_transfer tid source_creds target_creds = do
  t ← one (← gets (λ db. get transfer_key tid db.transfers))
  s ← one (← gets (λ db. get connection_key t.source_connection_id db.connections))
  d ← one (← gets (λ db. get connection_key t.target_connection_id db.connections))
  pure (dump_transfer t (dump_connection s source_creds) (dump_connection d target_creds))

abbrev next_run : M ℕ
next_run db = (ok db.seq.run, record db { seq = record db.seq { run = db.seq.run + 1 } })

-- The flush of a new run: its status is `CREATED`, and it has not started.
unfoldable pub insert_run : ℕ → Json → RunType → M Run
insert_run tid transfer_dump type = do
  rid ← next_run
  λ db.
      let new : Run = record {
        id = rid;
        transfer_id = tid;
        started_at = none;
        ended_at = none;
        status = created;
        type = type;
        log_url = none;
        transfer_dump = transfer_dump;
        created_at = db.now;
        updated_at = db.now;
      } in
      if not (is_some (get transfer_key tid db.transfers))
      then violates fk__run__transfer_id__transfer db
      else pure new (record db { runs = db.runs ++ new ∷ [] })

unfoldable pub create : ℕ → Auth → Auth → RunType → M Run
unfolding insert_run
create tid source_creds target_creds type = do
  transfer_dump ← read_full_serialized_transfer tid source_creds target_creds
  except_map (map_integrity raise_error) (insert_run tid transfer_dump type)

abbrev pub set_status : Status → ℕ → Run → Run
set_status status now r = record r { status = status; updated_at = now }

-- `RunRepository.update`, with the status as its only value: no caller gives another.
unfoldable pub update : ℕ → Status → M Run
update rid status = except_map (map_integrity raise_error) (
    except_map (map_no_result entity_not_found) (λ db.
      let db' = record db { runs = update_rows run_key rid (set_status status db.now) db.runs } in
      one (get run_key rid db'.runs) db'))

unfoldable pub stop : ℕ → M Run
stop rid = do
  run ← read_by_id rid
  raise_if (not (can_stop run.status)) (cannot_stop_run rid run.status)
  λ db.
      pure (set_status send_stop_signal db.now run)
        (record db { runs = update_rows run_key rid (set_status send_stop_signal db.now) db.runs })
