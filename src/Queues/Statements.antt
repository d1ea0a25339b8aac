-- ===== src/Queues/Statements.antt =====
-- The statements on the table queue (syncmaster/db/models/queue.py), with its constraints.
use syncmaster.Errors.{uq__queue__slug, fk__queue__group_id__group}
use syncmaster.Db.Cascade.{delete_queues}
use syncmaster.Db.{Queue, queue_key, group_key}
use syncmaster.Session.{M, ok, one, ◌>>=◌, violates, out_of_range, pure}
use syncmaster.Prelude.Tables.{get, update}
use syncmaster.Prelude.{
  nat_eq, String, List, ℕ, Bool, ◌+◌, any, ◌==◌, [], ◌∷◌, if◌then◌else◌, not, is_some, ◌++◌, Text,
  text_eq, fits, fits_bigint, leb, length, ◌&&◌,
}

abbrev next_queue : M ℕ
next_queue db = (ok db.seq.queue, record db { seq = record db.seq { queue = db.seq.queue + 1 } })

abbrev pub slug_taken : Text → List Queue → Bool
slug_taken slug qs = any (λ q. text_eq q.slug slug) qs

-- `String(128)`, `String(256)`, `BIGINT` and `String(512)`
unfoldable pub fits_queue : String → Text → ℕ → String → Bool
fits_queue name slug gid description =
    fits 128 name && leb (length slug) 256 && fits_bigint gid && fits 512 description

-- `insert(Queue).values(**queue_data).returning(Queue)`
unfoldable pub insert_queue : String → Text → ℕ → String → M Queue
insert_queue name slug gid description = do
  qid ← next_queue
  λ db.
      let new : Queue = record {
        id = qid;
        name = name;
        slug = slug;
        group_id = gid;
        description = description;
      } in
      if not (fits_queue name slug gid description)
      then out_of_range db
      else if slug_taken slug db.queues
      then violates uq__queue__slug db
      else if not (is_some (get group_key gid db.groups))
      then violates fk__queue__group_id__group db
      else pure new (record db { queues = db.queues ++ new ∷ [] })

abbrev pub set_queue : String → String → Queue → Queue
set_queue name description q = record q { name = name; description = description }

-- The slug keeps the text that the first name gave it.
unfoldable pub update_queue_row : ℕ → String → String → M Queue
update_queue_row qid name description db =
    let db' = record db { queues = update queue_key qid (set_queue name description) db.queues } in
    if is_some (get queue_key qid db.queues) && not (fits_queue name [] 0 description)
    then out_of_range db
    else one (get queue_key qid db'.queues) db'

-- `delete(Queue).filter_by(id=qid)`: the transfers that use the queue go with it.
unfoldable pub delete_queue_row : ℕ → M Queue
delete_queue_row qid db = one (get queue_key qid db.queues) (delete_queues (λ q. q.id == qid) db)
