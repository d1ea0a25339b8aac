-- ===== src/Db/Cascade.antt =====
-- `ondelete="CASCADE"` on the foreign keys of syncmaster/db/models: what a deleted row takes along.
use syncmaster.Prelude.{ℕ, Bool, not, ◌&&◌, ◌||◌, any, keep, ◌==◌}
use syncmaster.Db.Rows.{Db, Queue, Connection, Transfer}

-- Deletes the transfers that `gone` finds, with their runs.
unfoldable pub delete_transfers : (Transfer → Bool) → Db → Db
delete_transfers gone db = record db {
  transfers = keep (λ t. not (gone t)) db.transfers;
  runs = keep (λ r. not (any (λ t. t.id == r.transfer_id && gone t) db.transfers)) db.runs;
}

-- Deletes the queues that `gone` finds, with the transfers that use them.
unfoldable pub delete_queues : (Queue → Bool) → Db → Db
unfolding delete_transfers
delete_queues gone db =
    let db' = delete_transfers (λ t. any (λ q. q.id == t.queue_id && gone q) db.queues) db in
    record db' { queues = keep (λ q. not (gone q)) db.queues }

-- Deletes the connections that `gone` finds, with their credentials and the transfers that read
-- from them or write to them.
unfoldable pub delete_connections : (Connection → Bool) → Db → Db
unfolding delete_transfers
delete_connections gone db =
    let lost = λ (cid : ℕ). any (λ c. c.id == cid && gone c) db.connections in
    let db' =
      delete_transfers (λ t. lost t.source_connection_id || lost t.target_connection_id) db in
    record db' {
      connections = keep (λ c. not (gone c)) db.connections;
      auth_data = keep (λ a. not (lost a.connection_id)) db.auth_data;
    }

-- What the rows of a deleted group take along.
unfoldable pub delete_in_group : ℕ → Db → Db
unfolding delete_transfers delete_queues delete_connections
delete_in_group gid db =
    let db1 = delete_transfers (λ t. t.group_id == gid) db in
    let db2 = delete_queues (λ q. q.group_id == gid) db1 in
    let db3 = delete_connections (λ c. c.group_id == gid) db2 in
    record db3 { user_groups = keep (λ m. not (m.group_id == gid)) db.user_groups }
