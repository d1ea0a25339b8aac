-- ===== src/Transfers/Copying.antt =====
-- `copy_transfer` of syncmaster/server/api/v1/transfers.py: the copied connections and the copied
-- transfer.
use syncmaster.Transfers.Api.{copy_all, copy_transfer, CopyBody, copy_target, copy_between}
use syncmaster.Transfers.Consistency.{in_group, IsConsistent, connection_group}
use syncmaster.Prelude.Tables.{get-append, get}
use syncmaster.Prelude.{
  ℕ, Option, ◌≡◌, ◌++◌, arith, String, ◌∷◌, [], ◌+◌, ◌≤◌, true, none, nat_eq, ◌⊎◌, Bool-cases, ◌==◌,
  inl, inr, some, Option-cases,
}
use syncmaster.Connections
use syncmaster.Connections.Statements.{insert_connection}
use syncmaster.Transfers
use syncmaster.Queues
use syncmaster.Transfers.Statements.{copy_transfer_row, delete_transfer_row}
use syncmaster.Db.{Db, Transfer, Connection, connection_key, transfer_key, queue_key, User, Queue}
use syncmaster.Access.States.{get_resource_permission_lem, get_group_permission-state}
use syncmaster.Db.Cascade.{delete_transfers}
use syncmaster.Session.{ok, bind-ok, unit_of_work, unit_of_work-ok, ◌>>=◌}
use syncmaster.Connections.{connection_model}
use syncmaster.Transfers.{transfer_model}

-- What a copied connection adds: a row of the new group, with the next key.
record Added (gid : ℕ) (db db' : Db) (c : Connection) : Type 0 where
  key : c.id ≡ db.seq.connection
  group : c.group_id ≡ gid
  rows : db'.connections ≡ db.connections ++ c ∷ []
  next : db'.seq.connection ≡ db.seq.connection + 1
  queues : db'.queues ≡ db.queues
  transfers : db'.transfers ≡ db.transfers

copy_connection-Added :
    (cid gid : ℕ) (name : Option String) (db db' : Db) (c : Connection)
    → Connections.copy cid gid name db ≡ (ok c, db')
    → Added gid db db' c
unfolding Connections.copy insert_connection
copy_connection-Added cid gid name db db' c h = record {
  key = ground arith;
  group = ground arith;
  rows = ground arith;
  next = ground arith;
  queues = ground arith;
  transfers = ground arith;
}

-- A copied transfer, and the tables that the copy leaves alone.
copy_row :
    (tid qid gid source_id target_id : ℕ) (name : Option String) (db db' : Db) (t : Transfer)
    → Transfers.copy tid qid gid source_id target_id name db ≡ (ok t, db')
    → (t.group_id ≡ gid)
      × (t.source_connection_id ≡ source_id)
      × (t.target_connection_id ≡ target_id)
      × (t.queue_id ≡ qid)
      × (db'.connections ≡ db.connections)
      × (db'.queues ≡ db.queues)
unfolding Transfers.copy copy_transfer_row
copy_row tid qid gid source_id target_id name db db' t h = ground arith

delete-rows :
    (tid : ℕ) (db : Db)
    → let db' = (Transfers.delete tid db).1 in
      (db'.connections ≡ db.connections) × (db'.queues ≡ db.queues)
unfolding Transfers.delete delete_transfer_row delete_transfers
delete-rows tid db = ground arith

-- No connection has a key that the sequence will give.
abbrev pub Fresh : Db → Type 0
Fresh db = (k : ℕ) → db.seq.connection ≤ k → get connection_key k db.connections ≡ none

module _ (gid : ℕ) (db db' : Db) (c : Connection) (fresh : Fresh db) (a : Added gid db db' c) where
  added-Fresh : Fresh db'
  added-Fresh k le =
      rw a.rows
        (ground (arith, fresh k, get-append connection_key k db.connections c, a.key, a.next))

  added-get : in_group connection_group gid (get connection_key c.id db'.connections) ≡ true
  added-get =
      rw a.rows (
        ground (arith, fresh c.id, get-append connection_key c.id db.connections c, a.key, a.group))

  -- A row that was there is still there.
  kept-get :
      (k g : ℕ)
      → in_group connection_group g (get connection_key k db.connections) ≡ true
      → in_group connection_group g (get connection_key k db'.connections) ≡ true
  kept-get k g h = rw a.rows (ground (arith, get-append connection_key k db.connections c))

-- The block of `copy_transfer`, step by step.
record Copied (gid qid : ℕ) (db db' : Db) (t : Transfer) : Type 0 where
  group : t.group_id ≡ gid
  queue : t.queue_id ≡ qid
  queues : db'.queues ≡ db.queues
  source :
      in_group connection_group gid (get connection_key t.source_connection_id db'.connections)
      ≡ true
  target :
      in_group connection_group gid (get connection_key t.target_connection_id db'.connections)
      ≡ true

copy_between-ok :
    (tid : ℕ) (body : CopyBody) (c d : Connection) (db db' : Db) (t : Transfer)
    → copy_between tid body c d db ≡ (ok t, db')
    → (t.group_id ≡ body.new_group_id)
      × (t.source_connection_id ≡ c.id)
      × (t.target_connection_id ≡ d.id)
      × (t.queue_id ≡ body.new_queue_id)
      × (db'.connections ≡ db.connections)
      × (db'.queues ≡ db.queues)
copy_between-ok tid body c d db db' t h =
    let db1 =
      (Transfers.copy tid body.new_queue_id body.new_group_id c.id d.id body.new_name db).1 in
    ground (
      arith,
      copy_row tid body.new_queue_id body.new_group_id c.id d.id body.new_name db db1 t,
      delete-rows tid db1,
    )

copy_target-ok :
    (origin : Transfer) (body : CopyBody) (c d : Connection) (db db' : Db)
    → copy_target origin body c db ≡ (ok d, db')
    → ((d ≡ c) × (db' ≡ db)) ⊎ Added body.new_group_id db db' d
copy_target-ok origin body c d db db' h =
    elim (Bool-cases (origin.source_connection_id == origin.target_connection_id)) [
      | inl same ↦ inl (ground arith)
      | inr other ↦ inr (
          copy_connection-Added origin.target_connection_id body.new_group_id
            body.new_target_connection_name db db' d (rw other at h))
    ]

module _ (gid qid : ℕ) (db : Db) (fresh : Fresh db) where
  -- The transfer `t` between the connections `c` and `d`, in the last step.
  abbrev Between : Connection → Connection → Db → Db → Transfer → Type 0
  Between c d db2 db' t =
      (t.group_id ≡ gid)
      × (t.source_connection_id ≡ c.id)
      × (t.target_connection_id ≡ d.id)
      × (t.queue_id ≡ qid)
      × (db'.connections ≡ db2.connections)
      × (db'.queues ≡ db2.queues)

  twice-Copied :
      (c : Connection) (db1 : Db) (d : Connection) (db2 db' : Db) (t : Transfer)
      → Added gid db db1 c
      → Added gid db1 db2 d
      → Between c d db2 db' t
      → Copied gid qid db db' t
  twice-Copied c db1 d db2 db' t a b (g, s, e, q, cs, qs) =
      let fresh1 = added-Fresh gid db db1 c fresh a in
      record {
        group = g;
        queue = q;
        queues = ground (arith, qs, b.queues, a.queues);
        source =
            rw (s, cs) (kept-get gid db1 db2 d fresh1 b c.id gid (added-get gid db db1 c fresh a));
        target = rw (e, cs) (added-get gid db1 db2 d fresh1 b);
      }

  once-Copied :
      (c : Connection) (db1 db' : Db) (t : Transfer)
      → Added gid db db1 c
      → Between c c db1 db' t
      → Copied gid qid db db' t
  once-Copied c db1 db' t a (g, s, e, q, cs, qs) = record {
    group = g;
    queue = q;
    queues = ground (arith, qs, a.queues);
    source = rw (s, cs) (added-get gid db db1 c fresh a);
    target = rw (e, cs) (added-get gid db db1 c fresh a);
  }

copy_all-Copied :
    (tid : ℕ) (origin : Transfer) (body : CopyBody) (db db' : Db) (t : Transfer)
    → Fresh db
    → copy_all tid origin body db ≡ (ok t, db')
    → Copied body.new_group_id body.new_queue_id db db' t
unfolding copy_all
copy_all-Copied tid origin body db db' t fresh h =
    let (c, db1, copied_source, h1) =
      bind-ok
        (Connections.copy origin.source_connection_id body.new_group_id
          body.new_source_connection_name)
        (λ s. copy_target origin body s >>= copy_between tid body s) db db' t h in
    let (d, db2, copied_target, h2) =
      bind-ok (copy_target origin body c) (copy_between tid body c) db1 db' t h1 in
    let a =
      copy_connection-Added origin.source_connection_id body.new_group_id
        body.new_source_connection_name db db1 c copied_source in
    let row = copy_between-ok tid body c d db2 db' t h2 in
    elim (copy_target-ok origin body c d db1 db2 copied_target) [
      | inl (one_copy, same_db) ↦
          once-Copied body.new_group_id body.new_queue_id db fresh c db1 db' t a
            (rw (one_copy, same_db) at row)
      | inr b ↦ twice-Copied body.new_group_id body.new_queue_id db fresh c db1 d db2 db' t a b row
    ]

module _ (u : User) (tid : ℕ) (body : CopyBody) (db db' : Db) (t : Transfer) where
  copy_transfer-found :
      (origin : Transfer) (q : Queue)
      → get transfer_key tid db.transfers ≡ some origin
      → get queue_key body.new_queue_id db.queues ≡ some q
      → copy_transfer u tid body db ≡ (ok t, db')
      → (q.group_id ≡ body.new_group_id)
        × (unit_of_work (copy_all tid origin body) db ≡ (ok t, db'))
  unfolding copy_transfer Transfers.read_by_id Queues.read_by_id
  copy_transfer-found origin q found at_queue h = ground (
    arith,
    get_resource_permission_lem transfer_model u tid db,
    get_group_permission-state u body.new_group_id db,
    get_resource_permission_lem connection_model u origin.source_connection_id db,
    get_resource_permission_lem connection_model u origin.target_connection_id db,
  )

  copy_transfer-reads :
      copy_transfer u tid body db ≡ (ok t, db')
      → (origin : Transfer) × (q : Queue) × (get transfer_key tid db.transfers ≡ some origin)
        × (get queue_key body.new_queue_id db.queues ≡ some q)
  unfolding copy_transfer Transfers.read_by_id Queues.read_by_id
  copy_transfer-reads h = elim (Option-cases (get transfer_key tid db.transfers)) [
    | inl no_row ↦ absurd (
        ground (
          arith,
          get_resource_permission_lem transfer_model u tid db,
          get_group_permission-state u body.new_group_id db,
        ))
    | inr (origin, found) ↦ elim (Option-cases (get queue_key body.new_queue_id db.queues)) [
      | inl no_q ↦ absurd (
          ground (
            arith,
            get_resource_permission_lem transfer_model u tid db,
            get_group_permission-state u body.new_group_id db,
            get_resource_permission_lem connection_model u origin.source_connection_id db,
            get_resource_permission_lem connection_model u origin.target_connection_id db,
          ))
      | inr (q, at_queue) ↦ (origin, q, found, at_queue)
    ]
  ]

  -- A copied transfer is in the group that was asked for, and so are its source, its target and its
  -- queue, whether one connection was copied or two, and whether the origin is removed, if the
  -- sequence of connections gives keys that no connection has yet.
  pub copy_transfer-IsConsistent :
      Fresh db
      → copy_transfer u tid body db ≡ (ok t, db')
      → IsConsistent db' t × (t.group_id ≡ body.new_group_id)
  copy_transfer-IsConsistent fresh h =
      let (origin, q, found, at_queue) = copy_transfer-reads h in
      let (same, block) = copy_transfer-found origin q found at_queue h in
      let c =
        copy_all-Copied tid origin body db db' t fresh
          (unit_of_work-ok (copy_all tid origin body) db db' t block) in
      (
        record {
          source_in_group = rw c.group c.source;
          target_in_group = rw c.group c.target;
          queue_in_group = rw (c.group, c.queue, c.queues, at_queue) (ground arith);
        },
        c.group,
      )
