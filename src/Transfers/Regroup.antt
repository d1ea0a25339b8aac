-- ===== src/Transfers/Regroup.antt =====
-- `update_transfer` of syncmaster/server/api/v1/transfers.py and the group of the transfer.
use syncmaster.Connections.{connection_model}
use syncmaster.Transfers.{transfer_model}
use syncmaster.Access.States.{get_resource_permission_lem}
use syncmaster.Queues
use syncmaster.Session.{ok, unit_of_work}
use syncmaster.Connections
use syncmaster.Prelude.{ℕ, ◌≡◌, some, ◌↔◌, arith, nat_eq, refl, Option-cases, inl, inr}
use syncmaster.Transfers.Statements.{update_transfer_row, TransferValues, set_transfer}
use syncmaster.Db.{User, Db, Transfer, transfer_key, Connection, Queue, connection_key, queue_key}
use syncmaster.Transfers
use syncmaster.Transfers.Api.{update_transfer, TransferBody}
use syncmaster.Transfers.Consistency.{IsConsistent, check_body-ok}
use syncmaster.Prelude.Tables.{get, get-update}

update-ok :
    (tid : ℕ) (v : TransferValues) (db db' : Db) (t row : Transfer)
    → get transfer_key tid db.transfers ≡ some row
    → Transfers.update tid v db ≡ (ok t, db')
    → (t ≡ set_transfer v db.now row)
      × (db'.connections ≡ db.connections)
      × (db'.queues ≡ db.queues)
unfolding Transfers.update update_transfer_row
update-ok tid v db db' t row found h =
    ground (arith, get-update transfer_key tid tid (set_transfer v db.now) db.transfers (λ r. refl))

module _ (u : User) (tid : ℕ) (body : TransferBody) (db db' : Db) (t row : Transfer)
    (found : get transfer_key tid db.transfers ≡ some row) where
  update_transfer-found :
      (d s : Connection) (q : Queue)
      → get connection_key body.values.target_connection_id db.connections ≡ some d
      → get connection_key body.values.source_connection_id db.connections ≡ some s
      → get queue_key body.values.queue_id db.queues ≡ some q
      → update_transfer u tid body db ≡ (ok t, db')
      → (d.group_id ≡ body.group_id)
        × (s.group_id ≡ body.group_id)
        × (q.group_id ≡ body.group_id)
        × (Transfers.update tid body.values db ≡ (ok t, db'))
  unfolding update_transfer Connections.read_by_id Queues.read_by_id unit_of_work
  update_transfer-found d s q fd fs fq h = ground (
    arith,
    get_resource_permission_lem transfer_model u tid db,
    get_resource_permission_lem connection_model u d.id db,
    get_resource_permission_lem connection_model u s.id db,
    check_body-ok body d s q db,
  )

  update_transfer-reads :
      update_transfer u tid body db ≡ (ok t, db')
      → (d : Connection) × (s : Connection) × (q : Queue) × (get connection_key
            body.values.target_connection_id db.connections
          ≡ some d)
        × (get connection_key body.values.source_connection_id db.connections ≡ some s)
        × (get queue_key body.values.queue_id db.queues ≡ some q)
  unfolding update_transfer Connections.read_by_id Queues.read_by_id
  update_transfer-reads h =
      elim (Option-cases (get connection_key body.values.target_connection_id db.connections)) [
        | inl no_d ↦ absurd (ground (arith, get_resource_permission_lem transfer_model u tid db))
        | inr (d, fd) ↦
            elim (Option-cases
              (get connection_key body.values.source_connection_id db.connections)) [
                | inl no_s ↦
                    absurd (ground (arith, get_resource_permission_lem transfer_model u tid db))
                | inr (s, fs) ↦ elim (Option-cases (get queue_key body.values.queue_id db.queues)) [
                  | inl no_q ↦
                      absurd (ground (arith, get_resource_permission_lem transfer_model u tid db))
                  | inr (q, fq) ↦ (d, s, q, fd, fs, fq)
                ]
              ]
      ]

  -- After an update that returns, the transfer still belongs to its group, and its connections and
  -- its queue belong to that group exactly when the body named it: the handler never compares the
  -- two groups, so a body with another group, whose connections and queue are in that other group,
  -- leaves a transfer across two groups.
  pub update_transfer-IsConsistent :
      update_transfer u tid body db ≡ (ok t, db')
      → (t.group_id ≡ row.group_id) × (IsConsistent db' t ↔ (body.group_id ≡ row.group_id))
  update_transfer-IsConsistent h =
      let (d, s, q, fd, fs, fq) = update_transfer-reads h in
      let (gd, gs, gq, e) = update_transfer-found d s q fd fs fq h in
      let (new, cs, qs) = update-ok tid body.values db db' t row found e in
      (
        rw new,
        (
          λ c. let k = rw (new, cs, fs) at (c.source_in_group) in ground arith,
          λ same. record {
            source_in_group = rw (new, cs, fs) (ground arith);
            target_in_group = rw (new, cs, fd) (ground arith);
            queue_in_group = rw (new, qs, fq) (ground arith);
          },
        ),
      )
