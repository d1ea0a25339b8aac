-- ===== src/Transfers/Consistency.antt =====
-- The groups of a transfer, of its connections and of its queue, as `create_transfer` of
-- syncmaster/server/api/v1/transfers.py checks them.
use syncmaster.Errors.{
  SyncmasterError, type_eq, different_transfer_and_connections_groups,
  different_type_connections_and_params, target, source, different_transfer_and_queue_group,
}
use syncmaster.Access.States.{get_group_permission-state}
use Transfers.{none}
use syncmaster.Session.{ok, unit_of_work, is_ok, ◌>>◌, Result, raise_if}
use syncmaster.Transfers.Statements.{insert_transfer, TransferValues, new_transfer}
use syncmaster.Db.{Connection, Db, Queue, User, Transfer, connection_key, queue_key}
use syncmaster.Prelude.{
  ℕ, ◌≡◌, Option, arith, Bool, false, ◌++◌, true, some, ◌∷◌, [], ◌==◌, nat_eq, Option-cases, inl,
  ◌⊎◌, inr, not, ◌||◌, refl,
}
use syncmaster.Queues
use syncmaster.Connections
use syncmaster.Transfers
use syncmaster.Transfers.Api.{create_transfer, check_body, TransferBody}
use syncmaster.Prelude.Tables.{get}

-- The row is there and belongs to the group.
abbrev pub in_group : {Row : Type 0} → (Row → ℕ) → ℕ → Option Row → Bool
in_group group_of gid none = false
in_group group_of gid (some r) = group_of r == gid

abbrev pub connection_group : Connection → ℕ
connection_group c = c.group_id

abbrev pub queue_group : Queue → ℕ
queue_group q = q.group_id

pub record IsConsistent (db : Db) (t : Transfer) : Type 0 where
  pub source_in_group :
      in_group connection_group t.group_id
        (get connection_key t.source_connection_id db.connections)
      ≡ true
  pub target_in_group :
      in_group connection_group t.group_id
        (get connection_key t.target_connection_id db.connections)
      ≡ true
  pub queue_in_group : in_group queue_group t.group_id (get queue_key t.queue_id db.queues) ≡ true

-- A block of tests changes nothing, and raises or has the groups agree.
abbrev Passes : Type 0 → Result Unit × Db → Db → Type 0
Passes Agree r db = (r.1 ≡ db) × ((is_ok r.0 ≡ false) ⊎ ((r.0 ≡ ok tt) × Agree))

four_tests :
    {Agree : Type 0} (a b c d : Bool) (ea eb ec ed : SyncmasterError) (db : Db)
    → (a ≡ false → d ≡ false → Agree)
    → Passes Agree ((raise_if a ea >> (raise_if b eb >> (raise_if c ec >> raise_if d ed))) db) db
four_tests true b c d ea eb ec ed db h = (refl, inl refl)
four_tests false true c d ea eb ec ed db h = (refl, inl refl)
four_tests false false true d ea eb ec ed db h = (refl, inl refl)
four_tests false false false true ea eb ec ed db h = (refl, inl refl)
four_tests false false false false ea eb ec ed db h = (refl, inr (refl, h refl refl))

-- No test on the connections' groups hit.
groups_agree :
    (d s g : ℕ) → (not (d == s) || not (d == g) || not (s == g)) ≡ false → (d ≡ g) × (s ≡ g)
groups_agree d s g h = ground arith

queue_agrees : (g q : ℕ) → not (g == q) ≡ false → q ≡ g
queue_agrees g q h = ground arith

-- What the tests of a body are for.
abbrev SameGroup : TransferBody → Connection → Connection → Queue → Type 0
SameGroup body d s q =
    (d.group_id ≡ body.group_id) × (s.group_id ≡ body.group_id) × (q.group_id ≡ body.group_id)

-- The tests of `check_body` pass only if the body's group is that of both connections and of the
-- queue; they change nothing.
pub check_body-ok :
    (body : TransferBody) (d s : Connection) (q : Queue) (db : Db)
    → Passes (SameGroup body d s q) (check_body body d s q db) db
unfolding check_body
check_body-ok body d s q db =
    four_tests {Agree = SameGroup body d s q}
      (not (d.group_id == s.group_id)
        || not (d.group_id == body.group_id)
        || not (s.group_id == body.group_id))
      (not (type_eq d.type body.target_type)) (not (type_eq s.type body.source_type))
      (not (body.group_id == q.group_id)) different_transfer_and_connections_groups
      (different_type_connections_and_params d.type body.target_type target)
      (different_type_connections_and_params s.type body.source_type source)
      different_transfer_and_queue_group db agree
  where
    agree :
        (not (d.group_id == s.group_id)
            || not (d.group_id == body.group_id)
            || not (s.group_id == body.group_id))
          ≡ false
        → not (body.group_id == q.group_id) ≡ false
        → SameGroup body d s q
    agree same queue_same =
        let g = groups_agree d.group_id s.group_id body.group_id same in
        (g.0, g.1, queue_agrees body.group_id q.group_id queue_same)

-- A create that returns has inserted the row, and nothing else.
create-ok :
    (gid : ℕ) (v : TransferValues) (db db' : Db) (t : Transfer)
    → Transfers.create gid v db ≡ (ok t, db')
    → (t ≡ new_transfer gid v db.seq.transfer db.now)
      × (db'.transfers ≡ db.transfers ++ t ∷ [])
      × (db'.connections ≡ db.connections)
      × (db'.queues ≡ db.queues)
unfolding Transfers.create insert_transfer
create-ok gid v db db' t h = ground arith

module _ (u : User) (body : TransferBody) (db db' : Db) (t : Transfer) where
  create_transfer-found :
      (d s : Connection) (q : Queue)
      → get connection_key body.values.target_connection_id db.connections ≡ some d
      → get connection_key body.values.source_connection_id db.connections ≡ some s
      → get queue_key body.values.queue_id db.queues ≡ some q
      → create_transfer u body db ≡ (ok t, db')
      → (d.group_id ≡ body.group_id)
        × (s.group_id ≡ body.group_id)
        × (q.group_id ≡ body.group_id)
        × (Transfers.create body.group_id body.values db ≡ (ok t, db'))
  unfolding create_transfer Connections.read_by_id Queues.read_by_id unit_of_work
  create_transfer-found d s q fd fs fq h =
      ground (arith, get_group_permission-state u body.group_id db, check_body-ok body d s q db)

  create_transfer-reads :
      create_transfer u body db ≡ (ok t, db')
      → (d : Connection) × (s : Connection) × (q : Queue) × (get connection_key
            body.values.target_connection_id db.connections
          ≡ some d)
        × (get connection_key body.values.source_connection_id db.connections ≡ some s)
        × (get queue_key body.values.queue_id db.queues ≡ some q)
  unfolding create_transfer Connections.read_by_id Queues.read_by_id
  create_transfer-reads h =
      elim (Option-cases (get connection_key body.values.target_connection_id db.connections)) [
        | inl no_d ↦ absurd (ground (arith, get_group_permission-state u body.group_id db))
        | inr (d, fd) ↦
            elim (Option-cases
              (get connection_key body.values.source_connection_id db.connections)) [
                | inl no_s ↦ absurd (ground (arith, get_group_permission-state u body.group_id db))
                | inr (s, fs) ↦ elim (Option-cases (get queue_key body.values.queue_id db.queues)) [
                  | inl no_q ↦
                      absurd (ground (arith, get_group_permission-state u body.group_id db))
                  | inr (q, fq) ↦ (d, s, q, fd, fs, fq)
                ]
              ]
      ]

  -- A created transfer is in the group that was asked for, as are its source, its target and its
  -- queue; the row was added to the table of transfers.
  pub create_transfer-IsConsistent :
      create_transfer u body db ≡ (ok t, db')
      → IsConsistent db' t × (t.group_id ≡ body.group_id) × (db'.transfers ≡ db.transfers ++ t ∷ [])
  create_transfer-IsConsistent h =
      let (d, s, q, fd, fs, fq) = create_transfer-reads h in
      let (gd, gs, gq, e) = create_transfer-found d s q fd fs fq h in
      let (new, added, cs, qs) = create-ok body.group_id body.values db db' t e in
      (
        record {
          source_in_group = rw (new, cs, fs) (ground arith);
          target_in_group = rw (new, cs, fd) (ground arith);
          queue_in_group = rw (new, qs, fq) (ground arith);
        },
        rw new,
        added,
      )
