-- ===== src/Runs/Dumped.antt =====
-- What the dump of a run holds of credentials: `start_run` of syncmaster/server/api/v1/runs.py.
use syncmaster.Credentials
use syncmaster.Credentials.{Auth, Fernet, read_schema}
use syncmaster.Db.{Connection, Db, Run, Transfer, User, connection_key, transfer_key}
use syncmaster.Listings.Shown.{hides_secrets}
use syncmaster.Prelude.{Bool, List, ℕ, ◌≡◌, some, true, nat_eq}
use syncmaster.Prelude.Tables.{get}
use syncmaster.Queues
use syncmaster.Runs
use syncmaster.Runs.{dump_connection, dump_transfer}
use syncmaster.Session.{M, ok}
use syncmaster.Transfers

-- What an action returns in one state of the database.
record At {A : Type 0} (Q : A → Type 0) (db : Db) (m : M A) : Type 0 where
  returns : (db' : Db) (a : A) → m db ≡ (ok a, db') → Q a

module _ (fernet : Fernet) (sent : ℕ → List ℕ → Bool) (u : User) (tid : ℕ) (db : Db) where
  -- A connection with the credentials that are stored for it, of which the read schema leaves no
  -- secret field.
  abbrev pub Stored : ℕ → Connection → Auth → Type 0
  Stored cid c a =
      (get connection_key cid db.connections ≡ some c)
      × (Credentials.read fernet cid db ≡ (ok a, db))
      × (hides_secrets (some (read_schema a)) ≡ true)

  abbrev pub HidesSecrets : Run → Type 0
  HidesSecrets run =
      (t : Transfer) × (s : Connection) × (d : Connection) × (a : Auth) × (b : Auth) × (get
          transfer_key tid db.transfers
        ≡ some t)
      × Stored t.source_connection_id s a
      × Stored t.target_connection_id d b
      × (run.transfer_dump
          ≡ dump_transfer t (dump_connection s (read_schema a)) (dump_connection d (read_schema b)))
