-- ===== src/Connections/Copies.antt =====
-- Copied connections (syncmaster/db/repositories/connection.py), and `update_connection` of
-- syncmaster/server/api/v1/connections.py.
use syncmaster.Transfers
use syncmaster.Prelude.{ℕ, ◌≡◌, Option, String, none, arith, false, nat_eq}
use syncmaster.Connections
use syncmaster.Credentials
use syncmaster.Credentials.{Fernet}
use syncmaster.Connections.{connection_model}
use syncmaster.Connections.Statements.{insert_connection}
use syncmaster.Connections.Api.{update_connection, write_connection, ConnectionBody}
use syncmaster.Access.States.{get_resource_permission_lem}
use syncmaster.Db.{User, Db, Connection, auth_data_key}
use syncmaster.Session.{ok, is_ok, unit_of_work}
use syncmaster.Prelude.Tables.{get}

copy-auth_data :
    (cid gid : ℕ) (name : Option String) (db db' : Db) (c : Connection)
    → Connections.copy cid gid name db ≡ (ok c, db')
    → (c.id ≡ db.seq.connection) × (db'.auth_data ≡ db.auth_data)
unfolding Connections.copy insert_connection
copy-auth_data cid gid name db db' c h = ground arith

module _ (fernet : Fernet) (cid : ℕ) (body : ConnectionBody) (db : Db)
    (none_stored : get auth_data_key cid db.auth_data ≡ none) where
  write_connection-fails :
      ((write_connection fernet cid body db).1 ≡ db)
      × (is_ok (write_connection fernet cid body db).0 ≡ false)
  unfolding write_connection Credentials.read Connections.read_by_id Transfers.list_by_connection_id
  write_connection-fails = ground arith

  update_connection-fails :
      (u : User)
      → ((update_connection fernet u cid body db).1 ≡ db)
        × (is_ok (update_connection fernet u cid body db).0 ≡ false)
  unfolding update_connection unit_of_work
  update_connection-fails u =
      ground (arith, get_resource_permission_lem connection_model u cid db, write_connection-fails)

-- A copied connection has no credentials, so that every update of it raises and changes nothing,
-- whoever sends it and whatever credentials it gives, if no credentials have the key that the
-- sequence of connections gives.
pub copy-not_updated :
    (fernet : Fernet) (cid gid : ℕ) (name : Option String) (db db' : Db) (c : Connection)
    → Connections.copy cid gid name db ≡ (ok c, db')
    → get auth_data_key db.seq.connection db.auth_data ≡ none
    → (u : User) (body : ConnectionBody)
    → let r = update_connection fernet u c.id body db' in (r.1 ≡ db') × (is_ok r.0 ≡ false)
copy-not_updated fernet cid gid name db db' c h none_stored u body =
    let (key, same) = copy-auth_data cid gid name db db' c h in
    update_connection-fails fernet c.id body db' (rw (key, same) none_stored) u
