-- ===== src/Connections/Statements.antt =====
-- The statements on the table connection (syncmaster/db/models/connection.py), with its
-- constraints.
use syncmaster.Db.Cascade.{delete_connections}
use syncmaster.Db.Json.{Json}
use syncmaster.Db.{Connection, connection_key, group_key}
use syncmaster.Errors.{
  ConnectionType, uq__connection__name_group_id, fk__connection__group_id__group,
}
use syncmaster.Session.{M, ok, one, ◌>>=◌, gets, violates, pure}
use syncmaster.Prelude.Tables.{get, update}
use syncmaster.Prelude.{
  nat_eq, ℕ, String, List, Bool, ◌+◌, any, not, str_eq, ◌&&◌, ◌==◌, if◌then◌else◌, is_some, ◌++◌,
  ◌∷◌, [],
}

abbrev pub connection_name_taken : String → ℕ → List Connection → Bool
connection_name_taken name gid cs = any (λ c. str_eq c.name name && c.group_id == gid) cs

abbrev next_connection : M ℕ
next_connection db =
    (ok db.seq.connection, record db { seq = record db.seq { connection = db.seq.connection + 1 } })

-- `insert(Connection).values(…).returning(Connection)`
unfoldable pub insert_connection : ℕ → ConnectionType → String → String → Json → M Connection
insert_connection gid type name description payload = do
  cid ← next_connection
  λ db.
      let new : Connection = record {
        id = cid;
        group_id = gid;
        type = type;
        name = name;
        description = description;
        payload = payload;
      } in
      if connection_name_taken name gid db.connections
      then violates uq__connection__name_group_id db
      else if not (is_some (get group_key gid db.groups))
      then violates fk__connection__group_id__group db
      else pure new (record db { connections = db.connections ++ new ∷ [] })

abbrev pub set_connection : String → ConnectionType → String → Json → Connection → Connection
set_connection name type description payload c = record c {
  name = name;
  type = type;
  description = description;
  payload = payload;
}

-- Another connection of the row's group has the name.
abbrev renamed_onto : ℕ → String → Connection → List Connection → Bool
renamed_onto cid name row cs =
    any (λ c. not (c.id == cid) && str_eq c.name name && c.group_id == row.group_id) cs

-- `update(Connection).where(Connection.id == cid).values(…).returning(Connection)`, and `one()`
unfoldable pub update_connection_row : ℕ → String → ConnectionType → String → Json → M Connection
update_connection_row cid name type description payload = do
  row ← one (← gets (λ db. get connection_key cid db.connections))
  λ db.
      if renamed_onto cid name row db.connections
      then violates uq__connection__name_group_id db
      else let db' = record db {
        connections =
            update connection_key cid (set_connection name type description payload) db.connections;
      } in
        one (get connection_key cid db'.connections) db'

-- `delete(Connection).filter_by(id=cid)`: its credentials and transfers go with it.
unfoldable pub delete_connection_row : ℕ → M Connection
delete_connection_row cid db =
    one (get connection_key cid db.connections) (delete_connections (λ c. c.id == cid) db)
