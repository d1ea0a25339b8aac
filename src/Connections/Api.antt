-- ===== src/Connections/Api.antt =====
-- The handlers of syncmaster/server/api/v1/connections.py.
use syncmaster.Transfers
use syncmaster.Connections
use syncmaster.Connections.{connection_model}
use syncmaster.Db.Json.{Json, Dict, is_null}
use syncmaster.Errors.{
  ConnectionType, group_not_found, connection_not_found, raised, action_not_allowed,
  auth_data_not_found, connection_auth_data_update, type_eq, connection_delete,
  connection_type_update,
}
use syncmaster.Session.{Result, M, ◌>>=◌, pure, ◌>>◌, ok, raise_if, err, unit_of_work}
use syncmaster.Db.{Connection, User, Db}
use syncmaster.Prelude.{
  List, String, ℕ, Option, Bool, some, ◌∷◌, [], if◌then◌else◌, ◌&&◌, not, none, ◌==◌, is_empty,
  length,
}
use syncmaster.Credentials.{
  Fernet, Auth, AuthType, subscript, auth_index, assign, read_schema, secret_fields,
}
use mathlib.Core.Option
use syncmaster.Credentials
use syncmaster.Access.{get_group_permission, get_resource_permission, delete, write, below, is_none}

-- `CreateConnectionSchema` and `UpdateConnectionSchema`; `auth_data` may hold `None` for a secret in
-- an update.
pub record ConnectionBody : Type 0 where
  pub name : String
  pub type : ConnectionType
  pub description : String
  pub payload : Json
  pub auth_data : Auth

-- `ReadConnectionSchema`, with the read schema of the credentials.
pub record ReadConnection : Type 0 where
  pub connection : Connection
  pub auth_data : Option Auth

abbrev pub respond : Connection → Option Auth → M ReadConnection
respond c a = pure (record { connection = c; auth_data = Option.map read_schema a })

-- `except AuthDataNotFoundError: credentials = None`
abbrev pub or_none : Result Auth × Db → Result (Option Auth) × Db
or_none (ok a, db) = (ok (some a), db)
or_none (err (raised (auth_data_not_found _)), db) = (ok none, db)
or_none (err e, db) = (err e, db)

-- One round of the loop: a secret that is not given is taken from the stored credentials, unless
-- their type is another.
unfoldable pub fill_secret : String → Auth → AuthType → Dict → M Dict
fill_secret secret_field existing type auth_data = do
  value ← subscript auth_data secret_field
  if not (is_null value) then pure auth_data else do
    raise_if (not (auth_index existing.type == auth_index type)) connection_auth_data_update
    old ← subscript existing.fields secret_field
    pure (assign secret_field old auth_data)

-- `for secret_field in connection_data.auth_data.get_secret_fields()`
unfoldable pub fill_secrets : List String → Auth → AuthType → Dict → M Dict
fill_secrets [] existing type auth_data = pure auth_data
fill_secrets (secret_field ∷ rest) existing type auth_data = do
  filled ← fill_secret secret_field existing type auth_data
  fill_secrets rest existing type filled

module _ (fernet : Fernet) where
  unfoldable pub create_connection : User → ℕ → ConnectionBody → M ReadConnection
  create_connection current_user gid body = do
    group_permission ← get_group_permission current_user gid
    raise_if (is_none group_permission) group_not_found
    raise_if (below group_permission write) action_not_allowed
    connection ← unit_of_work do
      c ← Connections.create gid body.type body.name body.description body.payload
      Credentials.create fernet c.id body.auth_data
      pure c
    credentials ← Credentials.read fernet connection.id
    respond connection (some credentials)

  unfoldable pub read_connection : User → ℕ → M ReadConnection
  read_connection current_user cid = do
    resource_role ← get_resource_permission connection_model current_user cid
    raise_if (is_none resource_role) connection_not_found
    connection ← Connections.read_by_id cid
    credentials ← λ db. or_none (Credentials.read fernet connection.id db)
    respond connection credentials

  -- The block of `update_connection`.
  unfoldable pub write_connection : ℕ → ConnectionBody → M Connection
  write_connection cid body = do
    existing ← Connections.read_by_id cid
    linked_transfers ← Transfers.list_by_connection_id cid
    raise_if (not (type_eq body.type existing.type) && not (is_empty linked_transfers))
        connection_type_update
    existing_credentials ← Credentials.read fernet cid
    fields ←
        fill_secrets (secret_fields body.auth_data.type) existing_credentials body.auth_data.type
          body.auth_data.fields
    connection ← Connections.update cid body.name body.type body.description body.payload
    Credentials.update fernet cid (record body.auth_data { fields = fields })
    pure connection

  unfoldable pub update_connection : User → ℕ → ConnectionBody → M ReadConnection
  update_connection current_user cid body = do
    resource_role ← get_resource_permission connection_model current_user cid
    raise_if (is_none resource_role) connection_not_found
    raise_if (below resource_role write) action_not_allowed
    connection ← unit_of_work (write_connection cid body)
    credentials ← Credentials.read fernet cid
    respond connection (some credentials)

unfoldable pub delete_connection : User → ℕ → M Unit
delete_connection current_user cid = do
  resource_role ← get_resource_permission connection_model current_user cid
  raise_if (is_none resource_role) connection_not_found
  raise_if (below resource_role delete) action_not_allowed
  connection ← Connections.read_by_id cid
  transfers ← Transfers.list_by_connection_id connection.id
  raise_if (not (is_empty transfers)) (connection_delete (length transfers))
  unit_of_work (Connections.delete cid)

-- `ConnectionCopySchema`; the copy has no credentials.
unfoldable pub copy_connection : User → ℕ → ℕ → Option String → Bool → M ReadConnection
copy_connection current_user cid new_group_id new_name remove_source = do
  resource_role ← get_resource_permission connection_model current_user cid
  raise_if (is_none resource_role) connection_not_found
  raise_if (remove_source && below resource_role delete) action_not_allowed
  target_group_role ← get_group_permission current_user new_group_id
  raise_if (is_none target_group_role) group_not_found
  raise_if (below target_group_role write) action_not_allowed
  connection ← unit_of_work do
    c ← Connections.copy cid new_group_id new_name
    if remove_source then Connections.delete cid else pure tt
    pure c
  respond connection none
