-- ===== src/Credentials.antt =====
-- The credentials of connections: syncmaster/db/repositories/credentials_repository.py, with the
-- encryption of syncmaster/db/repositories/utils.py, and the schemas of syncmaster/schemas/v1/auth.
use syncmaster.Db.{AuthData, auth_data_key, connection_key}
pub mod Secrets
use syncmaster.Session.{
  M, pure, except_map, err, ◌>>=◌, or_fail, map_integrity, gets, one, map_no_result, violates, ok,
}
use syncmaster.Errors.{
  Constraint, SyncmasterError, syncmaster_error, key_error, auth_data_not_found, invalid_token,
  entity_not_found, pk__auth_data, fk__auth_data__connection_id__connection,
}
use syncmaster.Db.Json.{Dict, Json}
use syncmaster.Prelude.Tables.{get, update as update_rows}
use syncmaster.Prelude.{
  nat_eq, ℕ, keep, List, String, ◌∷◌, any, Option, [], if◌then◌else◌, ◌≡◌, str_eq, is_some, some,
  ◌++◌, ◌==◌, not,
}

-- The schemas by their `type`.
pub data AuthType : Type 0 where
  basic s3 samba : AuthType
  iceberg_rest_bearer iceberg_rest_oauth2_client_credentials : AuthType
  iceberg_rest_bearer_s3_basic iceberg_rest_oauth2_client_credentials_s3_basic : AuthType

-- The dictionary of a schema: its type and its other fields.
pub record Auth : Type 0 where
  pub type : AuthType
  pub fields : Dict

abbrev pub auth_index : AuthType → ℕ
auth_index basic = 0
auth_index AuthType.s3 = 1
auth_index AuthType.samba = 2
auth_index iceberg_rest_bearer = 3
auth_index iceberg_rest_oauth2_client_credentials = 4
auth_index iceberg_rest_bearer_s3_basic = 5
auth_index iceberg_rest_oauth2_client_credentials_s3_basic = 6

-- `get_secret_fields` of the update schemas.
unfoldable pub secret_fields : AuthType → List String
secret_fields basic = "password" ∷ []
secret_fields AuthType.s3 = "secret_key" ∷ []
secret_fields AuthType.samba = "password" ∷ []
secret_fields iceberg_rest_bearer = "rest_catalog_token" ∷ []
secret_fields iceberg_rest_oauth2_client_credentials = "rest_catalog_oauth2_client_secret" ∷ []
secret_fields iceberg_rest_bearer_s3_basic = "rest_catalog_token" ∷ "s3_secret_key" ∷ []
secret_fields iceberg_rest_oauth2_client_credentials_s3_basic =
    "rest_catalog_oauth2_client_secret" ∷ "s3_secret_key" ∷ []

-- The fields of the OAuth2 schemas that are no secrets.
abbrev oauth2_fields : List String
oauth2_fields =
    "rest_catalog_oauth2_client_id" ∷ "rest_catalog_oauth2_scopes" ∷ "rest_catalog_oauth2_resource"
    ∷ "rest_catalog_oauth2_audience" ∷ "rest_catalog_oauth2_token_endpoint" ∷ []

-- The fields of the read schemas, the type apart.
unfoldable pub read_fields : AuthType → List String
read_fields basic = "user" ∷ []
read_fields AuthType.s3 = "access_key" ∷ []
read_fields AuthType.samba = "user" ∷ "auth_type" ∷ []
read_fields iceberg_rest_bearer = []
read_fields iceberg_rest_oauth2_client_credentials = oauth2_fields
read_fields iceberg_rest_bearer_s3_basic = "s3_access_key" ∷ []
read_fields iceberg_rest_oauth2_client_credentials_s3_basic = oauth2_fields ++ "s3_access_key" ∷ []

-- `ReadAuthDataSchema(auth_data=…).model_dump(mode="json")["auth_data"]`, for stored credentials: a
-- field that the read schema does not declare is dropped.
unfoldable pub read_schema : Auth → Auth
read_schema a = record a { fields = keep (λ f. any (str_eq f.0) (read_fields a.type)) a.fields }

-- `d[key]`
unfoldable pub subscript : Dict → String → M Json
subscript [] key db = (err key_error, db)
subscript ((k, v) ∷ d) key db = if str_eq k key then (ok v, db) else subscript d key db

-- `d[key] = value`
unfoldable pub assign : String → Json → Dict → Dict
assign key value [] = (key, value) ∷ []
assign key value ((k, v) ∷ d) = if str_eq k key then (k, value) ∷ d else (k, v) ∷ assign key value d

-- The Fernet encryption of the dictionary as JSON, with the key of the settings: a token depends on
-- the time, and a token that the key does not fit does not decrypt.
pub record Fernet : Type 0 where
  pub encrypt : ℕ → Auth → String
  pub decrypt : String → Option Auth

module _ (fernet : Fernet) where
  open fernet use {encrypt, decrypt}

  unfoldable pub read : ℕ → M Auth
  read cid = do
    row ←
        except_map (map_no_result (auth_data_not_found cid))
          (do one (← gets (λ db. get auth_data_key cid db.auth_data)))
    or_fail invalid_token (decrypt row.value)

  -- `read_bulk`, for the connections of a page; `none` if a value does not decrypt.
  decrypt_all : List AuthData → M (List (ℕ × Auth))
  decrypt_all [] = pure []
  decrypt_all (row ∷ rows) = do
    a ← or_fail invalid_token (decrypt row.value)
    rest ← decrypt_all rows
    pure ((row.connection_id, a) ∷ rest)

  unfoldable pub read_bulk : List ℕ → M (List (ℕ × Auth))
  unfolding decrypt_all
  read_bulk ids = do
    rows ← gets (λ db. keep (λ a. any (λ i. a.connection_id == i) ids) db.auth_data)
    decrypt_all rows

  -- `_raise_error` raises `SyncmasterError` whatever the constraint.
  abbrev raise_error : Constraint → SyncmasterError
  raise_error _ = syncmaster_error

  insert_auth_data : ℕ → Auth → M AuthData
  insert_auth_data cid a db =
      let new : AuthData = record { connection_id = cid; value = encrypt db.now a } in
      if is_some (get auth_data_key cid db.auth_data)
      then violates pk__auth_data db
      else if not (is_some (get connection_key cid db.connections))
      then violates fk__auth_data__connection_id__connection db
      else pure new (record db { auth_data = db.auth_data ++ new ∷ [] })

  unfoldable pub create : ℕ → Auth → M AuthData
  unfolding insert_auth_data
  create cid a = except_map (map_integrity raise_error) (insert_auth_data cid a)

  abbrev set_value : String → AuthData → AuthData
  set_value value row = record row { value = value }

  update_auth_data : ℕ → Auth → M AuthData
  update_auth_data cid a db =
      let db' = record db {
        auth_data = update_rows auth_data_key cid (set_value (encrypt db.now a)) db.auth_data;
      } in
      one (get auth_data_key cid db'.auth_data) db'

  unfoldable pub update : ℕ → Auth → M AuthData
  unfolding update_auth_data
  update cid a =
      except_map (map_integrity raise_error)
        (except_map (map_no_result entity_not_found) (update_auth_data cid a))
