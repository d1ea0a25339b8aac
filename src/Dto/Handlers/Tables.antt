-- ===== src/Dto/Handlers/Tables.antt =====
-- The parts of `get_handler` for connections to databases.
use syncmaster.Dto.Handlers.Made.{Fits, dump_auth, stores_files}
use syncmaster.Schemas.Transfers.{dump_params}
use syncmaster.Errors.{Side}
use syncmaster.Dto.Transfers.{FormatClass, erase}
use syncmaster.Credentials.{AuthType}
use syncmaster.Db.Json.{Json, Dict, Fields}
use syncmaster.Dto.{Outcome}
use syncmaster.Dto.Handlers.{merge, entry_of}
use syncmaster.Schemas.Auth.{create_auth_schema}
use syncmaster.Schemas.Connections.{
  CreateConnection, dump_data, connection_type, auth_type, type_name, data_schema, is_accepted,
  iceberg_rest_s3_direct, iceberg_rest_s3_delegated,
}
use syncmaster.Prelude.{String, ◌≡◌, refl, true, false}

module _ (parse_obj : FormatClass → Dict → Outcome Json) (loads : String → Outcome Json)
    (catalog_name : String) (attribute secret param : String → Json) (format : Fields) where
  pub tables :
      (c : CreateConnection) (side : Side)
      → stores_files c ≡ false
      → is_accepted c ≡ true
      → Fits parse_obj loads catalog_name attribute secret param format c side
  unfolding entry_of merge dump_data dump_auth dump_params data_schema create_auth_schema
      connection_type type_name auth_type erase is_accepted
  tables CreateConnection.postgres side _ _ =
      (_, _, _, _, refl, refl, refl, refl, refl, refl, refl, refl, refl, refl)
  tables CreateConnection.clickhouse side _ _ =
      (_, _, _, _, refl, refl, refl, refl, refl, refl, refl, refl, refl, refl)
  tables CreateConnection.mssql side _ _ =
      (_, _, _, _, refl, refl, refl, refl, refl, refl, refl, refl, refl, refl)
  tables CreateConnection.mysql side _ _ =
      (_, _, _, _, refl, refl, refl, refl, refl, refl, refl, refl, refl, refl)
  tables CreateConnection.oracle side _ _ =
      (_, _, _, _, refl, refl, refl, refl, refl, refl, refl, refl, refl, refl)
  tables CreateConnection.hive side _ _ =
      (_, _, _, _, refl, refl, refl, refl, refl, refl, refl, refl, refl, refl)
  tables (CreateConnection.iceberg iceberg_rest_s3_direct AuthType.basic) side _ h = absurd (cc h)
  tables (CreateConnection.iceberg iceberg_rest_s3_direct AuthType.s3) side _ h = absurd (cc h)
  tables (CreateConnection.iceberg iceberg_rest_s3_direct AuthType.samba) side _ h = absurd (cc h)
  tables (CreateConnection.iceberg iceberg_rest_s3_direct AuthType.iceberg_rest_bearer) side _ h =
      absurd (cc h)
  tables
        (CreateConnection.iceberg iceberg_rest_s3_direct
          AuthType.iceberg_rest_oauth2_client_credentials)
        side _ h =
      absurd (cc h)
  tables (CreateConnection.iceberg iceberg_rest_s3_direct AuthType.iceberg_rest_bearer_s3_basic)
        side _ h =
      (_, _, _, _, refl, refl, refl, refl, refl, refl, refl, refl, refl, refl)
  tables
        (CreateConnection.iceberg iceberg_rest_s3_direct
          AuthType.iceberg_rest_oauth2_client_credentials_s3_basic)
        side _ h =
      (_, _, _, _, refl, refl, refl, refl, refl, refl, refl, refl, refl, refl)
  tables (CreateConnection.iceberg iceberg_rest_s3_delegated AuthType.basic) side _ h =
      absurd (cc h)
  tables (CreateConnection.iceberg iceberg_rest_s3_delegated AuthType.s3) side _ h = absurd (cc h)
  tables (CreateConnection.iceberg iceberg_rest_s3_delegated AuthType.samba) side _ h =
      absurd (cc h)
  tables (CreateConnection.iceberg iceberg_rest_s3_delegated AuthType.iceberg_rest_bearer) side _
        h =
      (_, _, _, _, refl, refl, refl, refl, refl, refl, refl, refl, refl, refl)
  tables
        (CreateConnection.iceberg iceberg_rest_s3_delegated
          AuthType.iceberg_rest_oauth2_client_credentials)
        side _ h =
      (_, _, _, _, refl, refl, refl, refl, refl, refl, refl, refl, refl, refl)
  tables (CreateConnection.iceberg iceberg_rest_s3_delegated AuthType.iceberg_rest_bearer_s3_basic)
        side _ h =
      absurd (cc h)
  tables
        (CreateConnection.iceberg iceberg_rest_s3_delegated
          AuthType.iceberg_rest_oauth2_client_credentials_s3_basic)
        side _ h =
      absurd (cc h)
  tables CreateConnection.ftp side h _ = absurd (cc h)
  tables CreateConnection.ftps side h _ = absurd (cc h)
  tables CreateConnection.sftp side h _ = absurd (cc h)
  tables CreateConnection.hdfs side h _ = absurd (cc h)
  tables CreateConnection.s3 side h _ = absurd (cc h)
  tables CreateConnection.samba side h _ = absurd (cc h)
  tables CreateConnection.webdav side h _ = absurd (cc h)
