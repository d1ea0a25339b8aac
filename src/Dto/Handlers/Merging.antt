-- ===== src/Dto/Handlers/Merging.antt =====
-- The two lines of `get_handler` that change the dictionary of a connection.

use syncmaster.Dto.{returned}
use syncmaster.Schemas.Connections.{
  CreateConnection, dump_data, data_schema, auth_type, is_accepted, iceberg_rest_s3_direct,
  iceberg_rest_s3_delegated,
}
use syncmaster.Db.Json.{Dict, Json}
use syncmaster.Dto.Handlers.{merge}
use syncmaster.Prelude.{String, ◌≡◌, true, refl}
use syncmaster.Credentials.{AuthType}
use syncmaster.Dto.Handlers.Made.{dump_auth}

-- The dictionary after a call is not changed by another call with the same credentials.
abbrev pub MergesAgain : (attribute secret : String → Json) → CreateConnection → Type 0
MergesAgain attribute secret c =
    let auth = dump_auth (auth_type c) secret in
    (merged : Dict) × (merge (dump_data c attribute) auth ≡ returned merged)
    × (merge merged auth ≡ returned merged)

pub merge_again :
    (attribute secret : String → Json) (c : CreateConnection)
    → is_accepted c ≡ true
    → MergesAgain attribute secret c
unfolding merge dump_data dump_auth data_schema auth_type is_accepted
merge_again attribute secret CreateConnection.postgres h = (_, refl, refl)
merge_again attribute secret CreateConnection.clickhouse h = (_, refl, refl)
merge_again attribute secret CreateConnection.mssql h = (_, refl, refl)
merge_again attribute secret CreateConnection.mysql h = (_, refl, refl)
merge_again attribute secret CreateConnection.oracle h = (_, refl, refl)
merge_again attribute secret CreateConnection.hive h = (_, refl, refl)
merge_again attribute secret CreateConnection.ftp h = (_, refl, refl)
merge_again attribute secret CreateConnection.ftps h = (_, refl, refl)
merge_again attribute secret CreateConnection.sftp h = (_, refl, refl)
merge_again attribute secret CreateConnection.hdfs h = (_, refl, refl)
merge_again attribute secret CreateConnection.s3 h = (_, refl, refl)
merge_again attribute secret CreateConnection.samba h = (_, refl, refl)
merge_again attribute secret CreateConnection.webdav h = (_, refl, refl)
merge_again attribute secret (CreateConnection.iceberg iceberg_rest_s3_direct AuthType.basic) h =
    absurd (cc h)
merge_again attribute secret (CreateConnection.iceberg iceberg_rest_s3_direct AuthType.s3) h =
    absurd (cc h)
merge_again attribute secret (CreateConnection.iceberg iceberg_rest_s3_direct AuthType.samba) h =
    absurd (cc h)
merge_again attribute secret
      (CreateConnection.iceberg iceberg_rest_s3_direct AuthType.iceberg_rest_bearer) h =
    absurd (cc h)
merge_again attribute secret
      (CreateConnection.iceberg iceberg_rest_s3_direct
        AuthType.iceberg_rest_oauth2_client_credentials)
      h =
    absurd (cc h)
merge_again attribute secret
      (CreateConnection.iceberg iceberg_rest_s3_direct AuthType.iceberg_rest_bearer_s3_basic) h =
    (_, refl, refl)
merge_again attribute secret
      (CreateConnection.iceberg iceberg_rest_s3_direct
        AuthType.iceberg_rest_oauth2_client_credentials_s3_basic)
      h =
    (_, refl, refl)
merge_again attribute secret (CreateConnection.iceberg iceberg_rest_s3_delegated AuthType.basic) h =
    absurd (cc h)
merge_again attribute secret (CreateConnection.iceberg iceberg_rest_s3_delegated AuthType.s3) h =
    absurd (cc h)
merge_again attribute secret (CreateConnection.iceberg iceberg_rest_s3_delegated AuthType.samba) h =
    absurd (cc h)
merge_again attribute secret
      (CreateConnection.iceberg iceberg_rest_s3_delegated AuthType.iceberg_rest_bearer) h =
    (_, refl, refl)
merge_again attribute secret
      (CreateConnection.iceberg iceberg_rest_s3_delegated
        AuthType.iceberg_rest_oauth2_client_credentials)
      h =
    (_, refl, refl)
merge_again attribute secret
      (CreateConnection.iceberg iceberg_rest_s3_delegated AuthType.iceberg_rest_bearer_s3_basic) h =
    absurd (cc h)
merge_again attribute secret
      (CreateConnection.iceberg iceberg_rest_s3_delegated
        AuthType.iceberg_rest_oauth2_client_credentials_s3_basic)
      h =
    absurd (cc h)
