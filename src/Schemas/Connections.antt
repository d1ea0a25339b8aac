-- ===== src/Schemas/Connections.antt =====
-- The classes that `CreateConnectionSchema` of syncmaster/schemas/v1/connections is the union of,
-- each with its data and its credentials, and the validators of the whole request.
use syncmaster.Credentials.{AuthType}
use syncmaster.Db.Json.{Json, Dict}
use syncmaster.Errors.{ConnectionType}
use syncmaster.Schemas.{SchemaField, model_dump}
use syncmaster.Schemas.Auth.{auth_type_name}
use syncmaster.Schemas.Databases.{
  postgres_data, clickhouse_data, mssql_data, mysql_data, oracle_data, hive_data,
  iceberg_direct_data, iceberg_delegated_data,
}
use syncmaster.Schemas.Storages.{
  ftp_data, ftps_data, sftp_data, hdfs_data, s3_data, samba_data, webdav_data, with_port,
}
use syncmaster.Prelude.{List, Bool, String, true, false, not, ◌&&◌, contains, codes}

-- The discriminator `type` of the data of an Iceberg connection.
pub data IcebergData : Type 0 where
  iceberg_rest_s3_direct iceberg_rest_s3_delegated : IcebergData

-- The credentials of Iceberg are a union too.
pub data CreateConnection : Type 0 where
  postgres clickhouse mssql mysql oracle hive : CreateConnection
  ftp ftps sftp hdfs s3 samba webdav : CreateConnection
  iceberg : IcebergData → AuthType → CreateConnection

abbrev pub iceberg_data : IcebergData → List SchemaField
iceberg_data iceberg_rest_s3_direct = iceberg_direct_data
iceberg_data iceberg_rest_s3_delegated = iceberg_delegated_data

-- The fields of a class of requests that depend on the type of the connection.
pub record CreateSchema : Type 0 where
  pub type : ConnectionType
  pub payload : List SchemaField
  pub auth_data : AuthType

-- `CreatePostgresConnectionSchema`
abbrev pub create_postgres_connection : CreateSchema
create_postgres_connection = record {
  type = ConnectionType.postgres;
  payload = postgres_data;
  auth_data = AuthType.basic;
}

-- `CreateClickhouseConnectionSchema`
abbrev pub create_clickhouse_connection : CreateSchema
create_clickhouse_connection = record {
  type = ConnectionType.clickhouse;
  payload = clickhouse_data;
  auth_data = AuthType.basic;
}

-- `CreateMSSQLConnectionSchema`
abbrev pub create_mssql_connection : CreateSchema
create_mssql_connection = record {
  type = ConnectionType.mssql;
  payload = mssql_data;
  auth_data = AuthType.basic;
}

-- `CreateMySQLConnectionSchema`
abbrev pub create_mysql_connection : CreateSchema
create_mysql_connection = record {
  type = ConnectionType.mysql;
  payload = mysql_data;
  auth_data = AuthType.basic;
}

-- `CreateOracleConnectionSchema`
abbrev pub create_oracle_connection : CreateSchema
create_oracle_connection = record {
  type = ConnectionType.oracle;
  payload = oracle_data;
  auth_data = AuthType.basic;
}

-- `CreateHiveConnectionSchema`
abbrev pub create_hive_connection : CreateSchema
create_hive_connection = record {
  type = ConnectionType.hive;
  payload = hive_data;
  auth_data = AuthType.basic;
}

-- `CreateFTPConnectionSchema`
abbrev pub create_ftp_connection : CreateSchema
create_ftp_connection = record {
  type = ConnectionType.ftp;
  payload = ftp_data;
  auth_data = AuthType.basic;
}

-- `CreateFTPSConnectionSchema`
abbrev pub create_ftps_connection : CreateSchema
create_ftps_connection = record {
  type = ConnectionType.ftps;
  payload = ftps_data;
  auth_data = AuthType.basic;
}

-- `CreateSFTPConnectionSchema`
abbrev pub create_sftp_connection : CreateSchema
create_sftp_connection = record {
  type = ConnectionType.sftp;
  payload = sftp_data;
  auth_data = AuthType.basic;
}

-- `CreateHDFSConnectionSchema`
abbrev pub create_hdfs_connection : CreateSchema
create_hdfs_connection = record {
  type = ConnectionType.hdfs;
  payload = hdfs_data;
  auth_data = AuthType.basic;
}

-- `CreateS3ConnectionSchema`
abbrev pub create_s3_connection : CreateSchema
create_s3_connection = record {
  type = ConnectionType.s3;
  payload = s3_data;
  auth_data = AuthType.s3;
}

-- `CreateSambaConnectionSchema`
abbrev pub create_samba_connection : CreateSchema
create_samba_connection = record {
  type = ConnectionType.samba;
  payload = samba_data;
  auth_data = AuthType.samba;
}

-- `CreateWebDAVConnectionSchema`
abbrev pub create_webdav_connection : CreateSchema
create_webdav_connection = record {
  type = ConnectionType.webdav;
  payload = webdav_data;
  auth_data = AuthType.basic;
}

-- `CreateIcebergConnectionSchema`, for one choice from each of its unions.
abbrev pub create_iceberg_connection : IcebergData → AuthType → CreateSchema
create_iceberg_connection d a = record {
  type = ConnectionType.iceberg;
  payload = iceberg_data d;
  auth_data = a;
}

abbrev pub create_schema : CreateConnection → CreateSchema
create_schema CreateConnection.postgres = create_postgres_connection
create_schema CreateConnection.clickhouse = create_clickhouse_connection
create_schema CreateConnection.mssql = create_mssql_connection
create_schema CreateConnection.mysql = create_mysql_connection
create_schema CreateConnection.oracle = create_oracle_connection
create_schema CreateConnection.hive = create_hive_connection
create_schema CreateConnection.ftp = create_ftp_connection
create_schema CreateConnection.ftps = create_ftps_connection
create_schema CreateConnection.sftp = create_sftp_connection
create_schema CreateConnection.hdfs = create_hdfs_connection
create_schema CreateConnection.s3 = create_s3_connection
create_schema CreateConnection.samba = create_samba_connection
create_schema CreateConnection.webdav = create_webdav_connection
create_schema (CreateConnection.iceberg d a) = create_iceberg_connection d a

unfoldable pub data_schema : CreateConnection → List SchemaField
data_schema c = (create_schema c).payload

unfoldable pub connection_type : CreateConnection → ConnectionType
connection_type c = (create_schema c).type

unfoldable pub auth_type : CreateConnection → AuthType
auth_type c = (create_schema c).auth_data

-- The names of the types in syncmaster/schemas/v1/connection_types.py.
unfoldable pub type_name : ConnectionType → String
type_name ConnectionType.hive = "hive"
type_name ConnectionType.iceberg = "iceberg"
type_name ConnectionType.oracle = "oracle"
type_name ConnectionType.postgres = "postgres"
type_name ConnectionType.clickhouse = "clickhouse"
type_name ConnectionType.mssql = "mssql"
type_name ConnectionType.mysql = "mysql"
type_name ConnectionType.s3 = "s3"
type_name ConnectionType.hdfs = "hdfs"
type_name ConnectionType.sftp = "sftp"
type_name ConnectionType.ftp = "ftp"
type_name ConnectionType.ftps = "ftps"
type_name ConnectionType.webdav = "webdav"
type_name ConnectionType.samba = "samba"

-- The members of `CreateIcebergAuthDataSchema`
abbrev is_iceberg_auth : AuthType → Bool
is_iceberg_auth AuthType.basic = false
is_iceberg_auth AuthType.s3 = false
is_iceberg_auth AuthType.samba = false
is_iceberg_auth _ = true

-- `connection_and_auth_data_match`: whether it lets the request pass.
unfoldable pub connection_and_auth_data_match : IcebergData → AuthType → Bool
unfolding auth_type_name
connection_and_auth_data_match iceberg_rest_s3_direct a =
    contains (codes "s3") (codes (auth_type_name a))
connection_and_auth_data_match iceberg_rest_s3_delegated a =
    not (contains (codes "s3") (codes (auth_type_name a)))

-- Whether a request of this class passes the validators of the whole request.
unfoldable pub is_accepted : CreateConnection → Bool
unfolding connection_and_auth_data_match
is_accepted (CreateConnection.iceberg d a) = is_iceberg_auth a && connection_and_auth_data_match d a
is_accepted _ = true

-- `connection_data.data.model_dump(mode="json")`
unfoldable pub dump_data : CreateConnection → (String → Json) → Dict
unfolding with_port data_schema
dump_data CreateConnection.s3 attribute = model_dump s3_data (with_port attribute)
dump_data c attribute = model_dump (data_schema c) attribute
