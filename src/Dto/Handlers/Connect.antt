-- ===== src/Dto/Handlers/Connect.antt =====
-- `connect` of the handlers in syncmaster/worker/handlers, but for Iceberg: the connections that are
-- made, with their keyword arguments. The Spark session, which every one for Spark gets, and what
-- the library does with the arguments are left out.
use syncmaster.Db.Json.{Json, Dict, obj_of}
use syncmaster.Dto.{lookup}
use syncmaster.Dto.Transfers.{dict_of}
use syncmaster.Dto.Handlers.{Handler, update}
use syncmaster.Errors.{ConnectionType}
use syncmaster.Prelude.{List, String, Option, false, some, none, [], ◌∷◌, str_eq}

-- How an attribute of the data object becomes an argument: as it is, compared with "path", or after
-- the entry that SQL Server needs.
pub data Shape : Type 0 where
  plain is_path with_trust : Shape

pub data Argument : Type 0 where
  attribute : String → String → Shape → Argument
  constant : String → Json → Argument

-- A call of a class with keyword arguments.
pub record Call : Type 0 where
  pub class : String
  pub arguments : List Argument

pub record Connected : Type 0 where
  pub class : String
  pub arguments : Dict

abbrev same : String → Argument
same name = attribute name name plain

-- `{"trustServerCertificate": "true", **value}`, with `none` where it raises.
abbrev pub shaped : Shape → Json → Option Json
shaped plain v = some v
shaped is_path (Json.str s) = some (Json.bool (str_eq s "path"))
shaped is_path _ = some (Json.bool false)
shaped with_trust (Json.obj fields) =
    some (obj_of (update (("trustServerCertificate", Json.str "true") ∷ []) (dict_of fields)))
shaped with_trust _ = none

abbrev call : String → List Argument → Call
call class arguments = record { class = class; arguments = arguments }

abbrev local_fs : Call
local_fs = call "SparkLocalFS" []

abbrev clickhouse_calls : List Call
clickhouse_calls =
    call "Clickhouse" (
      same "host"
      ∷ same "port"
      ∷ same "user"
      ∷ attribute "database" "database_name" plain
      ∷ same "password"
      ∷ attribute "extra" "additional_params" plain
      ∷ [])
    ∷ []

abbrev hive_calls : List Call
hive_calls = call "Hive" (same "cluster" ∷ []) ∷ []

abbrev mssql_calls : List Call
mssql_calls =
    call "MSSQL" (
      same "host"
      ∷ same "port"
      ∷ same "user"
      ∷ same "password"
      ∷ attribute "database" "database_name" plain
      ∷ attribute "extra" "additional_params" with_trust
      ∷ [])
    ∷ []

abbrev mysql_calls : List Call
mysql_calls =
    call "MySQL" (
      same "host"
      ∷ same "port"
      ∷ same "user"
      ∷ same "password"
      ∷ attribute "database" "database_name" plain
      ∷ attribute "extra" "additional_params" plain
      ∷ [])
    ∷ []

abbrev oracle_calls : List Call
oracle_calls =
    call "Oracle" (
      same "host"
      ∷ same "port"
      ∷ same "user"
      ∷ same "password"
      ∷ same "sid"
      ∷ same "service_name"
      ∷ attribute "extra" "additional_params" plain
      ∷ [])
    ∷ []

abbrev postgres_calls : List Call
postgres_calls =
    call "Postgres" (
      same "host"
      ∷ same "user"
      ∷ same "password"
      ∷ same "port"
      ∷ attribute "database" "database_name" plain
      ∷ attribute "extra" "additional_params" plain
      ∷ [])
    ∷ []

abbrev host_and_user : List Argument
host_and_user = same "host" ∷ same "port" ∷ same "user" ∷ same "password" ∷ []

abbrev ftp_calls : List Call
ftp_calls = call "FTP" host_and_user ∷ local_fs ∷ []

abbrev ftps_calls : List Call
ftps_calls = call "FTPS" host_and_user ∷ local_fs ∷ []

abbrev sftp_calls : List Call
sftp_calls =
    call "SFTP" (
      same "host"
      ∷ same "port"
      ∷ same "user"
      ∷ same "password"
      ∷ constant "compress" (Json.bool false)
      ∷ [])
    ∷ local_fs
    ∷ []

abbrev hdfs_calls : List Call
hdfs_calls =
    call "SparkHDFS" (same "cluster" ∷ [])
    ∷ call "HDFS" (same "cluster" ∷ same "user" ∷ same "password" ∷ [])
    ∷ []

abbrev s3_calls : List Call
s3_calls =
    call "SparkS3" (
      same "host"
      ∷ same "port"
      ∷ same "access_key"
      ∷ same "secret_key"
      ∷ same "bucket"
      ∷ attribute "path_style_access" "bucket_style" is_path
      ∷ same "protocol"
      ∷ same "region"
      ∷ attribute "extra" "additional_params" plain
      ∷ [])
    ∷ call "S3" (
        same "host"
        ∷ same "port"
        ∷ same "access_key"
        ∷ same "secret_key"
        ∷ same "bucket"
        ∷ same "protocol"
        ∷ same "region"
        ∷ [])
    ∷ []

abbrev samba_calls : List Call
samba_calls =
    call "Samba" (
      same "host"
      ∷ same "port"
      ∷ same "share"
      ∷ same "protocol"
      ∷ same "domain"
      ∷ same "user"
      ∷ same "password"
      ∷ same "auth_type"
      ∷ [])
    ∷ local_fs
    ∷ []

abbrev webdav_calls : List Call
webdav_calls =
    call "WebDAV" (
      same "host"
      ∷ same "port"
      ∷ same "protocol"
      ∷ same "user"
      ∷ same "password"
      ∷ constant "ssl_verify" (Json.bool false)
      ∷ [])
    ∷ local_fs
    ∷ []

abbrev pub calls_of : ConnectionType → List Call
calls_of ConnectionType.clickhouse = clickhouse_calls
calls_of ConnectionType.hive = hive_calls
calls_of ConnectionType.iceberg = []
calls_of ConnectionType.mssql = mssql_calls
calls_of ConnectionType.mysql = mysql_calls
calls_of ConnectionType.oracle = oracle_calls
calls_of ConnectionType.postgres = postgres_calls
calls_of ConnectionType.ftp = ftp_calls
calls_of ConnectionType.ftps = ftps_calls
calls_of ConnectionType.sftp = sftp_calls
calls_of ConnectionType.hdfs = hdfs_calls
calls_of ConnectionType.s3 = s3_calls
calls_of ConnectionType.samba = samba_calls
calls_of ConnectionType.webdav = webdav_calls

abbrev keyword : String → Option Json → Option Dict → Option Dict
keyword name (some v) (some d) = some ((name, v) ∷ d)
keyword name _ _ = none

abbrev shaped_as : Shape → Option Json → Option Json
shaped_as shape none = none
shaped_as shape (some v) = shaped shape v

-- The arguments, read left to right; `none` is the `AttributeError` of an attribute that is missing.
abbrev pub arguments_with : (String → Option Json) → List Argument → Option Dict
arguments_with read [] = some []
arguments_with read (attribute name source shape ∷ args) =
    keyword name (shaped_as shape (read source)) (arguments_with read args)
arguments_with read (constant name v ∷ args) = keyword name (some v) (arguments_with read args)

abbrev connection : String → Option Dict → Option (List Connected) → Option (List Connected)
connection class (some d) (some made) = some (record { class = class; arguments = d } ∷ made)
connection class _ _ = none

unfoldable pub connect_with : (String → Option Json) → List Call → Option (List Connected)
unfolding update
connect_with read [] = some []
connect_with read (c ∷ calls) =
    connection c.class (arguments_with read c.arguments) (connect_with read calls)

-- `connect`
unfoldable pub connect : Handler → Option (List Connected)
unfolding connect_with
connect h =
    connect_with (λ name. lookup name h.connection_dto.attributes) (calls_of h.handler_class)
