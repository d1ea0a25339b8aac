-- ===== src/Dto/Handlers/Wanted.antt =====
-- What the data transfer library has to be given for a connection: the classes with their keywords,
-- and one rule from a keyword to a value of the requests, whatever the class.
use syncmaster.Db.Json.{Json, obj_of}
use syncmaster.Dto.Transfers.{dict_of}
use syncmaster.Dto.Handlers.{update}
use syncmaster.Dto.Handlers.Connect.{Connected}
use syncmaster.Dto.Handlers.Made.{attributes_of}
use syncmaster.Schemas.Connections.{CreateConnection}
use syncmaster.Prelude.{Bool, List, String, any, false, if◌then◌else◌, map, str_eq, [], ◌∷◌}

abbrev wanted : CreateConnection → List (String × List String)
wanted CreateConnection.postgres =
    ("Postgres", "host" ∷ "user" ∷ "password" ∷ "port" ∷ "database" ∷ "extra" ∷ []) ∷ []
wanted CreateConnection.clickhouse =
    ("Clickhouse", "host" ∷ "port" ∷ "user" ∷ "database" ∷ "password" ∷ "extra" ∷ []) ∷ []
wanted CreateConnection.mssql =
    ("MSSQL", "host" ∷ "port" ∷ "user" ∷ "password" ∷ "database" ∷ "extra" ∷ []) ∷ []
wanted CreateConnection.mysql =
    ("MySQL", "host" ∷ "port" ∷ "user" ∷ "password" ∷ "database" ∷ "extra" ∷ []) ∷ []
wanted CreateConnection.oracle =
    ("Oracle", "host" ∷ "port" ∷ "user" ∷ "password" ∷ "sid" ∷ "service_name" ∷ "extra" ∷ []) ∷ []
wanted CreateConnection.hive = ("Hive", "cluster" ∷ []) ∷ []
wanted CreateConnection.ftp =
    ("FTP", "host" ∷ "port" ∷ "user" ∷ "password" ∷ []) ∷ ("SparkLocalFS", []) ∷ []
wanted CreateConnection.ftps =
    ("FTPS", "host" ∷ "port" ∷ "user" ∷ "password" ∷ []) ∷ ("SparkLocalFS", []) ∷ []
wanted CreateConnection.sftp =
    ("SFTP", "host" ∷ "port" ∷ "user" ∷ "password" ∷ "compress" ∷ []) ∷ ("SparkLocalFS", []) ∷ []
wanted CreateConnection.hdfs =
    ("SparkHDFS", "cluster" ∷ []) ∷ ("HDFS", "cluster" ∷ "user" ∷ "password" ∷ []) ∷ []
wanted CreateConnection.s3 =
    (
      "SparkS3",
      "host" ∷ "port" ∷ "access_key" ∷ "secret_key" ∷ "bucket" ∷ "path_style_access" ∷ "protocol"
          ∷ "region" ∷ "extra" ∷ [],
    )
    ∷ ("S3", "host" ∷ "port" ∷ "access_key" ∷ "secret_key" ∷ "bucket" ∷ "protocol" ∷ "region" ∷ [])
    ∷ []
wanted CreateConnection.samba =
    (
      "Samba",
      "host" ∷ "port" ∷ "share" ∷ "protocol" ∷ "domain" ∷ "user" ∷ "password" ∷ "auth_type" ∷ [],
    )
    ∷ ("SparkLocalFS", [])
    ∷ []
wanted CreateConnection.webdav =
    ("WebDAV", "host" ∷ "port" ∷ "protocol" ∷ "user" ∷ "password" ∷ "ssl_verify" ∷ [])
    ∷ ("SparkLocalFS", [])
    ∷ []
wanted (CreateConnection.iceberg _ _) = []

-- Additional parameters, after the entry that SQL Server needs.
unfoldable pub trusting : Json → Json
unfolding update
trusting (Json.obj fields) =
    obj_of (update (("trustServerCertificate", Json.str "true") ∷ []) (dict_of fields))
trusting j = j

abbrev pub names_path : Json → Bool
names_path (Json.str style) = str_eq style "path"
names_path _ = false

abbrev extra_of : CreateConnection → Json → Json
extra_of CreateConnection.mssql extra = trusting extra
extra_of _ extra = extra

-- The value for a keyword.
abbrev pub wanted_value : CreateConnection → (String → Json) → (String → Json) → String → Json
wanted_value c payload secret keyword =
    if any (str_eq keyword) ("user" ∷ "password" ∷ "access_key" ∷ "secret_key" ∷ "auth_type" ∷ [])
    then secret keyword
    else if str_eq keyword "database"
    then payload "database_name"
    else if str_eq keyword "extra"
    then extra_of c (payload "additional_params")
    else if str_eq keyword "path_style_access"
    then Json.bool (names_path (payload "bucket_style"))
    else if any (str_eq keyword) ("compress" ∷ "ssl_verify" ∷ [])
    then Json.bool false
    else attributes_of c payload keyword

unfoldable pub wanted_calls : CreateConnection → (String → Json) → (String → Json) → List Connected
wanted_calls c payload secret =
    map
      (λ call. record {
        class = call.0;
        arguments = map (λ keyword. (keyword, wanted_value c payload secret keyword)) call.1;
      })
      (wanted c)
