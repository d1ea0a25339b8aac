-- ===== src/Schemas/Storages.antt =====
-- The data of a connection to a storage of files: the data schemas of
-- syncmaster/schemas/v1/connections.
use syncmaster.Db.Json.{Json}
use syncmaster.Schemas.{SchemaField, Kind, field}
use syncmaster.Prelude.{List, ◌∷◌, [], String, str_eq, if◌then◌else◌}

abbrev pub ftp_data : List SchemaField
ftp_data = field "host" Kind.text ∷ field "port" Kind.port ∷ []

abbrev pub ftps_data : List SchemaField
ftps_data = field "host" Kind.text ∷ field "port" Kind.port ∷ []

abbrev pub sftp_data : List SchemaField
sftp_data = field "host" Kind.text ∷ field "port" Kind.port ∷ []

abbrev pub hdfs_data : List SchemaField
hdfs_data = field "cluster" Kind.text ∷ []

-- `ReadS3ConnectionDataSchema`
abbrev pub s3_data : List SchemaField
s3_data =
    field "host" Kind.text
    ∷ field "bucket" Kind.text
    ∷ field "protocol" (Kind.one_of ("http" ∷ "https" ∷ []))
    ∷ field "region" Kind.text
    ∷ field "port" Kind.optional_port
    ∷ field "bucket_style" (Kind.one_of ("domain" ∷ "path" ∷ []))
    ∷ field "additional_params" Kind.params
    ∷ []

abbrev pub samba_data : List SchemaField
samba_data =
    field "host" Kind.text
    ∷ field "share" Kind.text
    ∷ field "port" Kind.optional_port
    ∷ field "protocol" (Kind.one_of ("SMB" ∷ "NetBIOS" ∷ []))
    ∷ field "domain" Kind.text
    ∷ []

abbrev pub webdav_data : List SchemaField
webdav_data =
    field "host" Kind.text
    ∷ field "port" Kind.optional_port
    ∷ field "protocol" (Kind.one_of ("http" ∷ "https" ∷ []))
    ∷ []

-- `443 if protocol == "https" else 80`
abbrev default_port : Json → Json
default_port (Json.str protocol) = Json.int (if str_eq protocol "https" then 443 else 80)
default_port _ = Json.int 80

-- `validate_port` of `CreateS3ConnectionDataSchema`
unfoldable pub validate_port : Json → Json → Json
validate_port Json.null protocol = default_port protocol
validate_port port protocol = port

-- The attributes of a `CreateS3ConnectionDataSchema`, from those before the validator of the port.
unfoldable pub with_port : (String → Json) → String → Json
unfolding validate_port
with_port attribute name =
    if str_eq name "port"
    then validate_port (attribute "port") (attribute "protocol")
    else attribute name
