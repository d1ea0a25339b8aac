-- ===== src/Dto.antt =====
-- The data objects of connections: the dataclasses of syncmaster/dto/connections.py, and what
-- Python does to call one with keyword arguments.
pub mod Transfers
pub mod Handlers
use syncmaster.Db.Json.{Json, Dict, obj_of}
use syncmaster.Prelude.{
  Bool, List, String, Option, true, false, some, none, [], ◌∷◌, ◌++◌, str_eq, any, all, is_some,
  if◌then◌else◌, not, ◌≡◌,
}

-- What a call raises.
pub data Failure : Type 0 where
  type_error key_error value_error validation_error connection_type_not_recognized : Failure

pub data Outcome {ℓ} (A : Type ℓ) : Type ℓ where
  returned : A → Outcome A
  raised : Failure → Outcome A

infixl 5 ◌>>=◌
abbrev pub ◌>>=◌ {ℓ κ} : {A : Type ℓ} {B : Type κ} → Outcome A → (A → Outcome B) → Outcome B
returned a >>= f = f a
raised e >>= f = raised e

pub returned_eq {ℓ} : {A : Type ℓ} (a b : A) → returned a ≡ returned b → a ≡ b
returned_eq a b h = cc

-- `d.get(key)`, with `none` for a key that is not there.
abbrev pub lookup : String → Dict → Option Json
lookup key [] = none
lookup key ((k, v) ∷ d) = if str_eq k key then some v else lookup key d

-- `key in d`
abbrev pub is_in : String → Dict → Bool
is_in key d = is_some (lookup key d)

-- A field of a dataclass, with its default.
pub record Param : Type 0 where
  pub name : String
  pub default : Option Json

abbrev pub required : String → Param
required name = record { name = name; default = none }

abbrev pub optional : String → Json → Param
optional name v = record { name = name; default = some v }

-- A dataclass: the class variable `type`, and the fields with those of its bases.
pub record Dataclass : Type 0 where
  pub type : String
  pub fields : List Param

pub record Dto : Type 0 where
  pub type : String
  pub attributes : Dict

abbrev or_default : Option Json → Option Json → Option Json
or_default (some v) default = some v
or_default none default = default

abbrev prepend : String → Json → Outcome Dict → Outcome Dict
prepend name v (returned d) = returned ((name, v) ∷ d)
prepend name v (raised e) = raised e

abbrev bind_one : String → Option Json → Outcome Dict → Outcome Dict
bind_one name (some v) rest = prepend name v rest
bind_one name none rest = raised type_error

abbrev bind : List Param → Dict → Outcome Dict
bind [] keywords = returned []
bind (p ∷ ps) keywords =
    bind_one p.name (or_default (lookup p.name keywords) p.default) (bind ps keywords)

abbrev is_expected : List Param → Dict → Bool
is_expected ps keywords = all (λ k. any (λ (p : Param). str_eq k.0 p.name) ps) keywords

abbrev object_of : String → Outcome Dict → Outcome Dto
object_of type (returned d) = returned (record { type = type; attributes = d })
object_of type (raised e) = raised e

-- `Class(**keywords)`: an unexpected keyword and a missing argument are a `TypeError`.
unfoldable pub construct : Dataclass → Dict → Outcome Dto
construct c keywords =
    if is_expected c.fields keywords
    then object_of c.type (bind c.fields keywords)
    else raised type_error

abbrev empty_dict : Json
empty_dict = obj_of []

abbrev host_and_user : List Param
host_and_user = required "host" ∷ required "port" ∷ required "user" ∷ required "password" ∷ []

abbrev user_and_cluster : List Param
user_and_cluster = required "user" ∷ required "password" ∷ required "cluster" ∷ []

abbrev pub postgres_connection_dto : Dataclass
postgres_connection_dto = record {
  type = "postgres";
  fields =
      host_and_user ++ (required "database_name" ∷ optional "additional_params" empty_dict ∷ []);
}

abbrev pub clickhouse_connection_dto : Dataclass
clickhouse_connection_dto = record {
  type = "clickhouse";
  fields =
      host_and_user
      ++ (optional "database_name" Json.null ∷ optional "additional_params" empty_dict ∷ []);
}

abbrev pub mssql_connection_dto : Dataclass
mssql_connection_dto = record {
  type = "mssql";
  fields =
      host_and_user ++ (required "database_name" ∷ optional "additional_params" empty_dict ∷ []);
}

abbrev pub mysql_connection_dto : Dataclass
mysql_connection_dto = record {
  type = "mysql";
  fields =
      host_and_user
      ++ (optional "database_name" Json.null ∷ optional "additional_params" empty_dict ∷ []);
}

abbrev pub oracle_connection_dto : Dataclass
oracle_connection_dto = record {
  type = "oracle";
  fields =
      host_and_user
      ++ (optional "additional_params" empty_dict
          ∷ optional "sid" Json.null
          ∷ optional "service_name" Json.null
          ∷ []);
}

abbrev pub hive_connection_dto : Dataclass
hive_connection_dto = record { type = "hive"; fields = user_and_cluster }

abbrev pub hdfs_connection_dto : Dataclass
hdfs_connection_dto = record { type = "hdfs"; fields = user_and_cluster }

abbrev pub s3_connection_dto : Dataclass
s3_connection_dto = record {
  type = "s3";
  fields =
      required "host"
      ∷ required "port"
      ∷ required "access_key"
      ∷ required "secret_key"
      ∷ required "bucket"
      ∷ required "bucket_style"
      ∷ required "region"
      ∷ optional "additional_params" empty_dict
      ∷ optional "protocol" (Json.str "https")
      ∷ [];
}

abbrev pub sftp_connection_dto : Dataclass
sftp_connection_dto = record { type = "sftp"; fields = host_and_user }

abbrev pub ftp_connection_dto : Dataclass
ftp_connection_dto = record { type = "ftp"; fields = host_and_user }

abbrev pub ftps_connection_dto : Dataclass
ftps_connection_dto = record { type = "ftps"; fields = host_and_user }

abbrev pub samba_connection_dto : Dataclass
samba_connection_dto = record {
  type = "samba";
  fields =
      required "host"
      ∷ required "share"
      ∷ required "user"
      ∷ required "password"
      ∷ optional "protocol" (Json.str "SMB")
      ∷ optional "auth_type" (Json.str "NTLMv2")
      ∷ optional "domain" (Json.str "")
      ∷ optional "port" Json.null
      ∷ [];
}

abbrev pub webdav_connection_dto : Dataclass
webdav_connection_dto = record {
  type = "webdav";
  fields = host_and_user ++ (optional "protocol" (Json.str "https") ∷ []);
}

-- `IcebergRESTCatalogS3DirectConnectionBaseDTO`
abbrev s3_direct_fields : List Param
s3_direct_fields =
    required "rest_catalog_url"
    ∷ required "s3_warehouse_path"
    ∷ required "s3_host"
    ∷ required "s3_bucket"
    ∷ required "s3_bucket_style"
    ∷ required "s3_region"
    ∷ required "s3_access_key"
    ∷ required "s3_secret_key"
    ∷ required "s3_port"
    ∷ required "s3_protocol"
    ∷ optional "s3_additional_params" empty_dict
    ∷ []

-- `IcebergRESTCatalogS3DelegatedConnectionBaseDTO`
abbrev s3_delegated_fields : List Param
s3_delegated_fields =
    required "rest_catalog_url"
    ∷ optional "s3_warehouse_name" Json.null
    ∷ optional "s3_access_delegation" (Json.str "vended-credentials")
    ∷ []

-- The fields that the two classes with a token add.
abbrev bearer_fields : List Param
bearer_fields =
    required "rest_catalog_token" ∷ optional "rest_catalog_auth_type" (Json.str "bearer") ∷ []

-- The fields that the two classes with client credentials add.
abbrev client_credentials_fields : List Param
client_credentials_fields =
    required "rest_catalog_oauth2_client_id"
    ∷ required "rest_catalog_oauth2_client_secret"
    ∷ required "rest_catalog_oauth2_scopes"
    ∷ optional "rest_catalog_oauth2_resource" Json.null
    ∷ optional "rest_catalog_oauth2_audience" Json.null
    ∷ optional "rest_catalog_oauth2_token_endpoint" Json.null
    ∷ optional "rest_catalog_auth_type" (Json.str "oauth2")
    ∷ []

abbrev iceberg_class : List Param → Dataclass
iceberg_class fields = record { type = "iceberg"; fields = fields }

unfoldable pub get_iceberg_rest_catalog_s3_direct_connection_dto : Dict → Outcome Dto
unfolding construct
get_iceberg_rest_catalog_s3_direct_connection_dto keywords =
    if is_in "rest_catalog_oauth2_client_id" keywords
    then construct (iceberg_class (s3_direct_fields ++ client_credentials_fields)) keywords
    else construct (iceberg_class (s3_direct_fields ++ bearer_fields)) keywords

unfoldable pub get_iceberg_rest_catalog_s3_delegated_connection_dto : Dict → Outcome Dto
unfolding construct
get_iceberg_rest_catalog_s3_delegated_connection_dto keywords =
    if is_in "rest_catalog_oauth2_client_id" keywords
    then construct (iceberg_class (s3_delegated_fields ++ client_credentials_fields)) keywords
    else construct (iceberg_class (s3_delegated_fields ++ bearer_fields)) keywords

unfoldable pub get_iceberg_connection_dto : Dict → Outcome Dto
unfolding get_iceberg_rest_catalog_s3_direct_connection_dto
    get_iceberg_rest_catalog_s3_delegated_connection_dto
get_iceberg_connection_dto keywords =
    if is_in "s3_warehouse_path" keywords
    then get_iceberg_rest_catalog_s3_direct_connection_dto keywords
    else get_iceberg_rest_catalog_s3_delegated_connection_dto keywords
