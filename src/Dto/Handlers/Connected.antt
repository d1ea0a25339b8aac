-- ===== src/Dto/Handlers/Connected.antt =====
-- The handlers of a transfer find the data and the credentials of the request when they connect.
use syncmaster.Db.Json.{Json, Dict, Fields}
use syncmaster.Dto.{Outcome, returned, lookup, Dto}
use syncmaster.Dto.Transfers.{FormatClass}
use syncmaster.Dto.Handlers.{RunDto, Handler, get_handler}
use syncmaster.Dto.Handlers.Accepted.{Columns, args_of, TakesFormat, get_handler-IsFor}
use syncmaster.Dto.Handlers.Made.{dump_auth, Holds, names, attributes_of}
use syncmaster.Dto.Handlers.Connect.{
  connect, connect_with, calls_of, Argument, shaped, with_trust, is_path, arguments_with, Call,
  attribute, constant,
}
use syncmaster.Dto.Handlers.Wanted.{wanted_calls, trusting, names_path}
use syncmaster.Errors.{Side}
use syncmaster.Schemas.{Accepts, admits, is_object}
use syncmaster.Schemas.Auth.{create_auth_schema}
use syncmaster.Schemas.Transfers.{dump_params}
use syncmaster.Schemas.Connections.{
  CreateConnection, data_schema, is_accepted, dump_data, auth_type, connection_type,
}
use syncmaster.Prelude.{
  String, Option, Bool, ◌≡◌, true, false, some, List, [], ◌∷◌, any, str_eq, if◌then◌else◌, refl,
  arith, ◌∙◌,
}

abbrev pub is_iceberg : CreateConnection → Bool
is_iceberg (CreateConnection.iceberg _ _) = true
is_iceberg _ = false

-- What the requests gave under a name: a credential, or a part of the data.
abbrev pub given : CreateConnection → (String → Json) → (String → Json) → String → Json
given c payload secret name =
    if any (str_eq name) (names (create_auth_schema (auth_type c)))
    then secret name
    else attributes_of c payload name

-- Every attribute that the arguments read was given.
abbrev Reads : (String → Option Json) → (String → Json) → List Argument → Type 0
Reads read value [] = Unit
Reads read value (attribute name source shape ∷ args) =
    (read source ≡ some (value source)) × Reads read value args
Reads read value (constant name v ∷ args) = Reads read value args

abbrev AllRead : (String → Option Json) → (String → Json) → List Call → Type 0
AllRead read value [] = Unit
AllRead read value (c ∷ calls) = Reads read value c.arguments × AllRead read value calls

module _ (read : String → Option Json) (value : String → Json) where
  arguments_with-value :
      (args : List Argument)
      → Reads read value args
      → arguments_with read args ≡ arguments_with (λ name. some (value name)) args
  arguments_with-value [] r = refl
  arguments_with-value (attribute name source shape ∷ args) (e, r) =
      rw (e, arguments_with-value args r) refl
  arguments_with-value (constant name v ∷ args) r = rw (arguments_with-value args r) refl

  connect_with-value :
      (calls : List Call)
      → AllRead read value calls
      → connect_with read calls ≡ connect_with (λ name. some (value name)) calls
  unfolding connect_with
  connect_with-value [] r = refl
  connect_with-value (c ∷ calls) (e, r) =
      rw (arguments_with-value c.arguments e, connect_with-value calls r) refl

Holds-AllRead :
    (c : CreateConnection) (payload secret : String → Json) (o : Dto)
    → is_iceberg c ≡ false
    → Holds (names (data_schema c)) (attributes_of c payload) o
    → Holds (names (create_auth_schema (auth_type c))) secret o
    → AllRead
        (λ name. lookup name o.attributes)
        (given c payload secret)
        (calls_of (connection_type c))
unfolding data_schema create_auth_schema connection_type auth_type
Holds-AllRead CreateConnection.postgres a s o i d k = ground arith
Holds-AllRead CreateConnection.clickhouse a s o i d k = ground arith
Holds-AllRead CreateConnection.mssql a s o i d k = ground arith
Holds-AllRead CreateConnection.mysql a s o i d k = ground arith
Holds-AllRead CreateConnection.oracle a s o i d k = ground arith
Holds-AllRead CreateConnection.hive a s o i d k = ground arith
Holds-AllRead CreateConnection.ftp a s o i d k = ground arith
Holds-AllRead CreateConnection.ftps a s o i d k = ground arith
Holds-AllRead CreateConnection.sftp a s o i d k = ground arith
Holds-AllRead CreateConnection.hdfs a s o i d k = ground arith
Holds-AllRead CreateConnection.s3 a s o i d k = ground arith
Holds-AllRead CreateConnection.samba a s o i d k = ground arith
Holds-AllRead CreateConnection.webdav a s o i d k = ground arith
Holds-AllRead (CreateConnection.iceberg _ _) a s o i d k = absurd (cc i)

-- `{"trustServerCertificate": "true", **extra}`
trust-shaped : (j : Json) → is_object j ≡ true → shaped with_trust j ≡ some (trusting j)
unfolding trusting
trust-shaped (Json.obj fields) h = refl
trust-shaped Json.null h = absurd (cc h)
trust-shaped (Json.bool _) h = absurd (cc h)
trust-shaped (Json.int _) h = absurd (cc h)
trust-shaped (Json.num _) h = absurd (cc h)
trust-shaped (Json.str _) h = absurd (cc h)
trust-shaped (Json.arr _) h = absurd (cc h)

path-shaped : (j : Json) → shaped is_path j ≡ some (Json.bool (names_path j))
path-shaped (Json.obj _) = refl
path-shaped Json.null = refl
path-shaped (Json.bool _) = refl
path-shaped (Json.int _) = refl
path-shaped (Json.num _) = refl
path-shaped (Json.str _) = refl
path-shaped (Json.arr _) = refl

-- The values that were given are the arguments that are wanted.
given-wanted :
    (c : CreateConnection) (payload secret : String → Json)
    → is_iceberg c ≡ false
    → Accepts (data_schema c) payload
    → connect_with (λ name. some (given c payload secret name)) (calls_of (connection_type c))
      ≡ some (wanted_calls c payload secret)
unfolding data_schema create_auth_schema connection_type auth_type connect_with admits wanted_calls
    syncmaster.Schemas.Storages.with_port
given-wanted CreateConnection.postgres a s other fits = refl
given-wanted CreateConnection.clickhouse a s other fits = refl
given-wanted CreateConnection.mssql a s other (_, (_, (_, (p, _)))) =
    rw (trust-shaped (a "additional_params") p) refl
given-wanted CreateConnection.mysql a s other fits = refl
given-wanted CreateConnection.oracle a s other fits = refl
given-wanted CreateConnection.hive a s other fits = refl
given-wanted CreateConnection.ftp a s other fits = refl
given-wanted CreateConnection.ftps a s other fits = refl
given-wanted CreateConnection.sftp a s other fits = refl
given-wanted CreateConnection.hdfs a s other fits = refl
given-wanted CreateConnection.s3 a s other fits = rw (path-shaped (a "bucket_style")) refl
given-wanted CreateConnection.samba a s other fits = refl
given-wanted CreateConnection.webdav a s other fits = refl
given-wanted (CreateConnection.iceberg _ _) a s other fits = absurd (cc other)

module _ (parse_obj : FormatClass → Dict → Outcome Json) (loads : String → Outcome Json)
    (catalog_name : String) where
  -- If the schemas accept the requests and the parser takes the format of the files, a handler other
  -- than that of Iceberg connects: no attribute is missing, and the classes of the library are called
  -- with the arguments that their keywords ask for. The keywords of the credentials get the secret of
  -- that name, `database` the database and `extra` the additional parameters, after the certificate
  -- entry for SQL Server; `path_style_access` tells whether the style of the bucket is `path`,
  -- compression and verification are off, and any other keyword gets the datum of its name, the port
  -- of S3 as the validator left it.
  pub get_handler-connects :
      (payload secret param : String → Json) (format : Fields) (c : CreateConnection) (side : Side)
      (t : Columns) (run : RunDto)
      → is_accepted c ≡ true
      → TakesFormat parse_obj loads catalog_name c format
      → Accepts (data_schema c) payload
      → is_iceberg c ≡ false
      → (h : Handler) × (merged : Dict) × (get_handler parse_obj loads catalog_name
            (dump_data c payload)
            (dump_auth (auth_type c) secret)
            (dump_params c side param format)
            (args_of t)
            run
          ≡ returned (h, merged))
        × (connect h ≡ some (wanted_calls c payload secret))
  unfolding connect
  get_handler-connects payload secret param format c side t run accepted taken fits other =
      let (h, merged, made, _, is_for) =
        get_handler-IsFor parse_obj loads catalog_name payload secret param format c side t run
          accepted taken in
      let found : connect h
          ≡ connect_with (λ name. some (given c payload secret name))
              (calls_of (connection_type c)) =
        rw is_for.class_of_type (
          connect_with-value (λ name. lookup name h.connection_dto.attributes)
            (given c payload secret) (calls_of (connection_type c))
            (Holds-AllRead c payload secret h.connection_dto other is_for.given_data
              is_for.credentials)) in
      (h, merged, made, found ∙ given-wanted c payload secret other fits)
