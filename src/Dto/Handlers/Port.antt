-- ===== src/Dto/Handlers/Port.antt =====
-- The port of a connection, from the request to the worker: the constraints of the schemas of
-- syncmaster/schemas/v1/connections and the validator of S3.
use syncmaster.Schemas.Transfers.{dump_params}
use syncmaster.Dto.Handlers.{RunDto, Handler, get_handler}
use syncmaster.Errors.{Side}
use syncmaster.Dto.{Dto, lookup, Outcome, returned}
use syncmaster.Dto.Transfers.{FormatClass}
use syncmaster.Schemas.Storages.{validate_port, with_port}
use syncmaster.Schemas.{admits, is_port, Kind, Accepts}
use syncmaster.Db.Json.{Json, Dict, Fields}
use syncmaster.Schemas.Connections.{
  CreateConnection, data_schema, iceberg_rest_s3_direct, iceberg_rest_s3_delegated, is_accepted,
  dump_data, auth_type,
}
use syncmaster.Prelude.{
  Option, some, ◌<◌, String, ◌≡◌, true, ◌≤◌, arith, Bool-cases, str_eq, inl, inr,
}
use syncmaster.Dto.Handlers.Accepted.{Columns, args_of, TakesFormat, get_handler-IsFor}
use syncmaster.Dto.Handlers.Made.{dump_auth, Holds, names, attributes_of}

abbrev pub InRange : Option Json → Type 0
InRange (some (Json.int n)) = (0 < n) × (n ≤ 65535)
InRange _ = ⊥

abbrev pub InRangeOrNone : Option Json → Type 0
InRangeOrNone (some Json.null) = Unit
InRangeOrNone (some (Json.int n)) = (0 < n) × (n ≤ 65535)
InRangeOrNone _ = ⊥

-- What the worker may expect of the ports of a connection.
abbrev pub Ports : CreateConnection → Dto → Type 0
Ports CreateConnection.postgres o = InRange (lookup "port" o.attributes)
Ports CreateConnection.clickhouse o = InRange (lookup "port" o.attributes)
Ports CreateConnection.mssql o = InRange (lookup "port" o.attributes)
Ports CreateConnection.mysql o = InRange (lookup "port" o.attributes)
Ports CreateConnection.oracle o = InRange (lookup "port" o.attributes)
Ports CreateConnection.hive o = Unit
Ports CreateConnection.ftp o = InRange (lookup "port" o.attributes)
Ports CreateConnection.ftps o = InRange (lookup "port" o.attributes)
Ports CreateConnection.sftp o = InRange (lookup "port" o.attributes)
Ports CreateConnection.hdfs o = Unit
Ports CreateConnection.s3 o = InRange (lookup "port" o.attributes)
Ports CreateConnection.samba o = InRangeOrNone (lookup "port" o.attributes)
Ports CreateConnection.webdav o = InRangeOrNone (lookup "port" o.attributes)
Ports (CreateConnection.iceberg iceberg_rest_s3_direct _) o =
    InRangeOrNone (lookup "s3_port" o.attributes)
Ports (CreateConnection.iceberg iceberg_rest_s3_delegated _) o = Unit

is_port-InRange : (j : Json) → is_port j ≡ true → InRange (some j)
is_port-InRange (Json.int n) h = ground arith
is_port-InRange Json.null h = absurd (cc h)
is_port-InRange (Json.bool _) h = absurd (cc h)
is_port-InRange (Json.num _) h = absurd (cc h)
is_port-InRange (Json.str _) h = absurd (cc h)
is_port-InRange (Json.arr _) h = absurd (cc h)
is_port-InRange (Json.obj _) h = absurd (cc h)

optional-InRangeOrNone : (j : Json) → admits Kind.optional_port j ≡ true → InRangeOrNone (some j)
unfolding admits
optional-InRangeOrNone (Json.int n) h = ground arith
optional-InRangeOrNone Json.null h = tt
optional-InRangeOrNone (Json.bool _) h = absurd (cc h)
optional-InRangeOrNone (Json.num _) h = absurd (cc h)
optional-InRangeOrNone (Json.str _) h = absurd (cc h)
optional-InRangeOrNone (Json.arr _) h = absurd (cc h)
optional-InRangeOrNone (Json.obj _) h = absurd (cc h)

-- The validator of S3 leaves no port open.
validate_port-InRange :
    (port protocol : Json)
    → admits Kind.optional_port port ≡ true
    → InRange (some (validate_port port protocol))
unfolding validate_port admits
validate_port-InRange (Json.int n) protocol h = ground arith
validate_port-InRange Json.null (Json.str protocol) h =
    elim (Bool-cases (str_eq protocol "https")) [
      | inl e ↦ rw e (omega arith)
      | inr e ↦ rw e (omega arith)
    ]
validate_port-InRange Json.null Json.null h = omega arith
validate_port-InRange Json.null (Json.bool _) h = omega arith
validate_port-InRange Json.null (Json.int _) h = omega arith
validate_port-InRange Json.null (Json.num _) h = omega arith
validate_port-InRange Json.null (Json.arr _) h = omega arith
validate_port-InRange Json.null (Json.obj _) h = omega arith
validate_port-InRange (Json.bool _) protocol h = absurd (cc h)
validate_port-InRange (Json.num _) protocol h = absurd (cc h)
validate_port-InRange (Json.str _) protocol h = absurd (cc h)
validate_port-InRange (Json.arr _) protocol h = absurd (cc h)
validate_port-InRange (Json.obj _) protocol h = absurd (cc h)

Holds-Ports :
    (c : CreateConnection) (attribute : String → Json) (o : Dto)
    → Accepts (data_schema c) attribute
    → Holds (names (data_schema c)) (attributes_of c attribute) o
    → Ports c o
unfolding data_schema with_port admits
Holds-Ports CreateConnection.postgres attribute o (_, (p, _)) values =
    let e : lookup "port" o.attributes ≡ some (attribute "port") = cc in
    rw e (is_port-InRange (attribute "port") p)
Holds-Ports CreateConnection.clickhouse attribute o (_, (p, _)) values =
    let e : lookup "port" o.attributes ≡ some (attribute "port") = cc in
    rw e (is_port-InRange (attribute "port") p)
Holds-Ports CreateConnection.mssql attribute o (_, (p, _)) values =
    let e : lookup "port" o.attributes ≡ some (attribute "port") = cc in
    rw e (is_port-InRange (attribute "port") p)
Holds-Ports CreateConnection.mysql attribute o (_, (p, _)) values =
    let e : lookup "port" o.attributes ≡ some (attribute "port") = cc in
    rw e (is_port-InRange (attribute "port") p)
Holds-Ports CreateConnection.oracle attribute o (_, (p, _)) values =
    let e : lookup "port" o.attributes ≡ some (attribute "port") = cc in
    rw e (is_port-InRange (attribute "port") p)
Holds-Ports CreateConnection.hive attribute o fits values = tt
Holds-Ports CreateConnection.ftp attribute o (_, (p, _)) values =
    let e : lookup "port" o.attributes ≡ some (attribute "port") = cc in
    rw e (is_port-InRange (attribute "port") p)
Holds-Ports CreateConnection.ftps attribute o (_, (p, _)) values =
    let e : lookup "port" o.attributes ≡ some (attribute "port") = cc in
    rw e (is_port-InRange (attribute "port") p)
Holds-Ports CreateConnection.sftp attribute o (_, (p, _)) values =
    let e : lookup "port" o.attributes ≡ some (attribute "port") = cc in
    rw e (is_port-InRange (attribute "port") p)
Holds-Ports CreateConnection.hdfs attribute o fits values = tt
Holds-Ports CreateConnection.s3 attribute o (_, (_, (_, (_, (p, _))))) values =
    let e : lookup "port" o.attributes
        ≡ some (validate_port (attribute "port") (attribute "protocol")) =
      cc in
    rw e (validate_port-InRange (attribute "port") (attribute "protocol") p)
Holds-Ports CreateConnection.samba attribute o (_, (_, (p, _))) values =
    let e : lookup "port" o.attributes ≡ some (attribute "port") = cc in
    rw e (optional-InRangeOrNone (attribute "port") p)
Holds-Ports CreateConnection.webdav attribute o (_, (p, _)) values =
    let e : lookup "port" o.attributes ≡ some (attribute "port") = cc in
    rw e (optional-InRangeOrNone (attribute "port") p)
Holds-Ports (CreateConnection.iceberg iceberg_rest_s3_direct _) attribute o
      (_, (_, (_, (_, (p, _))))) values =
    let e : lookup "s3_port" o.attributes ≡ some (attribute "s3_port") = cc in
    rw e (optional-InRangeOrNone (attribute "s3_port") p)
Holds-Ports (CreateConnection.iceberg iceberg_rest_s3_delegated _) attribute o fits values = tt

module _ (parse_obj : FormatClass → Dict → Outcome Json) (loads : String → Outcome Json)
    (catalog_name : String) where
  -- The port with which a handler connects is between 1 and 65535, whatever request created the
  -- connection; only for Samba, WebDAV and the storage behind an Iceberg catalog it can be None,
  -- which leaves the choice to the library: for S3 the validator has filled it in.
  pub get_handler-Ports :
      (attribute secret param : String → Json) (format : Fields) (c : CreateConnection)
      (side : Side) (t : Columns) (run : RunDto)
      → is_accepted c ≡ true
      → TakesFormat parse_obj loads catalog_name c format
      → Accepts (data_schema c) attribute
      → (h : Handler) × (merged : Dict) × (get_handler parse_obj loads catalog_name
            (dump_data c attribute)
            (dump_auth (auth_type c) secret)
            (dump_params c side param format)
            (args_of t)
            run
          ≡ returned (h, merged))
        × Ports c h.connection_dto
  get_handler-Ports attribute secret param format c side t run accepted taken fits =
      let (h, merged, made, _, is_for) =
        get_handler-IsFor parse_obj loads catalog_name attribute secret param format c side t run
          accepted taken in
      (h, merged, made, Holds-Ports c attribute h.connection_dto fits is_for.given_data)
