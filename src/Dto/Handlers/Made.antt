-- ===== src/Dto/Handlers/Made.antt =====
-- What the schemas of syncmaster/schemas/v1 accept, the data objects of the worker take.
use syncmaster.Schemas.Transfers.{dump_params, directory_params}
use syncmaster.Errors.{Side, source, target}
use syncmaster.Schemas.Storages.{with_port}
use syncmaster.Dto.Transfers.{FormatClass, get_file_format, dict_of, erase, partitions_post_init}
use syncmaster.Credentials.{AuthType, assign}
use syncmaster.Db.Json.{Json, Dict, Fields}
use syncmaster.Dto.{returned, Outcome, Dto, lookup, construct}
use syncmaster.Dto.Handlers.{merge, Entry, entry_of, file_dto, repeats}
use syncmaster.Schemas.{model_dump, SchemaField}
use syncmaster.Schemas.Auth.{create_auth_schema, auth_type_name}
use syncmaster.Schemas.Connections.{
  CreateConnection, dump_data, connection_type, auth_type, type_name, data_schema,
}
use syncmaster.Prelude.{
  String, ◌∷◌, ◌≡◌, refl, List, Bool, true, [], if◌then◌else◌, keep, false, map, not, some, str_eq,
}

-- The credentials of a connection as they are stored, with their type.
unfoldable pub dump_auth : AuthType → (String → Json) → Dict
unfolding create_auth_schema auth_type_name
dump_auth a secret =
    ("type", Json.str (auth_type_name a)) ∷ model_dump (create_auth_schema a) secret

-- The attributes of the validated model.
abbrev pub attributes_of : CreateConnection → (String → Json) → String → Json
attributes_of CreateConnection.s3 attribute = with_port attribute
attributes_of c attribute = attribute

abbrev pub names : List SchemaField → List String
names schema = keep (λ n. not (str_eq n "type")) (map (λ (f : SchemaField). f.name) schema)

-- Whether an object has the values under these names.
abbrev pub Holds : List String → (String → Json) → Dto → Type 0
Holds ns value o = map (λ n. lookup n o.attributes) ns ≡ map (λ n. some (value n)) ns

abbrev pub stores_files : CreateConnection → Bool
stores_files CreateConnection.ftp = true
stores_files CreateConnection.ftps = true
stores_files CreateConnection.sftp = true
stores_files CreateConnection.hdfs = true
stores_files CreateConnection.s3 = true
stores_files CreateConnection.samba = true
stores_files CreateConnection.webdav = true
stores_files _ = false

abbrev kept_for : Side → List String
kept_for source = "directory_path" ∷ []
kept_for target = "directory_path" ∷ "file_name_template" ∷ []

-- The names of the parameters that a transfer keeps as they are.
abbrev pub kept_params : CreateConnection → Side → List String
kept_params c side = if stores_files c then kept_for side else "table_name" ∷ []

-- The name template of a file, which a source does not have.
abbrev template_of : Side → (String → Json) → Json
template_of source param = Json.null
template_of target param = param "file_name_template"

-- The data object of a transfer of files, with its parsed format.
abbrev pub file_object : String → Side → (String → Json) → Json → Dto
file_object type side param parsed = record {
  type = type;
  attributes = partitions_post_init (
      ("options", param "options")
      ∷ ("directory_path", param "directory_path")
      ∷ ("file_format", parsed)
      ∷ ("file_name_template", template_of side param)
      ∷ ("df_schema", Json.null)
      ∷ []);
}

module _ (parse_obj : FormatClass → Dict → Outcome Json) (loads : String → Outcome Json)
    (catalog_name : String) (param : String → Json) (format : Fields) (type : String)
    (parsed : Json)
    (accepted : get_file_format parse_obj loads (dict_of format) ≡ returned parsed) where
  pub file_dto_lem :
      (side : Side)
      → file_dto parse_obj loads catalog_name type (directory_params side param format)
        ≡ returned (file_object type side param parsed)
  unfolding construct assign
  file_dto_lem source = rw accepted refl
  file_dto_lem target = rw accepted refl

pub file_object-Holds :
    (type : String) (side : Side) (param : String → Json) (parsed : Json)
    → Holds (kept_for side) param (file_object type side param parsed)
file_object-Holds type source param parsed = refl
file_object-Holds type target param parsed = refl

module _ (parse_obj : FormatClass → Dict → Outcome Json) (loads : String → Outcome Json)
    (catalog_name : String) (attribute secret param : String → Json) (format : Fields) where
  -- How the parts of `get_handler` go: an entry of the right class, the merged dictionary, and the
  -- objects of the connection and of the transfer, with the values that were given.
  abbrev pub Fits : CreateConnection → Side → Type 0
  Fits c side =
      let params = dump_params c side param format in
      (e : Entry parse_obj loads catalog_name) × (merged : Dict) × (o : Dto) × (t : Dto) × (entry_of
          parse_obj loads catalog_name (lookup "type" params)
        ≡ some e)
      × (e.handler ≡ connection_type c)
      × (merge (dump_data c attribute) (dump_auth (auth_type c) secret) ≡ returned merged)
      × (e.connection_dto merged ≡ returned o)
      × (o.type ≡ type_name (connection_type c))
      × Holds (names (data_schema c)) (attributes_of c attribute) o
      × Holds (names (create_auth_schema (auth_type c))) secret o
      × (repeats (erase "type" params) ≡ false)
      × (e.transfer_dto (erase "type" params) ≡ returned t)
      × Holds (kept_params c side) param t
