-- ===== src/Schemas/Databases.antt =====
-- The data of a connection to a database: the data schemas of syncmaster/schemas/v1/connections.
use syncmaster.Schemas.{SchemaField, Kind, field}
use syncmaster.Prelude.{List, ◌∷◌, []}

abbrev pub postgres_data : List SchemaField
postgres_data =
    field "host" Kind.text
    ∷ field "port" Kind.port
    ∷ field "database_name" Kind.text
    ∷ field "additional_params" Kind.params
    ∷ []

abbrev pub clickhouse_data : List SchemaField
clickhouse_data =
    field "host" Kind.text
    ∷ field "port" Kind.port
    ∷ field "database_name" Kind.optional_text
    ∷ field "additional_params" Kind.params
    ∷ []

abbrev pub mssql_data : List SchemaField
mssql_data =
    field "host" Kind.text
    ∷ field "port" Kind.port
    ∷ field "database_name" Kind.text
    ∷ field "additional_params" Kind.params
    ∷ []

abbrev pub mysql_data : List SchemaField
mysql_data =
    field "host" Kind.text
    ∷ field "port" Kind.port
    ∷ field "database_name" Kind.optional_text
    ∷ field "additional_params" Kind.params
    ∷ []

abbrev pub oracle_data : List SchemaField
oracle_data =
    field "host" Kind.text
    ∷ field "port" Kind.port
    ∷ field "service_name" Kind.optional_text
    ∷ field "sid" Kind.optional_text
    ∷ field "additional_params" Kind.params
    ∷ []

abbrev pub hive_data : List SchemaField
hive_data = field "cluster" Kind.text ∷ []

-- `IcebergRESTCatalogS3DirectConnectionDataSchema`
abbrev pub iceberg_direct_data : List SchemaField
iceberg_direct_data =
    field "type" (Kind.one_of ("iceberg_rest_s3_direct" ∷ []))
    ∷ field "rest_catalog_url" Kind.url
    ∷ field "s3_warehouse_path" Kind.text
    ∷ field "s3_host" Kind.text
    ∷ field "s3_port" Kind.optional_port
    ∷ field "s3_protocol" (Kind.one_of ("http" ∷ "https" ∷ []))
    ∷ field "s3_bucket" Kind.text
    ∷ field "s3_region" Kind.text
    ∷ field "s3_bucket_style" (Kind.one_of ("domain" ∷ "path" ∷ []))
    ∷ field "s3_additional_params" Kind.params
    ∷ []

-- `IcebergRESTCatalogS3DelegatedConnectionDataSchema`
abbrev pub iceberg_delegated_data : List SchemaField
iceberg_delegated_data =
    field "type" (Kind.one_of ("iceberg_rest_s3_delegated" ∷ []))
    ∷ field "rest_catalog_url" Kind.url
    ∷ field "s3_warehouse_name" Kind.optional_text
    ∷ field "s3_access_delegation" (Kind.one_of ("vended-credentials" ∷ "remote-signing" ∷ []))
    ∷ []
