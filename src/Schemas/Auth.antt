-- ===== src/Schemas/Auth.antt =====
-- The schemas of credentials, as they are created: syncmaster/schemas/v1/auth. An update allows
-- `None` for a secret, which the handler fills in before it stores the credentials.
use syncmaster.Credentials.{AuthType}
use syncmaster.Schemas.{SchemaField, Kind, field}
use syncmaster.Prelude.{List, ◌∷◌, [], String}

-- `CreateBasicAuthSchema`
abbrev pub basic_auth : List SchemaField
basic_auth = field "user" Kind.text ∷ field "password" Kind.text ∷ []

-- `CreateS3AuthSchema`
abbrev pub s3_auth : List SchemaField
s3_auth = field "access_key" Kind.text ∷ field "secret_key" Kind.text ∷ []

-- `CreateSambaAuthSchema`
abbrev pub samba_auth : List SchemaField
samba_auth =
    field "user" Kind.text
    ∷ field "auth_type" (Kind.one_of ("NTLMv1" ∷ "NTLMv2" ∷ []))
    ∷ field "password" Kind.text
    ∷ []

-- `CreateIcebergRESTCatalogBearerAuthSchema`
abbrev pub bearer_auth : List SchemaField
bearer_auth = field "rest_catalog_token" Kind.text ∷ []

-- `CreateIcebergRESTCatalogOAuth2ClientCredentialsAuthSchema`
abbrev pub oauth2_auth : List SchemaField
oauth2_auth =
    field "rest_catalog_oauth2_client_id" Kind.text
    ∷ field "rest_catalog_oauth2_scopes" Kind.texts
    ∷ field "rest_catalog_oauth2_resource" Kind.optional_text
    ∷ field "rest_catalog_oauth2_audience" Kind.optional_text
    ∷ field "rest_catalog_oauth2_token_endpoint" Kind.optional_url
    ∷ field "rest_catalog_oauth2_client_secret" Kind.text
    ∷ []

-- `CreateIcebergRESTCatalogBearerS3BasicAuthSchema`
abbrev pub bearer_s3_auth : List SchemaField
bearer_s3_auth =
    field "s3_access_key" Kind.text
    ∷ field "rest_catalog_token" Kind.text
    ∷ field "s3_secret_key" Kind.text
    ∷ []

-- `CreateIcebergRESTCatalogOAuth2ClientCredentialsS3BasicAuthSchema`
abbrev pub oauth2_s3_auth : List SchemaField
oauth2_s3_auth =
    field "rest_catalog_oauth2_client_id" Kind.text
    ∷ field "rest_catalog_oauth2_scopes" Kind.texts
    ∷ field "rest_catalog_oauth2_resource" Kind.optional_text
    ∷ field "rest_catalog_oauth2_audience" Kind.optional_text
    ∷ field "rest_catalog_oauth2_token_endpoint" Kind.optional_text
    ∷ field "s3_access_key" Kind.text
    ∷ field "rest_catalog_oauth2_client_secret" Kind.text
    ∷ field "s3_secret_key" Kind.text
    ∷ []

unfoldable pub create_auth_schema : AuthType → List SchemaField
create_auth_schema AuthType.basic = basic_auth
create_auth_schema AuthType.s3 = s3_auth
create_auth_schema AuthType.samba = samba_auth
create_auth_schema AuthType.iceberg_rest_bearer = bearer_auth
create_auth_schema AuthType.iceberg_rest_oauth2_client_credentials = oauth2_auth
create_auth_schema AuthType.iceberg_rest_bearer_s3_basic = bearer_s3_auth
create_auth_schema AuthType.iceberg_rest_oauth2_client_credentials_s3_basic = oauth2_s3_auth

-- The `Literal` of the field `type`.
unfoldable pub auth_type_name : AuthType → String
auth_type_name AuthType.basic = "basic"
auth_type_name AuthType.s3 = "s3"
auth_type_name AuthType.samba = "samba"
auth_type_name AuthType.iceberg_rest_bearer = "iceberg_rest_bearer"
auth_type_name AuthType.iceberg_rest_oauth2_client_credentials =
    "iceberg_rest_oauth2_client_credentials"
auth_type_name AuthType.iceberg_rest_bearer_s3_basic = "iceberg_rest_bearer_s3_basic"
auth_type_name AuthType.iceberg_rest_oauth2_client_credentials_s3_basic =
    "iceberg_rest_oauth2_client_credentials_s3_basic"
