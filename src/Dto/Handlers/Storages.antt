-- ===== src/Dto/Handlers/Storages.antt =====
-- The parts of `get_handler` for connections to storages of files.
use syncmaster.Dto.Handlers.Made.{Fits, dump_auth, file_object, stores_files, file_dto_lem}
use syncmaster.Schemas.Transfers.{dump_params}
use syncmaster.Errors.{Side, source, target}
use syncmaster.Dto.Transfers.{FormatClass, get_file_format, dict_of, erase}
use syncmaster.Db.Json.{Json, Dict, Fields}
use syncmaster.Dto.{returned, Outcome}
use syncmaster.Dto.Handlers.{merge, entry_of}
use syncmaster.Schemas.Auth.{create_auth_schema}
use syncmaster.Schemas.Connections.{
  CreateConnection, dump_data, connection_type, auth_type, type_name, data_schema,
}
use syncmaster.Prelude.{String, ◌≡◌, refl, true}

module _ (parse_obj : FormatClass → Dict → Outcome Json) (loads : String → Outcome Json)
    (catalog_name : String) (attribute secret param : String → Json) (format : Fields) where
  module _ (parsed : Json)
      (accepted : get_file_format parse_obj loads (dict_of format) ≡ returned parsed) where
    pub storages :
        (c : CreateConnection) (side : Side)
        → stores_files c ≡ true
        → Fits parse_obj loads catalog_name attribute secret param format c side
    unfolding entry_of merge dump_data dump_auth dump_params data_schema create_auth_schema
        connection_type type_name auth_type erase
    storages CreateConnection.ftp source _ = (
      _,
      _,
      _,
      file_object "ftp" source param parsed,
      refl,
      refl,
      refl,
      refl,
      refl,
      refl,
      refl,
      refl,
      file_dto_lem parse_obj loads catalog_name param format "ftp" parsed accepted source,
      refl,
    )
    storages CreateConnection.ftp target _ = (
      _,
      _,
      _,
      file_object "ftp" target param parsed,
      refl,
      refl,
      refl,
      refl,
      refl,
      refl,
      refl,
      refl,
      file_dto_lem parse_obj loads catalog_name param format "ftp" parsed accepted target,
      refl,
    )
    storages CreateConnection.ftps source _ = (
      _,
      _,
      _,
      file_object "ftps" source param parsed,
      refl,
      refl,
      refl,
      refl,
      refl,
      refl,
      refl,
      refl,
      file_dto_lem parse_obj loads catalog_name param format "ftps" parsed accepted source,
      refl,
    )
    storages CreateConnection.ftps target _ = (
      _,
      _,
      _,
      file_object "ftps" target param parsed,
      refl,
      refl,
      refl,
      refl,
      refl,
      refl,
      refl,
      refl,
      file_dto_lem parse_obj loads catalog_name param format "ftps" parsed accepted target,
      refl,
    )
    storages CreateConnection.sftp source _ = (
      _,
      _,
      _,
      file_object "sftp" source param parsed,
      refl,
      refl,
      refl,
      refl,
      refl,
      refl,
      refl,
      refl,
      file_dto_lem parse_obj loads catalog_name param format "sftp" parsed accepted source,
      refl,
    )
    storages CreateConnection.sftp target _ = (
      _,
      _,
      _,
      file_object "sftp" target param parsed,
      refl,
      refl,
      refl,
      refl,
      refl,
      refl,
      refl,
      refl,
      file_dto_lem parse_obj loads catalog_name param format "sftp" parsed accepted target,
      refl,
    )
    storages CreateConnection.hdfs source _ = (
      _,
      _,
      _,
      file_object "hdfs" source param parsed,
      refl,
      refl,
      refl,
      refl,
      refl,
      refl,
      refl,
      refl,
      file_dto_lem parse_obj loads catalog_name param format "hdfs" parsed accepted source,
      refl,
    )
    storages CreateConnection.hdfs target _ = (
      _,
      _,
      _,
      file_object "hdfs" target param parsed,
      refl,
      refl,
      refl,
      refl,
      refl,
      refl,
      refl,
      refl,
      file_dto_lem parse_obj loads catalog_name param format "hdfs" parsed accepted target,
      refl,
    )
    storages CreateConnection.s3 source _ = (
      _,
      _,
      _,
      file_object "s3" source param parsed,
      refl,
      refl,
      refl,
      refl,
      refl,
      refl,
      refl,
      refl,
      file_dto_lem parse_obj loads catalog_name param format "s3" parsed accepted source,
      refl,
    )
    storages CreateConnection.s3 target _ = (
      _,
      _,
      _,
      file_object "s3" target param parsed,
      refl,
      refl,
      refl,
      refl,
      refl,
      refl,
      refl,
      refl,
      file_dto_lem parse_obj loads catalog_name param format "s3" parsed accepted target,
      refl,
    )
    storages CreateConnection.samba source _ = (
      _,
      _,
      _,
      file_object "samba" source param parsed,
      refl,
      refl,
      refl,
      refl,
      refl,
      refl,
      refl,
      refl,
      file_dto_lem parse_obj loads catalog_name param format "samba" parsed accepted source,
      refl,
    )
    storages CreateConnection.samba target _ = (
      _,
      _,
      _,
      file_object "samba" target param parsed,
      refl,
      refl,
      refl,
      refl,
      refl,
      refl,
      refl,
      refl,
      file_dto_lem parse_obj loads catalog_name param format "samba" parsed accepted target,
      refl,
    )
    storages CreateConnection.webdav source _ = (
      _,
      _,
      _,
      file_object "webdav" source param parsed,
      refl,
      refl,
      refl,
      refl,
      refl,
      refl,
      refl,
      refl,
      file_dto_lem parse_obj loads catalog_name param format "webdav" parsed accepted source,
      refl,
    )
    storages CreateConnection.webdav target _ = (
      _,
      _,
      _,
      file_object "webdav" target param parsed,
      refl,
      refl,
      refl,
      refl,
      refl,
      refl,
      refl,
      refl,
      file_dto_lem parse_obj loads catalog_name param format "webdav" parsed accepted target,
      refl,
    )
    storages CreateConnection.postgres side h = absurd (cc h)
    storages CreateConnection.clickhouse side h = absurd (cc h)
    storages CreateConnection.mssql side h = absurd (cc h)
    storages CreateConnection.mysql side h = absurd (cc h)
    storages CreateConnection.oracle side h = absurd (cc h)
    storages CreateConnection.hive side h = absurd (cc h)
    storages (CreateConnection.iceberg _ _) side h = absurd (cc h)
