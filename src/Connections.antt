-- ===== src/Connections.antt =====
-- syncmaster/db/repositories/connection.py
pub mod Statements
pub mod Api
pub mod Copies
pub mod Secrets
pub mod Shown
use syncmaster.Repository.{or_origin}
use syncmaster.Prelude.Tables.{get}
use syncmaster.Db.Json.{Json}
use syncmaster.Session.{
  M, except_map, map_integrity, map_entity, map_no_result, one, ◌>>=◌, ◌>>◌, pure, gets,
}
use syncmaster.Prelude.{ℕ, Option, String, nat_eq}
use syncmaster.Errors.{
  Constraint, SyncmasterError, ConnectionType, group_not_found, duplicated_connection_name,
  entity_not_found, connection_not_found, syncmaster_error, fk__connection__group_id__group,
  uq__connection__name_group_id,
}
use syncmaster.Db.{Connection, connection_key}
use Statements.{insert_connection, update_connection_row, delete_connection_row}
use syncmaster.Access.{Owned, get_resource_permission_with}

abbrev pub connection_model : Owned Connection
connection_model = record {
  rows = λ db. db.connections;
  id = λ c. c.id;
  group_id = λ c. c.group_id;
}

unfoldable pub raise_error : Constraint → SyncmasterError
raise_error fk__connection__group_id__group = group_not_found
raise_error uq__connection__name_group_id = duplicated_connection_name
raise_error _ = syncmaster_error

unfoldable pub read_by_id : ℕ → M Connection
read_by_id cid =
    except_map (map_no_result connection_not_found)
      (do one (← gets (λ db. get connection_key cid db.connections)))

unfoldable pub create : ℕ → ConnectionType → String → String → Json → M Connection
create gid type name description payload =
    except_map (map_integrity raise_error) (insert_connection gid type name description payload)

unfoldable pub update : ℕ → String → ConnectionType → String → Json → M Connection
update cid name type description payload = except_map (map_integrity raise_error) (
    except_map (map_no_result entity_not_found)
      (update_connection_row cid name type description payload))

unfoldable pub delete : ℕ → M Unit
delete cid =
    except_map (map_entity connection_not_found)
      (except_map (map_no_result connection_not_found) (do delete_connection_row cid; pure tt))

-- `ConnectionRepository.copy`, by way of `Repository._copy`: the columns of the origin, with the new
-- group and, if there is one, the new name.
unfoldable pub copy : ℕ → ℕ → Option String → M Connection
copy cid new_group_id new_name = except_map (map_integrity raise_error) (do
  origin ← one (← gets (λ db. get connection_key cid db.connections))
  insert_connection new_group_id origin.type (or_origin new_name origin.name) origin.description
      origin.payload)
