-- ===== src/Transfers.antt =====
-- syncmaster/db/repositories/transfer.py
pub mod Statements
pub mod Api
pub mod Bodies
pub mod Runnable
pub mod Rows
pub mod Kept
pub mod Requests
pub mod Consistency
pub mod Regroup
pub mod Copying
use syncmaster.Prelude.Tables.{get}
use syncmaster.Pagination.{Pagination}
use syncmaster.Session.{
  M, gets, except_map, map_no_result, map_entity, map_integrity, one, ◌>>◌, ◌>>=◌, pure,
}
use syncmaster.Prelude.{
  ℕ, none, List, Option, keep, String, Bool, true, ◌==◌, ◌&&◌, nat_eq, some, ◌||◌, any, not, false,
}
use syncmaster.Errors.{
  Constraint, ConnectionType, SyncmasterError, group_not_found, connection_not_found,
  queue_not_found, transfer_not_found, entity_not_found, duplicated_transfer_name, type_eq,
  syncmaster_error, fk__transfer__group_id__group, fk__transfer__source_connection_id__connection,
  fk__transfer__target_connection_id__connection, fk__transfer__queue_id__queue,
  uq__transfer__name_group_id,
}
use syncmaster.Db.{Transfer, Db, Connection, transfer_key}
use syncmaster.Pagination
use Statements.{
  insert_transfer, update_transfer_row, delete_transfer_row, copy_transfer_row, TransferValues,
}
use syncmaster.Access.{Owned}

abbrev pub transfer_model : Owned Transfer
transfer_model = record { rows = λ db. db.transfers; id = λ t. t.id; group_id = λ t. t.group_id }

unfoldable pub raise_error : Constraint → SyncmasterError
raise_error fk__transfer__group_id__group = group_not_found
raise_error fk__transfer__source_connection_id__connection = connection_not_found
raise_error fk__transfer__target_connection_id__connection = connection_not_found
raise_error fk__transfer__queue_id__queue = queue_not_found
raise_error uq__transfer__name_group_id = duplicated_transfer_name
raise_error _ = syncmaster_error

-- The filters of `paginate`, the search query apart.
pub record TransferFilter : Type 0 where
  pub source_connection_id : Option ℕ
  pub target_connection_id : Option ℕ
  pub queue_id : Option ℕ
  pub is_scheduled : Option Bool
  pub source_connection_type : Option (List ConnectionType)
  pub target_connection_type : Option (List ConnectionType)

abbrev pub no_filter : TransferFilter
no_filter = record {
  source_connection_id = none;
  target_connection_id = none;
  queue_id = none;
  is_scheduled = none;
  source_connection_type = none;
  target_connection_type = none;
}

abbrev matches : Option ℕ → ℕ → Bool
matches none k = true
matches (some j) k = k == j

abbrev matches_flag : Option Bool → Bool → Bool
matches_flag none b = true
matches_flag (some true) b = b
matches_flag (some false) b = not b

-- The join of a connection, with the test on its type.
abbrev matches_type : Option (List ConnectionType) → ℕ → List Connection → Bool
matches_type none cid cs = true
matches_type (some types) cid cs = any (λ c. c.id == cid && any (type_eq c.type) types) cs

-- The rows that `paginate` finds, before they are ordered.
unfoldable pub select_transfers : ℕ → TransferFilter → Db → List Transfer
select_transfers gid f db =
    keep
      (λ t.
        t.group_id == gid
        && matches f.source_connection_id t.source_connection_id
        && matches f.target_connection_id t.target_connection_id
        && matches f.queue_id t.queue_id
        && matches_flag f.is_scheduled t.is_scheduled
        && matches_type f.source_connection_type t.source_connection_id db.connections
        && matches_type f.target_connection_type t.target_connection_id db.connections)
      db.transfers

-- `order` is the order by name, which the collation of the database gives.
unfoldable pub paginate :
    (List Transfer → List Transfer) → ℕ → ℕ → ℕ → TransferFilter → M (Pagination Transfer)
paginate order page page_size gid f =
    gets (λ db. Pagination.paginate (order (select_transfers gid f db)) page page_size)

unfoldable pub read_by_id : ℕ → M Transfer
read_by_id tid =
    except_map (map_no_result transfer_not_found)
      (do one (← gets (λ db. get transfer_key tid db.transfers)))

unfoldable pub create : ℕ → TransferValues → M Transfer
create gid v = except_map (map_integrity raise_error) (insert_transfer gid v)

unfoldable pub update : ℕ → TransferValues → M Transfer
update tid v =
    except_map (map_integrity raise_error)
      (except_map (map_no_result entity_not_found) (update_transfer_row tid v))

unfoldable pub delete : ℕ → M Unit
delete tid =
    except_map (map_entity transfer_not_found)
      (except_map (map_no_result transfer_not_found) (do delete_transfer_row tid; pure tt))

-- `TransferRepository.copy`, by way of `Repository._copy`
unfoldable pub copy : ℕ → ℕ → ℕ → ℕ → ℕ → Option String → M Transfer
copy tid new_queue_id new_group_id new_source_connection new_target_connection new_name =
    except_map (map_integrity raise_error) (
      copy_transfer_row tid new_queue_id new_group_id new_source_connection new_target_connection
        new_name)

unfoldable pub list_by_connection_id : ℕ → M (List Transfer)
list_by_connection_id cid =
    gets (λ db.
      keep (λ t. t.source_connection_id == cid || t.target_connection_id == cid) db.transfers)
