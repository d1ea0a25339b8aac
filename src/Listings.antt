-- ===== src/Listings.antt =====
-- The listings of queues, connections, transfers and runs: `paginate` of
-- syncmaster/db/repositories/queue.py and connection.py, and the handlers read_queues,
-- read_connections, read_transfers and read_runs of syncmaster/server/api/v1. The order of the rows
-- and the search vectors are those of the database.
pub mod Shown
use syncmaster.Access.{is_none}
use syncmaster.Runs.{RunFilter}
use syncmaster.Transfers.{TransferFilter, transfer_model}
use syncmaster.Connections.Api.{ReadConnection}
use syncmaster.Session.{M, gets, ◌>>◌, ◌>>=◌, raise_if, pure}
use syncmaster.Errors.{ConnectionType, type_eq, group_not_found, transfer_not_found}
use syncmaster.Db.{Connection, Queue, Run, Transfer, User}
use syncmaster.Prelude.{
  List, Option, String, ℕ, Bool, none, true, ◌∷◌, [], some, if◌then◌else◌, str_eq, any, keep, ◌||◌,
  ◌==◌, ◌&&◌, map, is_empty,
}
use syncmaster.Credentials.{Fernet, Auth, read_schema}
use mathlib.Core.Option
use syncmaster.Queues
use syncmaster.Connections
use syncmaster.Credentials
use syncmaster.Transfers
use syncmaster.Runs
use syncmaster.Pagination.{Pagination, paginate}
use syncmaster.Access

-- `if search_query:`
abbrev pub searched : {A : Type 0} → (String → A → Bool) → Option String → A → Bool
searched matches none row = true
searched matches (some search_query) row = str_eq search_query "" || matches search_query row

unfoldable pub paginate_queues :
    (String → Queue → Bool)
    → (List Queue → List Queue)
    → ℕ
    → ℕ
    → ℕ
    → Option String
    → M (Pagination Queue)
paginate_queues matches order page page_size group_id search_query = gets (λ db.
    paginate
      (order (keep (λ q. q.group_id == group_id && searched matches search_query q) db.queues)) page
      page_size)

unfoldable pub read_queues :
    (String → Queue → Bool)
    → (List Queue → List Queue)
    → ℕ
    → User
    → ℕ
    → ℕ
    → Option String
    → M (Pagination Queue)
read_queues matches order group_id current_user page page_size search_query = do
  resource_role ← Queues.get_group_permission current_user group_id
  raise_if (is_none resource_role) group_not_found
  paginate_queues matches order page page_size group_id search_query

-- `Connection.type.in_(connection_type)`
abbrev pub of_types : Option (List ConnectionType) → Connection → Bool
of_types none c = true
of_types (some types) c = any (type_eq c.type) types

unfoldable pub paginate_connections :
    (String → Connection → Bool)
    → (List Connection → List Connection)
    → ℕ
    → ℕ
    → ℕ
    → Option String
    → Option (List ConnectionType)
    → M (Pagination Connection)
paginate_connections matches order page page_size group_id search_query connection_type =
    gets (λ db.
      paginate
        (order (
          keep
            (λ c.
              c.group_id == group_id
              && searched matches search_query c
              && of_types connection_type c)
            db.connections))
        page page_size)

-- `credentials.get(item.id, None)`
abbrev pub credentials_of : ℕ → List (ℕ × Auth) → Option Auth
credentials_of cid [] = none
credentials_of cid ((k, a) ∷ rest) = if k == cid then some a else credentials_of cid rest

-- An item of the page, with the read schema of the credentials.
abbrev pub item_of : List (ℕ × Auth) → Connection → ReadConnection
item_of credentials c = record {
  connection = c;
  auth_data = Option.map read_schema (credentials_of c.id credentials);
}

abbrev pub items_of :
    Pagination Connection → List (ℕ × Auth) → List ReadConnection × Pagination Connection
items_of pagination credentials = (map (item_of credentials) pagination.items, pagination)

-- `if pagination.items:`
abbrev pub with_credentials :
    Fernet → Pagination Connection → M (List ReadConnection × Pagination Connection)
with_credentials fernet pagination = if is_empty pagination.items then pure ([], pagination) else do
  credentials ← Credentials.read_bulk fernet (map (λ c. c.id) pagination.items)
  pure (items_of pagination credentials)

unfoldable pub read_connections :
    Fernet
    → (String → Connection → Bool)
    → (List Connection → List Connection)
    → ℕ
    → User
    → ℕ
    → ℕ
    → Option (List ConnectionType)
    → Option String
    → M (List ReadConnection × Pagination Connection)
read_connections fernet matches order group_id current_user page page_size type search_query = do
  resource_role ← Access.get_group_permission current_user group_id
  raise_if (is_none resource_role) group_not_found
  pagination ← paginate_connections matches order page page_size group_id search_query type
  with_credentials fernet pagination

unfoldable pub read_transfers :
    (List Transfer → List Transfer) → ℕ → User → ℕ → ℕ → TransferFilter → M (Pagination Transfer)
read_transfers order group_id current_user page page_size filters = do
  resource_role ← Access.get_group_permission current_user group_id
  raise_if (is_none resource_role) group_not_found
  Transfers.paginate order page page_size group_id filters

unfoldable pub read_runs : (List Run → List Run) → ℕ → User → ℕ → ℕ → RunFilter → M (Pagination Run)
read_runs order transfer_id current_user page page_size filters = do
  resource_rule ← Access.get_resource_permission transfer_model current_user transfer_id
  raise_if (is_none resource_rule) transfer_not_found
  Runs.paginate order transfer_id page page_size filters
