-- ===== src/Queues.antt =====
-- syncmaster/db/repositories/queue.py
pub mod Slug
pub mod Statements
pub mod Api
pub mod Deletion
pub mod Creation
use syncmaster.Prelude.Tables.{get}
use syncmaster.Session.{
  M, gets, except_map, map_integrity, map_entity, map_no_result, one, ◌>>◌, ◌>>=◌, pure,
}
use syncmaster.Prelude.{ℕ, String, List, nat_eq, Text, codes}
use syncmaster.Errors.{
  Constraint, SyncmasterError, duplicated_queue_name, entity_not_found, queue_not_found,
  syncmaster_error, uq__queue__slug,
}
use syncmaster.Db.{GroupMemberRole, Queue, User, maintainer, queue_key}
use Slug.{slug}
use Statements.{insert_queue, update_queue_row, delete_queue_row}
use syncmaster.Access.{
  Owned, Permission, read, get_group_permission_with, get_resource_permission_with,
}
use syncmaster.Access

-- The model of the repository, for the queries that `RepositoryWithOwner` makes.
abbrev pub queue_model : Owned Queue
queue_model = record { rows = λ db. db.queues; id = λ q. q.id; group_id = λ q. q.group_id }

unfoldable pub raise_error : Constraint → SyncmasterError
raise_error uq__queue__slug = duplicated_queue_name
raise_error _ = syncmaster_error

-- `CreateQueueSchema`
pub record QueueData : Type 0 where
  pub name : String
  pub group_id : ℕ
  pub description : String

-- The computed field of `CreateQueueSchema`, which `model_dump` puts into the dictionary.
abbrev pub slug_of : QueueData → Text
slug_of q = slug q.group_id (codes q.name)

unfoldable pub create : QueueData → M Queue
create q =
    except_map (map_integrity raise_error)
      (insert_queue q.name (slug_of q) q.group_id q.description)

unfoldable pub read_by_id : ℕ → M Queue
read_by_id qid =
    except_map (map_no_result queue_not_found) (do one (← gets (λ db. get queue_key qid db.queues)))

unfoldable pub update : ℕ → String → String → M Queue
update qid name description =
    except_map (map_integrity raise_error)
      (except_map (map_no_result entity_not_found) (update_queue_row qid name description))

unfoldable pub delete : ℕ → M Unit
delete qid =
    except_map (map_entity queue_not_found)
      (except_map (map_no_result queue_not_found) (do delete_queue_row qid; pure tt))

-- The last statements of both permission queries: a developer may only read.
unfoldable pub queue_policy : GroupMemberRole → Permission
queue_policy maintainer = Access.delete
queue_policy _ = read

unfoldable pub get_group_permission : User → ℕ → M Permission
get_group_permission = get_group_permission_with queue_policy

unfoldable pub get_resource_permission : User → ℕ → M Permission
get_resource_permission u qid = gets (get_resource_permission_with queue_model queue_policy u qid)
