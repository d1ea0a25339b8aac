-- ===== src/Transfers/Kept.antt =====
-- What the handlers of syncmaster/server/api/v1/transfers.py leave runnable.
use syncmaster.Access.{
  get_group_permission, get_resource_permission, Owned, below, write, is_none, delete,
}
use syncmaster.Errors.{
  action_not_allowed, transfer_not_found, connection_not_found, entity_not_found,
  different_transfer_and_queue_group,
}
use syncmaster.Access.States.{get_group_permission-state, get_resource_permission_lem}
use syncmaster.Connections
use syncmaster.Connections.{connection_model}
use syncmaster.Queues
use syncmaster.Transfers
use syncmaster.Transfers.{transfer_model, raise_error}
use syncmaster.Db.{Db, Transfer, User, Queue, Connection}
use syncmaster.Session.{pure, rollback, map_integrity, map_no_result, map_entity}
use syncmaster.Session.Keeps.{
  Keeps, same-Keeps, bind-Keeps, guarded-Keeps, then-Keeps, if-Keeps, except_map-Keeps,
  unit_of_work-Keeps,
}
use syncmaster.Transfers.Api.{
  TransferBody, CopyBody, create_transfer, copy_transfer, update_transfer, delete_transfer,
  check_body, copy_between, copy_all,
}
use syncmaster.Transfers.Consistency.{check_body-ok}
use syncmaster.Prelude.{ℕ, String, Option, ◌≡◌, refl, arith, ◌||◌, not, nat_eq, ◌==◌, ◌&&◌}
use syncmaster.Transfers.Rows.{
  AllRunnable, ValuesRunnable, connection-rows, same_rows-Keeps, insert-Keeps, update-Keeps,
  delete-Keeps, copy-Keeps,
}

back-AllRunnable : (before after : Db) → AllRunnable before → AllRunnable (rollback before after)
back-AllRunnable before after a = a

connection_read-rows :
    (cid : ℕ) (db : Db) → (Connections.read_by_id cid db).1.transfers ≡ db.transfers
unfolding Connections.read_by_id
connection_read-rows cid db = ground arith

read_connection-Keeps : (cid : ℕ) → Keeps AllRunnable (Connections.read_by_id cid)
read_connection-Keeps cid = same_rows-Keeps (Connections.read_by_id cid) (connection_read-rows cid)

queue_read-rows : (qid : ℕ) (db : Db) → (Queues.read_by_id qid db).1.transfers ≡ db.transfers
unfolding Queues.read_by_id
queue_read-rows qid db = ground arith

read_queue-Keeps : (qid : ℕ) → Keeps AllRunnable (Queues.read_by_id qid)
read_queue-Keeps qid = same_rows-Keeps (Queues.read_by_id qid) (queue_read-rows qid)

transfer_read-rows : (tid : ℕ) (db : Db) → (Transfers.read_by_id tid db).1.transfers ≡ db.transfers
unfolding Transfers.read_by_id
transfer_read-rows tid db = ground arith

read_transfer-Keeps : (tid : ℕ) → Keeps AllRunnable (Transfers.read_by_id tid)
read_transfer-Keeps tid = same_rows-Keeps (Transfers.read_by_id tid) (transfer_read-rows tid)

check_body-Keeps :
    (body : TransferBody) (d s : Connection) (q : Queue) → Keeps AllRunnable (check_body body d s q)
check_body-Keeps body d s q =
    same-Keeps AllRunnable (check_body body d s q) (λ db. (check_body-ok body d s q db).0)

module _ (u : User) where
  group-Keeps : (gid : ℕ) → Keeps AllRunnable (get_group_permission u gid)
  group-Keeps gid =
      same-Keeps AllRunnable (get_group_permission u gid) (get_group_permission-state u gid)

  resource-Keeps :
      {Row : Type 0} (model : Owned Row) (rid : ℕ)
      → Keeps AllRunnable (get_resource_permission model u rid)
  resource-Keeps model rid =
      same_rows-Keeps (get_resource_permission model u rid)
        (λ db. rw (get_resource_permission_lem model u rid db) refl)

  pub create_transfer-Keeps :
      (body : TransferBody)
      → ValuesRunnable body.values
      → Keeps AllRunnable (create_transfer u body)
  unfolding create_transfer Transfers.create
  create_transfer-Keeps body p = bind-Keeps AllRunnable (group-Keeps body.group_id) λ permission.
      guarded-Keeps AllRunnable (below permission write) action_not_allowed (
        bind-Keeps AllRunnable (read_connection-Keeps body.values.target_connection_id) λ d.
          bind-Keeps AllRunnable (read_connection-Keeps body.values.source_connection_id) λ s.
            bind-Keeps AllRunnable (read_queue-Keeps body.values.queue_id) λ q.
              bind-Keeps AllRunnable (check_body-Keeps body d s q) λ _.
                unit_of_work-Keeps AllRunnable back-AllRunnable (
                  except_map-Keeps AllRunnable (map_integrity raise_error)
                    (insert-Keeps body.group_id body.values p)))

  pub update_transfer-Keeps :
      (tid : ℕ) (body : TransferBody)
      → ValuesRunnable body.values
      → Keeps AllRunnable (update_transfer u tid body)
  unfolding update_transfer Transfers.update
  update_transfer-Keeps tid body p =
      bind-Keeps AllRunnable (resource-Keeps transfer_model tid) λ role.
        guarded-Keeps AllRunnable (is_none role) transfer_not_found (
          guarded-Keeps AllRunnable (below role write) action_not_allowed (
            bind-Keeps AllRunnable (read_connection-Keeps body.values.target_connection_id) λ d.
              bind-Keeps AllRunnable (read_connection-Keeps body.values.source_connection_id) λ s.
                bind-Keeps AllRunnable (read_queue-Keeps body.values.queue_id) λ q.
                  bind-Keeps AllRunnable (resource-Keeps connection_model d.id) λ d_role.
                    bind-Keeps AllRunnable (resource-Keeps connection_model s.id) λ s_role.
                      guarded-Keeps AllRunnable (is_none s_role || is_none d_role)
                        connection_not_found
                        (bind-Keeps AllRunnable (check_body-Keeps body d s q) λ _.
                          unit_of_work-Keeps AllRunnable back-AllRunnable (
                            except_map-Keeps AllRunnable (map_integrity raise_error) (
                              except_map-Keeps AllRunnable (map_no_result entity_not_found)
                                (update-Keeps tid body.values p))))))

  removed-Keeps : (tid : ℕ) → Keeps AllRunnable (Transfers.delete tid)
  unfolding Transfers.delete
  removed-Keeps tid = except_map-Keeps AllRunnable (map_entity transfer_not_found) (
      except_map-Keeps AllRunnable (map_no_result transfer_not_found) (
        bind-Keeps AllRunnable (delete-Keeps tid)
          λ _. same-Keeps AllRunnable (pure tt) (λ db. refl)))

  pub delete_transfer-Keeps : (tid : ℕ) → Keeps AllRunnable (delete_transfer u tid)
  unfolding delete_transfer
  delete_transfer-Keeps tid = bind-Keeps AllRunnable (resource-Keeps transfer_model tid) λ role.
      guarded-Keeps AllRunnable (is_none role) transfer_not_found (
        guarded-Keeps AllRunnable (below role delete) action_not_allowed
          (unit_of_work-Keeps AllRunnable back-AllRunnable (removed-Keeps tid)))

  copy_connection-Keeps :
      (cid gid : ℕ) (name : Option String) → Keeps AllRunnable (Connections.copy cid gid name)
  copy_connection-Keeps cid gid name =
      same_rows-Keeps (Connections.copy cid gid name) (connection-rows cid gid name)

  copy_between-Keeps :
      (tid : ℕ) (body : CopyBody) (s d : Connection) → Keeps AllRunnable (copy_between tid body s d)
  unfolding Transfers.copy
  copy_between-Keeps tid body s d =
      bind-Keeps AllRunnable
        (except_map-Keeps AllRunnable (map_integrity raise_error)
          (copy-Keeps tid body.new_queue_id body.new_group_id s.id d.id body.new_name))
        λ copied.
          then-Keeps AllRunnable
            (if-Keeps AllRunnable body.remove_source (removed-Keeps tid)
              (same-Keeps AllRunnable (pure tt) (λ db. refl)))
            (same-Keeps AllRunnable (pure copied) (λ db. refl))

  copy_all-Keeps :
      (tid : ℕ) (transfer : Transfer) (body : CopyBody)
      → Keeps AllRunnable (copy_all tid transfer body)
  unfolding copy_all
  copy_all-Keeps tid transfer body =
      bind-Keeps AllRunnable
        (copy_connection-Keeps transfer.source_connection_id body.new_group_id
          body.new_source_connection_name)
        λ s.
          bind-Keeps AllRunnable
            (if-Keeps AllRunnable
              (not (transfer.source_connection_id == transfer.target_connection_id))
              (copy_connection-Keeps transfer.target_connection_id body.new_group_id
                body.new_target_connection_name)
              (same-Keeps AllRunnable (pure s) (λ db. refl)))
            λ d. copy_between-Keeps tid body s d

  pub copy_transfer-Keeps :
      (tid : ℕ) (body : CopyBody) → Keeps AllRunnable (copy_transfer u tid body)
  unfolding copy_transfer
  copy_transfer-Keeps tid body = bind-Keeps AllRunnable (resource-Keeps transfer_model tid) λ role.
      guarded-Keeps AllRunnable (is_none role) transfer_not_found (
        guarded-Keeps AllRunnable (body.remove_source && below role delete) action_not_allowed (
          bind-Keeps AllRunnable (group-Keeps body.new_group_id) λ group_role.
            guarded-Keeps AllRunnable (below group_role write) action_not_allowed (
              bind-Keeps AllRunnable (read_transfer-Keeps tid) λ transfer.
                bind-Keeps AllRunnable
                  (resource-Keeps connection_model transfer.source_connection_id)
                  λ s_role. guarded-Keeps AllRunnable (is_none s_role) connection_not_found (
                    bind-Keeps AllRunnable
                      (resource-Keeps connection_model transfer.target_connection_id)
                      λ d_role. guarded-Keeps AllRunnable (is_none d_role) connection_not_found (
                        bind-Keeps AllRunnable (read_queue-Keeps body.new_queue_id) λ q.
                          guarded-Keeps AllRunnable (not (q.group_id == body.new_group_id))
                            different_transfer_and_queue_group
                            (unit_of_work-Keeps AllRunnable back-AllRunnable
                              (copy_all-Keeps tid transfer body)))))))
