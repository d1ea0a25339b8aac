-- ===== src/Queues/Deletion.antt =====
-- `delete_queue` of syncmaster/server/api/v1/queue.py, and the transfers that the foreign key takes
-- along.
use syncmaster.Session.{unit_of_work, is_ok, ok}
use syncmaster.Pagination
use mathlib.Core.Path.{fun_ext}
use syncmaster.Transfers
use syncmaster.Queues.Statements.{delete_queue_row}
use syncmaster.Prelude.{
  List, ℕ, some, ◌≡◌, refl, any, ◌==◌, ◌&&◌, arith, ◌∷◌, nat_eq, [], Bool, ◌≢◌, length, keep, take,
  false, ◌⊎◌, ap, not, none, inl, inr, sym, ◌∙◌,
}
use syncmaster.Db.{Queue, Transfer, Db, queue_key, User}
use syncmaster.Queues
use syncmaster.Queues.Api.{delete_queue}
use syncmaster.Transfers.{select_transfers, no_filter}
use syncmaster.Db.Cascade.{delete_queues, delete_transfers}
use syncmaster.Prelude.Tables.{get, key-get}

get_resource_permission-state :
    (u : User) (qid : ℕ) (db : Db) → (Queues.get_resource_permission u qid db).1 ≡ db
unfolding Queues.get_resource_permission
get_resource_permission-state u qid db = refl

-- The transfers that the handler finds.
abbrev linked : Queue → Db → List Transfer
linked q db = select_transfers q.group_id (record no_filter { queue_id = some q.id }) db

module _ (order : List Transfer → List Transfer) (u : User) (qid : ℕ) (db : Db) (q : Queue)
    (found : get queue_key qid db.queues ≡ some q) where
  delete_queue_lem :
      let r = delete_queue order u qid db in
      ((r.1 ≡ db) × (is_ok r.0 ≡ false))
      ⊎ ((r ≡ (ok tt, delete_queues (λ q. q.id == qid) db))
          × (length (take 1 (order (linked q db))) ≡ 0))
  unfolding delete_queue Queues.read_by_id Queues.delete delete_queue_row Transfers.paginate
      Pagination.paginate unit_of_work
  delete_queue_lem = ground (arith, get_resource_permission-state u qid db)

any-key_ne :
    (k qid : ℕ) (qs : List Queue) → k ≢ qid → any (λ r. r.id == k && r.id == qid) qs ≡ false
any-key_ne k qid [] ne = refl
any-key_ne k qid (r ∷ qs) ne = ground (arith, any-key_ne k qid qs ne)

-- The key of the queue, among the queues that the cascade looks at.
any-key :
    (k qid : ℕ) (qs : List Queue) (q : Queue)
    → get queue_key qid qs ≡ some q
    → any (λ r. r.id == k && r.id == qid) qs ≡ (k == qid)
unfolding get
any-key k qid [] q h = ground arith
any-key k qid (r ∷ qs) q h = ground (arith, any-key k qid qs q, any-key_ne k qid qs)

keep_ext :
    {A : Type 0} (p r : A → Bool) (xs : List A) → ((x : A) → p x ≡ r x) → keep p xs ≡ keep r xs
keep_ext p r xs h = ap (λ f. keep f xs) (fun_ext h)

-- With the order of a page, an empty first page means that no row was found.
no_rows : {A : Type 0} (xs ys : List A) → length ys ≡ length xs → length (take 1 ys) ≡ 0 → xs ≡ []
no_rows [] ys e h = refl
no_rows (x ∷ xs) [] e h = absurd (omega arith)
no_rows (x ∷ xs) (y ∷ ys) e h = absurd (omega arith)

get-keep_other :
    (qid : ℕ) (qs : List Queue) → get queue_key qid (keep (λ q. not (q.id == qid)) qs) ≡ none
unfolding get
get-keep_other qid [] = refl
get-keep_other qid (q ∷ qs) = ground (arith, get-keep_other qid qs)

module _ (qid : ℕ) (db : Db) (q : Queue) (found : get queue_key qid db.queues ≡ some q) where
  delete_queues-transfers :
      (delete_queues (λ q. q.id == qid) db).transfers
      ≡ keep (λ t. not (t.queue_id == qid)) db.transfers
  unfolding delete_queues delete_transfers
  delete_queues-transfers =
      keep_ext _ _ db.transfers (λ t. rw (any-key t.queue_id qid db.queues q found))

  delete_queues-queues : get queue_key qid (delete_queues (λ q. q.id == qid) db).queues ≡ none
  unfolding delete_queues delete_transfers
  delete_queues-queues = get-keep_other qid db.queues

  linked-keep : linked q db ≡ keep (λ t. t.group_id == q.group_id && t.queue_id == qid) db.transfers
  unfolding select_transfers
  linked-keep =
      keep_ext _ _ db.transfers (λ t. ground (arith, key-get queue_key qid db.queues q found))

module _ (order : List Transfer → List Transfer)
    (same_rows : (ts : List Transfer) → length (order ts) ≡ length ts) (u : User) (qid : ℕ)
    (db : Db) (q : Queue) (found : get queue_key qid db.queues ≡ some q) where
  -- A deletion that returns has deleted every transfer that uses the queue, whatever its group, and
  -- only those; and no transfer of the group of the queue used it.
  pub delete_queue-transfers :
      (delete_queue order u qid db).0 ≡ ok tt
      → ((delete_queue order u qid db).1.transfers
          ≡ keep (λ t. not (t.queue_id == qid)) db.transfers)
        × (get queue_key qid (delete_queue order u qid db).1.queues ≡ none)
        × (keep (λ t. t.group_id == q.group_id && t.queue_id == qid) db.transfers ≡ [])
  delete_queue-transfers h = elim (delete_queue_lem order u qid db q found) [
    | inl (_, failed) ↦ absurd (cc)
    | inr (e, empty) ↦ (
      rw e (delete_queues-transfers qid db q found),
      rw e (delete_queues-queues qid db q found),
      sym (linked-keep qid db q found)
          ∙ no_rows (linked q db) (order (linked q db)) (same_rows (linked q db)) empty,
    )
  ]
