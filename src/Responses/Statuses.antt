-- ===== src/Responses/Statuses.antt =====
-- The status codes of failed requests.
use syncmaster.Prelude.Tables.{get}
use syncmaster.Queues.Statements.{insert_queue, fits_queue}
use syncmaster.Access.{
  get_group_permission_with, group_permission, Permission, is_none, below, delete,
}
use syncmaster.Queues
use syncmaster.Session.{
  err, ok, or_raise, ◌>>=◌, gets, unit_of_work-err, M, raise_if, unit_of_work, ◌>>◌,
}
use syncmaster.Queues.{QueueData}
use syncmaster.Db.{User, Db, group_key, Group, Queue}
use syncmaster.Responses.{handle_exception, syncmaster_exception_handler}
use syncmaster.Queues.Api.{create_queue}
use syncmaster.Prelude.{
  ℕ, List, Bool, any, ◌==◌, ◌≡◌, ◌∷◌, [], true, is_some, ◌⊎◌, arith, nat_eq, Option, inl, some, inr,
  none, refl, Bool-cases, if◌then◌else◌, false,
}
use syncmaster.Errors.{
  Exception, raised, group_not_found, duplicated_queue_name, action_not_allowed, data_error,
}

-- The status of the response to a failed request.
abbrev pub status_of : Exception → ℕ
status_of e = (handle_exception e).status_code

abbrev pub among : ℕ → List ℕ → Bool
among n ns = any (λ m. m == n) ns

permission_lem :
    (u : User) (gid : ℕ) (db : Db)
    → (Queues.get_group_permission u gid db ≡ (err (raised group_not_found), db))
      ⊎ ((Queues.get_group_permission u gid db
            ≡ (ok (group_permission Queues.queue_policy u gid db), db))
          × (is_some (get group_key gid db.groups) ≡ true))
unfolding Queues.get_group_permission get_group_permission_with
permission_lem u gid db = by_group (get group_key gid db.groups)
  where
    by_group :
        (o : Option Group)
        → ((or_raise group_not_found o >>= λ _. gets (group_permission Queues.queue_policy u gid))
              db
            ≡ (err (raised group_not_found), db))
          ⊎ (((or_raise group_not_found o >>= λ _.
                    gets (group_permission Queues.queue_policy u gid))
                  db
                ≡ (ok (group_permission Queues.queue_policy u gid db), db))
              × (is_some o ≡ true))
    by_group none = inl refl
    by_group (some g) = inr (refl, refl)

-- Where the group exists: the name is taken, or the values do not fit in their columns.
abbrev CreationError : QueueData → Exception → Type 0
CreationError q e =
    (e ≡ raised duplicated_queue_name)
    ⊎ ((fits_queue q.name (Queues.slug_of q) q.group_id q.description ≡ false) × (e ≡ data_error))

create-err :
    (q : QueueData) (db db' : Db) (e : Exception)
    → is_some (get group_key q.group_id db.groups) ≡ true
    → Queues.create q db ≡ (err e, db')
    → CreationError q e
unfolding Queues.create insert_queue Queues.raise_error
create-err q db db' e there h = ground arith

unit_of_work-error :
    {A : Type 0} (m : M A) (db db' : Db) (e : Exception)
    → unit_of_work m db ≡ (err e, db')
    → m db ≡ (err e, (m db).1)
unit_of_work-error m db db' e h = (unit_of_work-err m db db' e h).0

-- The handler, once the permission is known.
abbrev checked : QueueData → Permission → M Queue
checked q p = do
  raise_if (is_none p) group_not_found
  raise_if (below p delete) action_not_allowed
  unit_of_work (Queues.create q)

created-errors :
    (q : QueueData) (p : Permission) (db db' : Db) (e : Exception)
    → is_some (get group_key q.group_id db.groups) ≡ true
    → checked q p db ≡ (err e, db')
    → (e ≡ raised group_not_found) ⊎ (e ≡ raised action_not_allowed) ⊎ CreationError q e
created-errors q p db db' e there h = elim (Bool-cases (is_none p)) [
  | inl absent ↦ ground (arith, absent, h)
  | inr present ↦ elim (Bool-cases (below p delete)) [
    | inl low ↦ ground (arith, present, low, h)
    | inr enough ↦ inr (
        inr (
          create-err q db (Queues.create q db).1 e there
            (unit_of_work-error (Queues.create q) db db' e (ground (arith, present, enough, h)))))
  ]
]

create_queue-errors :
    (u : User) (q : QueueData) (db db' : Db) (e : Exception)
    → create_queue u q db ≡ (err e, db')
    → (e ≡ raised group_not_found) ⊎ (e ≡ raised action_not_allowed) ⊎ CreationError q e
unfolding create_queue
create_queue-errors u q db db' e h = elim (permission_lem u q.group_id db) [
  | inl missing ↦ ground (arith, missing, h)
  | inr found ↦
      created-errors q (group_permission Queues.queue_policy u q.group_id db) db db' e found.1
        (ground (arith, found.0, h))
]

-- An internal error, for values that do not fit.
abbrev pub out_of_columns : QueueData → List ℕ
out_of_columns q =
    if fits_queue q.name (Queues.slug_of q) q.group_id q.description then [] else 500 ∷ []

-- When a user is logged in and the schema has accepted the request, a failed creation of a queue is
-- answered with 403 (forbidden), 404 (no such group) or 409 (the name is taken), and with 500 only if
-- the name, the slug, the description or the number of the group does not fit in its column.
pub create_queue-status :
    (u : User) (q : QueueData) (db db' : Db) (e : Exception)
    → create_queue u q db ≡ (err e, db')
    → among (status_of e) (403 ∷ 404 ∷ 409 ∷ out_of_columns q) ≡ true
unfolding create_queue handle_exception syncmaster_exception_handler
create_queue-status u q db db' e h = elim (create_queue-errors u q db db' e h) [
  | inl group ↦ rw group refl
  | inr (inl action) ↦ rw action refl
  | inr (inr (inl name)) ↦ rw name refl
  | inr (inr (inr (long, column))) ↦ rw (long, column) refl
]
