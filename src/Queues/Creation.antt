-- ===== src/Queues/Creation.antt =====
-- The slugs of the queues that syncmaster/server/api/v1/queue.py creates and renames.
use syncmaster.Prelude.Tables.{get}
use syncmaster.Errors.{
  raised, duplicated_queue_name, entity_not_found, uq__queue__slug, fk__queue__group_id__group,
}
use syncmaster.Session.{
  err, except_map-state, one-state, map_integrity, except_map, map_no_result, Result, violates,
  pure,
}
use syncmaster.Prelude.Tables
use syncmaster.Queues.Slug.{group_of, slug-group_id}
use syncmaster.Queues.Statements.{insert_queue, fits_queue, slug_taken, set_queue, update_queue_row}
use syncmaster.Prelude.{
  List, Bool, All, String, ◌==◌, ◌++◌, ◌≡◌, ℕ, ◌∷◌, ◌&&◌, true, text_eq, [], any, arith, nat_eq,
  sym, if◌then◌else◌, Bool-cases, ◌∙◌, inl, false, inr, ap, is_some, text_eq_iff, codes, refl, ◌+◌,
  not,
}
use syncmaster.Queues.{QueueData, slug_of}
use syncmaster.Db.{Db, Queue, queue_key, group_key}
use syncmaster.Queues

-- The slug of a queue starts with its group.
abbrev pub IsSlugged : Queue → Type 0
IsSlugged q = group_of q.slug ≡ q.group_id

abbrev pub AllSlugged : Db → Type 0
AllSlugged db = All IsSlugged db.queues

abbrev pub same_slug : QueueData → Queue → Bool
same_slug q p = p.group_id == q.group_id && text_eq p.slug (slug_of q)

All-append :
    {A : Type 0} (P : A → Type 0) (xs : List A) (x : A) → All P xs → P x → All P (xs ++ x ∷ [])
All-append P [] x h hx = (hx, tt)
All-append P (y ∷ xs) x h hx = (h.0, All-append P xs x h.1 hx)

All-update :
    (name description : String) (qid : ℕ) (qs : List Queue)
    → All IsSlugged qs
    → All IsSlugged (Tables.update queue_key qid (set_queue name description) qs)
unfolding Tables.update
All-update name description qid [] h = tt
All-update name description qid (q ∷ qs) h =
    (renamed (queue_key q == qid), All-update name description qid qs h.1)
  where
    renamed : (b : Bool) → IsSlugged (if b then set_queue name description q else q)
    renamed true = h.0
    renamed false = h.0

same_group :
    (q : QueueData) (p : Queue)
    → IsSlugged p
    → text_eq p.slug (slug_of q) ≡ true
    → p.group_id ≡ q.group_id
same_group q p h same =
    sym h
    ∙ ap group_of ((text_eq_iff p.slug (slug_of q)).0 same)
    ∙ slug-group_id q.group_id (codes q.name)

abbrev keyed : Db → Db
keyed db = record db { seq = record db.seq { queue = db.seq.queue + 1 } }

abbrev queue_row : QueueData → Db → Queue
queue_row q db = record {
  id = db.seq.queue;
  name = q.name;
  slug = slug_of q;
  group_id = q.group_id;
  description = q.description;
}

fitting-AllSlugged :
    (q : QueueData) (db : Db)
    → AllSlugged db
    → AllSlugged
        (if slug_taken (slug_of q) db.queues
          then violates uq__queue__slug (keyed db)
          else if not (is_some (get group_key q.group_id db.groups))
          then violates fk__queue__group_id__group (keyed db)
          else pure
              (queue_row q db)
              (record (keyed db) { queues = db.queues ++ queue_row q db ∷ [] })).1
fitting-AllSlugged q db h = elim (Bool-cases (slug_taken (slug_of q) db.queues)) [
  | inl taken ↦ rw taken h
  | inr free ↦ elim (Bool-cases (is_some (get group_key q.group_id db.groups))) [
    | inl there ↦
        rw (free, there)
          (All-append IsSlugged db.queues _ h (slug-group_id q.group_id (codes q.name)))
    | inr missing ↦ rw (free, missing) h
  ]
]

insert_queue-AllSlugged :
    (q : QueueData) (db : Db)
    → AllSlugged db
    → AllSlugged (insert_queue q.name (slug_of q) q.group_id q.description db).1
unfolding insert_queue
insert_queue-AllSlugged q db h =
    elim (Bool-cases (fits_queue q.name (slug_of q) q.group_id q.description)) [
      | inl fitting ↦ rw fitting (fitting-AllSlugged q db h)
      | inr long ↦ rw long h
    ]

create-AllSlugged : (q : QueueData) (db : Db) → AllSlugged db → AllSlugged (Queues.create q db).1
unfolding Queues.create
create-AllSlugged q db h =
    rw
      (except_map-state (map_integrity Queues.raise_error)
        (insert_queue q.name (slug_of q) q.group_id q.description) db)
      (insert_queue-AllSlugged q db h)

update_queue_row-AllSlugged :
    (qid : ℕ) (name description : String) (db : Db)
    → AllSlugged db
    → AllSlugged (update_queue_row qid name description db).1
unfolding update_queue_row
update_queue_row-AllSlugged qid name description db h =
    let db1 = record db {
      queues = Tables.update queue_key qid (set_queue name description) db.queues;
    } in
    elim (Bool-cases
      (is_some (get queue_key qid db.queues) && not (fits_queue name [] 0 description))) [
        | inl long ↦ rw long h
        | inr fitting ↦
            rw (fitting, one-state (get queue_key qid db1.queues) db1)
              (All-update name description qid db.queues h)
      ]

update-AllSlugged :
    (qid : ℕ) (name description : String) (db : Db)
    → AllSlugged db
    → AllSlugged (Queues.update qid name description db).1
unfolding Queues.update
update-AllSlugged qid name description db h =
    rw
      (
        except_map-state (map_integrity Queues.raise_error)
            (except_map (map_no_result entity_not_found) (update_queue_row qid name description))
            db,
        except_map-state (map_no_result entity_not_found) (update_queue_row qid name description)
            db,
      )
      (update_queue_row-AllSlugged qid name description db h)

slug_taken-any :
    (q : QueueData) (qs : List Queue)
    → All IsSlugged qs
    → slug_taken (slug_of q) qs ≡ any (same_slug q) qs
slug_taken-any q [] h = refl
slug_taken-any q (p ∷ qs) h = ground (arith, slug_taken-any q qs h.1, same_group q p h.0)

abbrev pub is_duplicate : Result Queue → Bool
is_duplicate (err (raised duplicated_queue_name)) = true
is_duplicate _ = false

create-is_duplicate :
    (q : QueueData) (db : Db)
    → is_duplicate (Queues.create q db).0
      ≡ (fits_queue q.name (slug_of q) q.group_id q.description && slug_taken (slug_of q) db.queues)
unfolding Queues.create insert_queue Queues.raise_error
create-is_duplicate q db = ground arith

-- Where every slug starts with the group of its queue, this stays so when a queue is created or
-- renamed, and a new queue is refused as a duplicate exactly if its values fit in their columns and a
-- queue of its own group has the same slug.
pub create-slugs :
    (q : QueueData) (qid : ℕ) (name description : String) (db : Db)
    → AllSlugged db
    → AllSlugged (Queues.create q db).1
      × AllSlugged (Queues.update qid name description db).1
      × (is_duplicate (Queues.create q db).0
          ≡ (fits_queue q.name (slug_of q) q.group_id q.description && any (same_slug q) db.queues))
create-slugs q qid name description db h = (
  create-AllSlugged q db h,
  update-AllSlugged qid name description db h,
  create-is_duplicate q db
      ∙ ap (λ b. fits_queue q.name (slug_of q) q.group_id q.description && b)
          (slug_taken-any q db.queues h),
)
