-- ===== src/Session/Keeps.antt =====
-- Rules for a property of the database that every way to build an action keeps, for the blocks of
-- syncmaster/server/services/unit_of_work.py.
use syncmaster.Db.{Db}
use syncmaster.Errors.{Exception, SyncmasterError}
use syncmaster.Prelude.{Bool, ◌≡◌, true, false, if◌then◌else◌}
use syncmaster.Session.{
  M, Result, ok, err, ◌>>=◌, raise_if, except_map, except_map-state, unit_of_work, rollback, ◌>>◌,
}

-- An action that returns or raises in a state with the property, when it starts in one.
pub record Keeps (P : Db → Type 0) {A : Type 0} (m : M A) : Type 0 where
  pub keeps : (db : Db) → P db → P (m db).1

module _ (P : Db → Type 0) where
  -- An action that changes nothing.
  pub same-Keeps : {A : Type 0} (m : M A) → ((db : Db) → (m db).1 ≡ db) → Keeps P m
  same-Keeps m same = record { keeps = λ db p. rw (same db) p }

  pub bind-Keeps :
      {A B : Type 0} {m : M A} {f : A → M B}
      → Keeps P m
      → ((a : A) → Keeps P (f a))
      → Keeps P (m >>= f)
  bind-Keeps {A = A} {B = B} {m = m} {f = f} first next = record {
    keeps = λ db p. of_result (m db) (first.keeps db p);
  }
    where
      of_result :
          (r : Result A × Db)
          → P r.1
          → P (elim r.0 as (λ _. Result B × Db) [ ok a ↦ f a r.1 | err e ↦ (err e, r.1) ]).1
      of_result (ok a, db1) q = (next a).keeps db1 q
      of_result (err e, db1) q = q

  pub then-Keeps : {A B : Type 0} {m : M A} {n : M B} → Keeps P m → Keeps P n → Keeps P (m >> n)
  then-Keeps first next = bind-Keeps first (λ _. next)

  pub if-Keeps :
      {A : Type 0} (b : Bool) {m n : M A} → Keeps P m → Keeps P n → Keeps P (if b then m else n)
  if-Keeps true first other = first
  if-Keeps false first other = other

  -- A test before an action.
  pub guarded-Keeps :
      {B : Type 0} (b : Bool) (e : SyncmasterError) {m : M B}
      → Keeps P m
      → Keeps P (raise_if b e >> m)
  guarded-Keeps true e kept = record { keeps = λ db p. p }
  guarded-Keeps false e kept = record { keeps = λ db p. kept.keeps db p }

  pub except_map-Keeps :
      {A : Type 0} (h : Exception → Exception) {m : M A} → Keeps P m → Keeps P (except_map h m)
  except_map-Keeps h {m = m} kept = record {
    keeps = λ db p. rw (except_map-state h m db) (kept.keeps db p);
  }

  -- A block leaves what it did or, if it raises, the rows as they were.
  pub unit_of_work-Keeps :
      {A : Type 0} {m : M A}
      → ((before after : Db) → P before → P (rollback before after))
      → Keeps P m
      → Keeps P (unit_of_work m)
  unfolding unit_of_work
  unit_of_work-Keeps {A = A} {m = m} back kept = record {
    keeps = λ db p. of_result db p (m db) (kept.keeps db p);
  }
    where
      of_result :
          (db : Db)
          → P db
          → (r : Result A × Db) → P r.1
          → P
              (elim r.0 as (λ _. Result A × Db) [
                | ok a ↦ (ok a, r.1)
                | err e ↦ (err e, rollback db r.1)
              ]).1
      of_result db p (ok a, db1) q = q
      of_result db p (err e, db1) q = back db db1 p
