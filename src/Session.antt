-- ===== src/Session.antt =====
-- A coroutine that runs statements in a session and may raise: state and exceptions over `Db`.
-- syncmaster/server/services/unit_of_work.py
pub mod Keeps
pub mod Returns
use syncmaster.Prelude.{
  ◌≡◌, arith, Bool, Option, none, some, if◌then◌else◌, ◌≡◌, arith, true, false, refl,
}
use syncmaster.Errors.{
  SyncmasterError, is_entity_not_found, Constraint, Exception, raised, integrity_error,
  no_result_found, data_error,
}
use syncmaster.Db.{Db}

pub data Result (A : Type 0) : Type 0 where
  ok : A → Result A
  err : Exception → Result A

abbrev pub is_ok : {A : Type 0} → Result A → Bool
is_ok (ok _) = true
is_ok (err _) = false

abbrev pub M : Type 0 → Type 0
M A = Db → Result A × Db

module _ {A : Type 0} where
  abbrev pub pure : A → M A
  pure a db = (ok a, db)

  abbrev pub raise : SyncmasterError → M A
  raise e db = (err (raised e), db)

  abbrev pub gets : (Db → A) → M A
  gets f db = (ok (f db), db)

  -- `result.one()` and `session.get` with a test on `None`
  abbrev pub or_raise : SyncmasterError → Option A → M A
  or_raise e none = raise e
  or_raise e (some a) = pure a

  abbrev pub one : Option A → M A
  one none db = (err no_result_found, db)
  one (some a) db = (ok a, db)

  abbrev pub or_fail : Exception → Option A → M A
  or_fail e none db = (err e, db)
  or_fail e (some a) db = (ok a, db)

  abbrev pub violates : Constraint → M A
  violates c db = (err (integrity_error c), db)

  abbrev pub out_of_range : M A
  out_of_range db = (err data_error, db)

infixl 5 ◌>>=◌ ◌>>◌
abbrev pub ◌>>=◌ : {A B : Type 0} → M A → (A → M B) → M B
◌>>=◌ m f db = let (r, db') = m db in elim r [ ok a ↦ f a db' | err e ↦ (err e, db') ]

abbrev pub ◌>>◌ : {A B : Type 0} → M A → M B → M B
m >> k = m >>= λ _. k

abbrev pub raise_if : Bool → SyncmasterError → M Unit
raise_if c e db = (if c then err (raised e) else ok tt, db)

-- `except IntegrityError as e: self._raise_error(e)`
abbrev pub map_integrity : (Constraint → SyncmasterError) → Exception → Exception
map_integrity f (integrity_error c) = raised (f c)
map_integrity f e = e

-- `except NoResultFound as e: raise e'`
abbrev pub map_no_result : SyncmasterError → Exception → Exception
map_no_result e' no_result_found = raised e'
map_no_result e' e = e

-- `except EntityNotFoundError as e: raise e'`
abbrev pub map_entity : SyncmasterError → Exception → Exception
map_entity e' (raised e) = raised (if is_entity_not_found e then e' else e)
map_entity e' e = e

abbrev pub except_map : {A : Type 0} → (Exception → Exception) → M A → M A
except_map h m db = let (r, db') = m db in elim r [ ok a ↦ (ok a, db') | err e ↦ (err (h e), db') ]

-- What `session.rollback()` leaves: every row as it was. A sequence is not rolled back.
abbrev pub rollback : Db → Db → Db
rollback before after = record before { seq = after.seq }

-- `async with unit_of_work`: commit at the end of the block, or roll back and raise again.
unfoldable pub unit_of_work : {A : Type 0} → M A → M A
unit_of_work m db =
    let (r, db') = m db in elim r [ ok a ↦ (ok a, db') | err e ↦ (err e, rollback db db') ]

-- A block that returns has committed what it did.
pub unit_of_work-ok :
    {A : Type 0} (m : M A) (db db' : Db) (a : A)
    → unit_of_work m db ≡ (ok a, db')
    → m db ≡ (ok a, db')
unfolding unit_of_work
unit_of_work-ok m db db' a h = ground arith

-- A block that raises has changed no row.
pub unit_of_work-err :
    {A : Type 0} (m : M A) (db db' : Db) (e : Exception)
    → unit_of_work m db ≡ (err e, db')
    → (m db ≡ (err e, (m db).1)) × (db' ≡ rollback db (m db).1)
unfolding unit_of_work
unit_of_work-err m db db' e h = ground arith

-- A chain that returns has a first part that returned.
pub bind-ok :
    {A B : Type 0} (m : M A) (f : A → M B) (db db' : Db) (b : B)
    → (m >>= f) db ≡ (ok b, db')
    → (a : A) × (db1 : Db) × (m db ≡ (ok a, db1)) × (f a db1 ≡ (ok b, db'))
bind-ok {A = A} {B = B} m f db db' b h = of_result (m db) refl
  where
    of_result :
        (r : Result A × Db)
        → m db ≡ r
        → (a : A) × (db1 : Db) × (m db ≡ (ok a, db1)) × (f a db1 ≡ (ok b, db'))
    of_result (ok a, db1) e = (a, db1, e, ground arith)
    of_result (err x, db1) e = absurd (ground arith)

-- A handler of exceptions changes no row.
pub except_map-state :
    {A : Type 0} (h : Exception → Exception) (m : M A) (db : Db) → (except_map h m db).1 ≡ (m db).1
except_map-state {A = A} h m db = of_result (m db)
  where
    of_result :
        (r : Result A × Db)
        → (elim r.0 as (λ _. Result A × Db) [ ok a ↦ (ok a, r.1) | err e ↦ (err (h e), r.1) ]).1
          ≡ r.1
    of_result (ok a, db1) = refl
    of_result (err e, db1) = refl

pub one-state : {A : Type 0} (o : Option A) (db : Db) → (one o db).1 ≡ db
one-state none db = refl
one-state (some a) db = refl

abbrev pub on_entity : {A : Type 0} → M A → Result A × Db → Result A × Db
on_entity k (ok a, db) = (ok a, db)
on_entity k (err (raised e), db) = if is_entity_not_found e then k db else (err (raised e), db)
on_entity k (err e, db) = (err e, db)

-- `try: return m  except EntityNotFoundError: k`
abbrev pub except_entity : {A : Type 0} → M A → M A → M A
except_entity m k db = on_entity k (m db)
