-- ===== src/Session/Returns.antt =====
-- Rules for what a chain of actions returns, for the handlers of syncmaster/server/api/v1.
use syncmaster.Db.{Db}
use syncmaster.Errors.{SyncmasterError}
use syncmaster.Prelude.{Bool, ◌≡◌}
use syncmaster.Session.{M, ok, ◌>>=◌, ◌>>◌, raise_if, bind-ok}

-- Whatever the action returns has the property.
pub record Returns {A : Type 0} (P : A → Type 0) (m : M A) : Type 0 where
  pub returns : (db db' : Db) (a : A) → m db ≡ (ok a, db') → P a

module _ {B : Type 0} (P : B → Type 0) where
  pub bind-Returns :
      {A : Type 0} (m : M A) {f : A → M B} → ((a : A) → Returns P (f a)) → Returns P (m >>= f)
  bind-Returns m {f = f} next = record {
    returns = λ db db' b h.
        let (a, db1, _, rest) = bind-ok m f db db' b h in (next a).returns db1 db' b rest;
  }

  pub guarded-Returns :
      (b : Bool) (e : SyncmasterError) {m : M B} → Returns P m → Returns P (raise_if b e >> m)
  guarded-Returns b e {m = m} next = record {
    returns = λ db db' a h.
        let (_, db1, _, rest) = bind-ok (raise_if b e) (λ _. m) db db' a h in
        next.returns db1 db' a rest;
  }
