-- ===== src/Repository.antt =====
-- `Repository._copy` of syncmaster/db/repositories/base.py.
use syncmaster.Prelude.{Option, none, some}

-- The value of `kwargs` that replaces a column of the copied row: `None` keeps the row's own.
abbrev pub or_origin : {A : Type 0} → Option A → A → A
or_origin (some a) _ = a
or_origin none a = a
