-- ===== src/Transfers/Runnable.antt =====
-- Whether a stored transfer can be scheduled and run, by the validators of
-- syncmaster/schemas/v1/transfers/__init__.py.
use syncmaster.Db.Json.{Json, Dict, obj_of}
use syncmaster.Errors.{source}
use syncmaster.Schemas.Transfers.{
  Strategy, full, incremental, dump_strategy, dump_params, params_of,
}
use syncmaster.Transfers.Api.{TransferBody}
use syncmaster.Transfers.Bodies.{
  CreateTransfer, create_transfer_schema, validate_strategy, validate_scheduling, or_empty,
  validated, params_type, dumped, file_connection_types,
}
use syncmaster.Prelude.{
  String, Bool, Option, none, some, not, ◌&&◌, ◌||◌, any, str_eq, [], ◌∷◌, ◌++◌, ◌≡◌, true, arith,
  refl, sym, if◌then◌else◌,
}

-- Which strategies the sources of a type support: nothing but a full one on S3 and HDFS, and on the
-- other storages of files an incremental one by the name or the time of the files.
abbrev supports : String → Strategy → Bool
supports source_type full = true
supports source_type (incremental increment_by) =
    not (str_eq source_type "s3" || str_eq source_type "hdfs")
    && (not (any (str_eq source_type) ("ftp" ∷ "ftps" ∷ "sftp" ∷ "samba" ∷ "webdav" ∷ []))
        || (str_eq increment_by "file_modified_since" || str_eq increment_by "file_name"))

-- A transfer that is scheduled has a schedule, and the strategy in its row is one that its source,
-- by the type in the parameters in its row, supports.
pub record IsRunnable (is_scheduled : Bool) (schedule : String)
    (strategy_params source_params : Json) : Type 0 where
  pub has_schedule : (not is_scheduled || not (str_eq schedule "")) ≡ true
  pub strategy : Strategy
  pub strategy_dumped : strategy_params ≡ obj_of (dump_strategy strategy)
  pub source_type : String
  pub source_fields : Dict
  pub source_dumped : source_params ≡ obj_of (source_fields ++ ("type", Json.str source_type) ∷ [])
  pub supported : supports source_type strategy ≡ true

-- Every storage of files is in the list of them.
storage-file_type :
    (source_type : String)
    → any (str_eq source_type) ("ftp" ∷ "ftps" ∷ "sftp" ∷ "samba" ∷ "webdav" ∷ []) ≡ true
    → any (str_eq source_type) file_connection_types ≡ true
storage-file_type source_type h = ground arith

tests_passed :
    (direct direct' file storage named named' : Bool) (s kept : Strategy)
    → direct ≡ direct'
    → named ≡ named'
    → (storage ≡ true → file ≡ true)
    → (if direct then none else if file && not named then none else some s) ≡ some kept
    → (s ≡ kept) × ((not direct' && (not storage || named')) ≡ true)
tests_passed direct direct' file storage named named' s kept ed en h e = ground arith

validate_strategy-supports :
    (source_type : String) (s kept : Strategy)
    → validate_strategy source_type s ≡ some kept
    → supports source_type kept ≡ true
unfolding validate_strategy
validate_strategy-supports source_type full kept h =
    let same : full ≡ kept = cc h in rw (sym same) refl
validate_strategy-supports source_type (incremental increment_by) kept h =
    let (same, passed) =
      tests_passed (any (str_eq source_type) ("s3" ∷ "hdfs" ∷ []))
        (str_eq source_type "s3" || str_eq source_type "hdfs")
        (any (str_eq source_type) file_connection_types)
        (any (str_eq source_type) ("ftp" ∷ "ftps" ∷ "sftp" ∷ "samba" ∷ "webdav" ∷ []))
        (any (str_eq increment_by) ("file_modified_since" ∷ "file_name" ∷ []))
        (str_eq increment_by "file_modified_since" || str_eq increment_by "file_name")
        (incremental increment_by) kept (ground arith) (ground arith)
        (storage-file_type source_type) h in
    rw (sym same) passed

validate_scheduling-schedule :
    (is_scheduled : Bool) (value kept : Option String)
    → validate_scheduling is_scheduled value ≡ some kept
    → (not is_scheduled || not (str_eq (or_empty kept) "")) ≡ true
unfolding validate_scheduling
validate_scheduling-schedule is_scheduled none kept h = ground arith
validate_scheduling-schedule is_scheduled (some s) kept h = ground arith

module _ (r : CreateTransfer) where
  dumped-IsRunnable :
      (s : Strategy) (t : Option String)
      → validate_strategy (params_type r.source_params) r.strategy_params ≡ some s
      → validate_scheduling r.is_scheduled r.schedule ≡ some t
      → let v = (dumped r t s).values in
        IsRunnable v.is_scheduled v.schedule v.strategy_params v.source_params
  unfolding dumped params_type dump_params
  dumped-IsRunnable s t es et = record {
    has_schedule = validate_scheduling-schedule r.is_scheduled r.schedule t et;
    strategy = s;
    strategy_dumped = refl;
    source_type = params_type r.source_params;
    source_fields =
        params_of r.source_params.connection source r.source_params.param r.source_params.format;
    source_dumped = refl;
    supported = validate_strategy-supports (params_type r.source_params) r.strategy_params s es;
  }

-- The values of a validated body.
pub validated-IsRunnable :
    (r : CreateTransfer) (b : TransferBody)
    → create_transfer_schema r ≡ some b
    → IsRunnable b.values.is_scheduled b.values.schedule b.values.strategy_params
        b.values.source_params
unfolding create_transfer_schema
validated-IsRunnable r b h =
    by_results (validate_strategy (params_type r.source_params) r.strategy_params)
      (validate_scheduling r.is_scheduled r.schedule) refl refl h
  where
    by_results :
        (s : Option Strategy) (t : Option (Option String))
        → validate_strategy (params_type r.source_params) r.strategy_params ≡ s
        → validate_scheduling r.is_scheduled r.schedule ≡ t
        → validated r s t ≡ some b
        → IsRunnable b.values.is_scheduled b.values.schedule b.values.strategy_params
            b.values.source_params
    by_results none t es et h = absurd (cc h)
    by_results (some s) none es et h = absurd (cc h)
    by_results (some s) (some t) es et h =
        let same : dumped r t s ≡ b = cc h in rw (sym same) (dumped-IsRunnable r s t es et)
