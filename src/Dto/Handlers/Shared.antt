-- ===== src/Dto/Handlers/Shared.antt =====
-- `TransferController.__init__`, whose two calls of `get_handler` change one dictionary if the
-- transfer has one connection on both sides.
use syncmaster.Dto.Handlers.Merging.{merge_again}
use syncmaster.Schemas.Transfers.{dump_params}
use syncmaster.Dto.{Outcome, returned, returned_eq}
use syncmaster.Schemas.Connections.{CreateConnection, dump_data, auth_type, is_accepted}
use syncmaster.Db.Json.{Dict, Json, Fields}
use syncmaster.Dto.Transfers.{FormatClass}
use syncmaster.Dto.Handlers.{
  merge, get_handler, TransferArgs, init_controller, RunDto, Handler, put,
}
use syncmaster.Prelude.{String, ℕ, ◌≡◌, true, refl, Bool-cases, sym, ◌==◌, ◌∙◌, inl, ==_iff, inr}
use syncmaster.Errors.{Side}
use syncmaster.Dto.Handlers.Made.{dump_auth}
use syncmaster.Dto.Handlers.Accepted.{Columns, args_of, IsFor, TakesFormat, get_handler-IsFor}

-- What the rows of connections and their credentials hold, by the keys of the connections.
abbrev pub stored : (ℕ → CreateConnection) → (ℕ → String → Json) → ℕ → Dict
stored class attribute i = dump_data (class i) (attribute i)

abbrev pub auth : (ℕ → CreateConnection) → (ℕ → String → Json) → ℕ → Dict
auth class secret i = dump_auth (auth_type (class i)) (secret i)

module _ (parse_obj : FormatClass → Dict → Outcome Json) (loads : String → Outcome Json)
    (catalog_name : String) where
  get_handler-merge :
      (d e auth params : Dict) (args : TransferArgs) (run : RunDto)
      → merge d auth ≡ merge e auth
      → get_handler parse_obj loads catalog_name d auth params args run
        ≡ get_handler parse_obj loads catalog_name e auth params args run
  unfolding get_handler
  get_handler-merge d e auth params args run same = rw same refl

  -- A call after another one for the same connection is as the first would have been.
  get_handler-again :
      (attribute secret : String → Json) (c : CreateConnection) (merged params : Dict)
      (args : TransferArgs) (run : RunDto)
      → is_accepted c ≡ true
      → merge (dump_data c attribute) (dump_auth (auth_type c) secret) ≡ returned merged
      → get_handler parse_obj loads catalog_name merged
          (dump_auth (auth_type c) secret)
          params
          args
          run
        ≡ get_handler parse_obj loads catalog_name
            (dump_data c attribute)
            (dump_auth (auth_type c) secret)
            params
            args
            run
  get_handler-again attribute secret c merged params args run accepted merges =
      let (m, first, second) = merge_again attribute secret c accepted in
      let same : m ≡ merged = returned_eq m merged (sym first ∙ merges) in
      get_handler-merge merged (dump_data c attribute) (dump_auth (auth_type c) secret) params args
        run (rw (← same) (second ∙ sym first))

  -- `__init__`, from its two calls.
  init_controller_lem :
      (source target : ℕ) (store auth : ℕ → Dict) (source_params target_params : Dict)
      (args : TransferArgs) (run : RunDto) (s t : Handler) (merged merged' : Dict)
      → get_handler parse_obj loads catalog_name (store source) (auth source) source_params args run
        ≡ returned (s, merged)
      → get_handler parse_obj loads catalog_name
          (put parse_obj loads catalog_name source merged store target)
          (auth target)
          target_params
          args
          run
        ≡ returned (t, merged')
      → init_controller parse_obj loads catalog_name source target store auth source_params
          target_params args run
        ≡ returned (s, t)
  unfolding init_controller
  init_controller_lem source target store auth source_params target_params args run s t merged
        merged' first second =
      rw first (rw second refl)

  module _ (class : ℕ → CreateConnection) (attribute secret : ℕ → String → Json) (t : Columns)
      (run : RunDto) where
    after_source :
        (source target : ℕ) (merged params : Dict) (h : Handler × Dict)
        → is_accepted (class target) ≡ true
        → merge (stored class attribute source) (auth class secret source) ≡ returned merged
        → get_handler parse_obj loads catalog_name
            (stored class attribute target)
            (auth class secret target)
            params
            (args_of t)
            run
          ≡ returned h
        → get_handler parse_obj loads catalog_name
            (put parse_obj loads catalog_name source merged (stored class attribute) target)
            (auth class secret target)
            params
            (args_of t)
            run
          ≡ returned h
    after_source source target merged params h accepted merges made =
        elim (Bool-cases (target == source)) [
          | inl same ↦ rw same (
              get_handler-again (attribute target) (secret target) (class target) merged params
                (args_of t) run accepted (rw ((==_iff target source).0 same) merges)
              ∙ made)
          | inr other ↦ rw other made
        ]

    -- A transfer between connections that the schemas accept gets both its handlers, each with the
    -- data and the credentials of its own connection and with its own parameters, also where one
    -- connection is the source and the target and the second call finds the dictionary that the
    -- first has changed, if the parser takes the formats of the files.
    pub init_controller-IsFor :
        (source target : ℕ) (source_param target_param : String → Json)
        (source_format target_format : Fields)
        → is_accepted (class source) ≡ true
        → is_accepted (class target) ≡ true
        → TakesFormat parse_obj loads catalog_name (class source) source_format
        → TakesFormat parse_obj loads catalog_name (class target) target_format
        → (s h : Handler) × (init_controller parse_obj loads catalog_name source target
              (stored class attribute)
              (auth class secret)
              (dump_params (class source) Side.source source_param source_format)
              (dump_params (class target) Side.target target_param target_format)
              (args_of t)
              run
            ≡ returned (s, h))
          × IsFor (class source) (attribute source) (secret source) Side.source source_param t s
          × IsFor (class target) (attribute target) (secret target) Side.target target_param t h
    init_controller-IsFor source target source_param target_param source_format target_format sa ta
          sf tf =
        let (s, merged, made, merges, is_source) =
          get_handler-IsFor parse_obj loads catalog_name (attribute source) (secret source)
            source_param source_format (class source) Side.source t run sa sf in
        let (h, merged', made', merges', is_target) =
          get_handler-IsFor parse_obj loads catalog_name (attribute target) (secret target)
            target_param target_format (class target) Side.target t run ta tf in
        (
          s,
          h,
          init_controller_lem source target (stored class attribute) (auth class secret)
              (dump_params (class source) Side.source source_param source_format)
              (dump_params (class target) Side.target target_param target_format) (args_of t) run s
              h merged merged' made
              (after_source source target merged
                (dump_params (class target) Side.target target_param target_format) (h, merged') ta
                merges made'),
          is_source,
          is_target,
        )
