-- ===== src/Handlers/Plan.antt =====
-- The plan of a transfer, and what becomes of a plan when a call raises.
use syncmaster.Handlers.Controller.{TransferController, cleanup}
use mathlib.Core.List.{append_assoc, append-nil}
use syncmaster.Handlers.Hwm.{
  Hwm, get_transfer_hwm_name, reader_hwm_name, write_mode, is_incremental, has_value,
}
use syncmaster.Handlers.Controller.{
  Call, World, Body, get_hwm, then_do, call, run_reader, run_writer, create_spark_session,
  connect_source, connect_target, open_hwm_store, set_hwm,
}
use syncmaster.Prelude.{
  Bool, List, Text, ◌++◌, ◌≡◌, ◌∷◌, true, [], false, Option, Bool-cases, inl, inr, if◌then◌else◌,
  none, refl, ◌∙◌, ap, arith, sym, not, ◌&&◌,
}

abbrev pub mark_of : TransferController → List (Text × Hwm) → Option Hwm
mark_of controller store =
    get_hwm (get_transfer_hwm_name controller.source_type controller.source) store

abbrev pub copying : TransferController → Option Hwm → List Call
copying controller hwm =
    run_reader (reader_hwm_name controller.source_type controller.source)
    ∷ run_writer (write_mode hwm controller.target)
    ∷ []

abbrev pub resetting : TransferController → List (Text × Hwm) → List Call
resetting controller store =
    if has_value (mark_of controller store)
    then set_hwm (get_transfer_hwm_name controller.source_type controller.source) ∷ []
    else []

abbrev pub after_connecting : TransferController → List (Text × Hwm) → List Call
after_connecting controller store =
    if is_incremental controller.source.strategy
    then open_hwm_store ∷ copying controller (mark_of controller store)
    else (if controller.hwm_store_enabled then open_hwm_store ∷ resetting controller store else [])
      ++ copying controller none

-- The calls of a transfer that raises nothing, before the directory is removed.
abbrev pub planned : TransferController → List (Text × Hwm) → List Call
planned controller store =
    create_spark_session ∷ connect_source ∷ connect_target ∷ after_connecting controller store

abbrev pub after : Call → World → World
after c w = record w { calls = w.calls ++ c ∷ [] }

module _ (raises : Call → Bool) where
  -- The calls of a plan up to the first that raises, that one included.
  abbrev pub made : List Call → List Call
  made [] = []
  made (c ∷ plan) = let rest = made plan in c ∷ (if raises c then [] else rest)

  abbrev pub all_return : List Call → Bool
  all_return [] = true
  all_return (c ∷ plan) = not (raises c) && all_return plan

  -- The calls of a plan were made up to the first that raises, and the body returned if none did.
  abbrev pub Outcome : Bool × World → List Call → List Call → Type 0
  Outcome r before plan = (r.0 ≡ all_return plan) × (r.1.calls ≡ before ++ made plan)

  -- The same, with the directory removed at the end.
  abbrev pub Finished : Bool × World → List Call → List Call → Type 0
  Finished r before plan =
      (r.0 ≡ all_return plan) × (r.1.calls ≡ before ++ (made plan ++ cleanup ∷ []))

  all_return-append :
      (first second : List Call)
      → all_return (first ++ second) ≡ (all_return first && all_return second)
  all_return-append [] second = refl
  all_return-append (c ∷ first) second = ground (arith, all_return-append first second)

  made-append :
      (first second : List Call)
      → made (first ++ second) ≡ made first ++ (if all_return first then made second else [])
  made-append [] second = refl
  made-append (c ∷ first) second = elim (Bool-cases (raises c)) [
    | inl fails ↦ rw fails refl
    | inr returns ↦ rw returns (ap (λ cs. c ∷ cs) (made-append first second))
  ]

  pub call_then :
      (c : Call) (k : Body) (w : World) (plan : List Call)
      → Outcome (k (record w { calls = w.calls ++ c ∷ [] })) (w.calls ++ c ∷ []) plan
      → Outcome (then_do raises (call raises c) k w) w.calls (c ∷ plan)
  call_then c k w plan (returned, calls) = elim (Bool-cases (raises c)) [
    | inl fails ↦ rw fails (refl, refl)
    | inr returns ↦ rw returns (returned, calls ∙ append_assoc w.calls (c ∷ []) (made plan))
  ]

  -- Two parts, the second of which follows its plan in any world.
  pub part_then :
      (m k : Body) (w : World) (first second : List Call)
      → Outcome (m w) w.calls first
      → ((w' : World) → Outcome (k w') w'.calls second)
      → Outcome (then_do raises m k w) w.calls (first ++ second)
  part_then m k w first second hm hk = by_result (m w) hm
    where
      by_result :
          (r : Bool × World)
          → Outcome r w.calls first
          → Outcome (if r.0 then k r.1 else (false, r.1)) w.calls (first ++ second)
      by_result (false, w1) (returned, calls) = (
        rw (all_return-append first second, ← returned) refl,
        rw (made-append first second, ← returned)
            (calls ∙ sym (ap (λ b. w.calls ++ b) (append-nil (made first)))),
      )
      by_result (true, w1) (returned, calls) =
          let (ends, after_first) = hk w1 in
          (
            rw (all_return-append first second, ← returned) ends,
            rw (made-append first second, ← returned)
                (after_first
                  ∙ ap (λ b. b ++ made second) calls
                  ∙ append_assoc w.calls (made first) (made second)),
          )

  pub one_call : (c : Call) (w : World) → Outcome (call raises c w) w.calls (c ∷ [])
  one_call c w = elim (Bool-cases (raises c)) [
    | inl fails ↦ rw fails (refl, refl)
    | inr returns ↦ rw returns (refl, refl)
  ]
