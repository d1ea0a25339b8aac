-- ===== src/Handlers/Reset.antt =====
-- What a full transfer leaves of the high water mark.
use syncmaster.Handlers.Plan.{mark_of}
use syncmaster.Handlers.Hwm.{Hwm, has_value, get_transfer_hwm_name, is_incremental}
use syncmaster.Prelude.{
  Text, Bool, List, Option, ◌≡◌, true, arith, if◌then◌else◌, false, Bool-cases, refl, ◌∷◌, [],
  text_eq, inl, inr, none, some,
}
use syncmaster.Handlers.Controller.{
  TransferController, Call, Body, World, reset_transfer_hwm, reset_value, read_and_write, then_do,
  get_hwm, reset_hwm, call, open_hwm_store, perform_transfer, set_hwm_none, try_transfer, connected,
  set_hwm, connect_target, connect_source, create_spark_session,
}

-- A mark whose value counts as true is reset; any other stays, also zero and the empty list.
abbrev pub reset_of : Option Hwm → Option Hwm
reset_of mark = if has_value mark then some none else mark

get_hwm-reset_hwm :
    (name : Text) (store : List (Text × Hwm))
    → has_value (get_hwm name store) ≡ true
    → get_hwm name (reset_hwm name store) ≡ some none
get_hwm-reset_hwm name [] h = absurd (cc h)
get_hwm-reset_hwm name ((k, m) ∷ store) h = elim (Bool-cases (text_eq k name)) [
  | inl same ↦ rw same refl
  | inr other ↦ rw other (get_hwm-reset_hwm name store (rw other at h))
]

module _ (raises : Call → Bool) where
  read_and_write-store :
      (controller : TransferController) (hwm : Option Hwm) (w : World)
      → (read_and_write raises controller hwm w).1.store ≡ w.store
  read_and_write-store controller hwm w = ground arith

  set_hwm_none-mark :
      (name : Text) (w : World)
      → has_value (get_hwm name w.store) ≡ true
      → (set_hwm_none raises name w).0 ≡ true
      → get_hwm name (set_hwm_none raises name w).1.store ≡ some none
  set_hwm_none-mark name w set ok = elim (Bool-cases (raises (set_hwm name))) [
    | inl fails ↦ absurd (cc (rw fails at ok))
    | inr returns ↦ rw returns (get_hwm-reset_hwm name w.store set)
  ]

  reset_value-mark :
      (controller : TransferController) (w : World)
      → (reset_value raises controller w).0 ≡ true
      → mark_of controller (reset_value raises controller w).1.store
        ≡ reset_of (mark_of controller w.store)
  reset_value-mark controller w ok = elim (Bool-cases (has_value (mark_of controller w.store))) [
    | inl set ↦ rw set (
        set_hwm_none-mark (get_transfer_hwm_name controller.source_type controller.source) w set
          (rw set at ok))
    | inr unset ↦ rw unset refl
  ]

  then_do-ok :
      (m k : Body) (w : World)
      → (then_do raises m k w).0 ≡ true
      → ((m w).0 ≡ true) × (then_do raises m k w ≡ k (m w).1)
  then_do-ok m k w = by_result (m w)
    where
      by_result :
          (r : Bool × World)
          → (if r.0 then k r.1 else (false, r.1)).0 ≡ true
          → (r.0 ≡ true) × ((if r.0 then k r.1 else (false, r.1)) ≡ k r.1)
      by_result (true, w1) h = (refl, refl)
      by_result (false, w1) h = absurd (ground arith)

  reset_transfer_hwm-mark :
      (controller : TransferController) (w : World)
      → (reset_transfer_hwm raises controller w).0 ≡ true
      → mark_of controller (reset_transfer_hwm raises controller w).1.store
        ≡ reset_of (mark_of controller w.store)
  unfolding reset_transfer_hwm
  reset_transfer_hwm-mark controller w ok =
      let h = then_do-ok (call raises open_hwm_store) (reset_value raises controller) w ok in
      rw h.1 (reset_value-mark controller (call raises open_hwm_store w).1 (rw (← h.1) ok))

  full_with-mark :
      (enabled : Bool) (controller : TransferController) (w : World)
      → enabled ≡ true
      → let r =
          then_do raises
            (if enabled then reset_transfer_hwm raises controller else (λ w. (true, w)))
            (read_and_write raises controller none)
            w in
        r.0 ≡ true → mark_of controller r.1.store ≡ reset_of (mark_of controller w.store)
  full_with-mark true controller w enabled ok =
      let h =
        then_do-ok (reset_transfer_hwm raises controller) (read_and_write raises controller none) w
          ok in
      rw (h.1, read_and_write-store controller none (reset_transfer_hwm raises controller w).1)
        (reset_transfer_hwm-mark controller w h.0)
  full_with-mark false controller w enabled ok = absurd (ground arith)

  connected-mark :
      (controller : TransferController) (w : World)
      → is_incremental controller.source.strategy ≡ false
      → controller.hwm_store_enabled ≡ true
      → (connected raises controller w).0 ≡ true
      → mark_of controller (connected raises controller w).1.store
        ≡ reset_of (mark_of controller w.store)
  connected-mark controller w full enabled ok =
      rw full (full_with-mark controller.hwm_store_enabled controller w enabled (rw full at ok))

  -- A full transfer that returns, with the store of marks enabled, leaves the mark of the transfer
  -- without a value if it had one that counts as true; a mark of zero or of no files, and a mark that
  -- is missing or has no value, stay as they are.
  pub perform_transfer-mark :
      (controller : TransferController) (w : World)
      → is_incremental controller.source.strategy ≡ false
      → controller.hwm_store_enabled ≡ true
      → (perform_transfer raises controller w).0 ≡ true
      → mark_of controller (perform_transfer raises controller w).1.store
        ≡ reset_of (mark_of controller w.store)
  unfolding perform_transfer try_transfer
  perform_transfer-mark controller w full enabled ok =
      let with_target = then_do raises (call raises connect_target) (connected raises controller) in
      let with_source = then_do raises (call raises connect_source) with_target in
      let w1 = (call raises create_spark_session w).1 in
      let w2 = (call raises connect_source w1).1 in
      let w3 = (call raises connect_target w2).1 in
      let h1 = then_do-ok (call raises create_spark_session) with_source w ok in
      let ok1 : (with_source w1).0 ≡ true = rw h1.1 at ok in
      let h2 = then_do-ok (call raises connect_source) with_target w1 ok1 in
      let ok2 : (with_target w2).0 ≡ true = rw h2.1 at ok1 in
      let h3 = then_do-ok (call raises connect_target) (connected raises controller) w2 ok2 in
      let ok3 : (connected raises controller w3).0 ≡ true = rw h3.1 at ok2 in
      rw (h1.1, h2.1, h3.1) (connected-mark controller w3 full enabled ok3)
