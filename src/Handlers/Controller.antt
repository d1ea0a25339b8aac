-- ===== src/Handlers/Controller.antt =====
-- `TransferController.perform_transfer` of syncmaster/worker/controller.py: the order of the calls
-- that it makes, each of which can raise, and the store of high water marks.
use syncmaster.Handlers.Hwm.{
  Hwm, TransferDto, get_transfer_hwm_name, has_value, is_incremental, reader_hwm_name, write_mode,
}
use syncmaster.Prelude.{
  Bool, List, Text, if◌then◌else◌, not, Option, ◌++◌, ◌∷◌, false, none, [], text_eq, true, some,
}

-- A call of a connection, of a reader or of a writer, with the arguments that the program decides.
pub data Call : Type 0 where
  create_spark_session connect_source connect_target open_hwm_store : Call
  set_hwm : Text → Call
  run_reader : Option Text → Call
  run_writer : Option Text → Call
  cleanup : Call

pub record World : Type 0 where
  pub store : List (Text × Hwm)
  pub calls : List Call

pub record TransferController : Type 0 where
  pub source_type : Text
  pub source : TransferDto
  pub target : TransferDto
  pub hwm_store_enabled : Bool

abbrev pub get_hwm : Text → List (Text × Hwm) → Option Hwm
get_hwm name [] = none
get_hwm name ((k, h) ∷ hs) = if text_eq k name then some h else get_hwm name hs

abbrev pub reset_hwm : Text → List (Text × Hwm) → List (Text × Hwm)
reset_hwm name [] = []
reset_hwm name ((k, h) ∷ hs) = (k, if text_eq k name then none else h) ∷ reset_hwm name hs

-- Whether the body returned, and what it did.
abbrev pub Body : Type 0
Body = World → Bool × World

module _ (raises : Call → Bool) where
  abbrev pub call : Call → Body
  call c w = (not (raises c), record w { calls = w.calls ++ c ∷ [] })

  abbrev pub then_do : Body → Body → Body
  then_do m k w = let (returned, w') = m w in if returned then k w' else (false, w')

  -- `hwm.reset(); hwm_store.set_hwm(hwm)`
  abbrev pub set_hwm_none : Text → Body
  set_hwm_none name w =
      let (returned, w') = call (set_hwm name) w in
      (returned, if returned then record w' { store = reset_hwm name w'.store } else w')

  -- `if hwm and hwm.value:`
  abbrev pub reset_value : TransferController → Body
  reset_value controller w =
      let name = get_transfer_hwm_name controller.source_type controller.source in
      if has_value (get_hwm name w.store) then set_hwm_none name w else (true, w)

  unfoldable pub reset_transfer_hwm : TransferController → Body
  reset_transfer_hwm controller = then_do (call open_hwm_store) (reset_value controller)

  abbrev pub read_and_write : TransferController → Option Hwm → Body
  read_and_write controller hwm =
      then_do (call (run_reader (reader_hwm_name controller.source_type controller.source)))
        (call (run_writer (write_mode hwm controller.target)))

  -- The mark that the store has for the transfer goes to both handlers.
  abbrev pub copy_from_mark : TransferController → Body
  copy_from_mark controller w =
      read_and_write controller
        (get_hwm (get_transfer_hwm_name controller.source_type controller.source) w.store) w

  unfoldable pub perform_incremental_transfer : TransferController → Body
  perform_incremental_transfer controller =
      then_do (call open_hwm_store) (copy_from_mark controller)

  -- Without an incremental strategy, the handlers have no mark.
  abbrev pub perform_full_transfer : TransferController → Body
  perform_full_transfer controller =
      then_do
        (if controller.hwm_store_enabled then reset_transfer_hwm controller else (λ w. (true, w)))
        (read_and_write controller none)

  abbrev pub connected : TransferController → Body
  connected controller =
      if is_incremental controller.source.strategy
      then perform_incremental_transfer controller
      else perform_full_transfer controller

  -- The body of the `try`.
  unfoldable pub try_transfer : TransferController → Body
  try_transfer controller =
      then_do (call create_spark_session)
        (then_do (call connect_source) (then_do (call connect_target) (connected controller)))

  -- `try: … finally: self.temp_dir.cleanup()`
  unfoldable pub perform_transfer : TransferController → Body
  perform_transfer controller w =
      let (returned, w') = try_transfer controller w in
      (returned, record w' { calls = w'.calls ++ cleanup ∷ [] })
