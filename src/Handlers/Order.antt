-- ===== src/Handlers/Order.antt =====
-- The calls that `perform_transfer` makes, in their order.
use syncmaster.Handlers.Hwm.{Hwm}
