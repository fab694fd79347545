-- ===== src/Services/Inventory/Keeps.antt =====
-- What the mark and every command of services/inventory-service/app/__main__.py keep, a delivery keeps.
use event_driven_demo.Base.{ℕ}
use event_driven_demo.Pyevents.Effect.{Result, ok, err, item_num}
use event_driven_demo.Pyevents.Db.{idle}
use event_driven_demo.Pyevents.Db.Once.{marked, handle_once_invariant}
use event_driven_demo.Pyevents.Consumer.{Message}
use event_driven_demo.Services.Inventory.{Inventory, InventoryState, work, run_command, handler}

module _ (I : Inventory → Type 0) (s : InventoryState) (msg : Message) (d : Inventory)
    (mark_keeps : I d → I (marked msg.event_id d))
    (work_keeps : (o : ℕ) (e : Inventory) → I e → I (work s.fail s.silent msg.routing_key o e).1)
    (h : I d) where
  run_command_keeps : (r : Result ℕ) → I (run_command s msg r (idle d)).1.committed
  unfolding run_command
  run_command_keeps (err e) = h
  run_command_keeps (ok o) =
      handle_once_invariant msg.event_id (work s.fail s.silent msg.routing_key o) d I (mark_keeps h)
        (work_keeps o (marked msg.event_id d)) h

  pub handler_keeps : I (handler s msg (idle d)).1.committed
  unfolding handler
  handler_keeps = run_command_keeps (item_num "order_id" msg.body)
