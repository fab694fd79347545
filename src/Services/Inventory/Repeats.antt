-- ===== src/Services/Inventory/Repeats.antt =====
-- A command that is delivered again to services/inventory-service/app/__main__.py changes nothing.
use event_driven_demo.Base.{ℕ, ◌≡◌, refl, String, Bool, arith}
use event_driven_demo.Pyevents.Effect.{Result, ok, err, item_num}
use event_driven_demo.Pyevents.Db.{idle}
use event_driven_demo.Pyevents.Db.Once.{handle_once_repeat, handle_once_returns}
use event_driven_demo.Pyevents.Consumer.{Message}
use event_driven_demo.Services.Inventory.{Inventory, InventoryState, work, run_command, handler}

work-processed :
    (fail silent : Bool) (cmd : String) (o : ℕ) (d : Inventory)
    → (work fail silent cmd o d).1.processed ≡ d.processed
unfolding work
work-processed fail silent cmd o d = ground arith

work_returns :
    (fail silent : Bool) (cmd : String) (o : ℕ) (d : Inventory)
    → (work fail silent cmd o d).0 ≡ ok tt
unfolding work
work_returns fail silent cmd o d = ground arith

run_command_repeat :
    (s s' : InventoryState) (msg : Message) (r : Result ℕ) (d : Inventory)
    → let d' = (run_command s msg r (idle d)).1.committed in
      (run_command s' msg r (idle d')).1 ≡ idle d'
unfolding run_command
run_command_repeat s s' msg (err e) d = refl
run_command_repeat s s' msg (ok o) d = λ i.
    (handle_once_repeat msg.event_id (work s.fail s.silent msg.routing_key o)
      (work s'.fail s'.silent msg.routing_key o) d
      (work-processed s.fail s.silent msg.routing_key o _)
      (work_returns s.fail s.silent msg.routing_key o _) i).1

-- A command that is delivered twice is applied once: the second delivery leaves the database as the
-- first has committed it, also when the switches of the failure lab have been changed in between.
pub inventory_repeat :
    (s s' : InventoryState) (msg : Message) (d : Inventory)
    → let d' = (handler s msg (idle d)).1.committed in (handler s' msg (idle d')).1 ≡ idle d'
unfolding handler
inventory_repeat s s' msg d = run_command_repeat s s' msg (item_num "order_id" msg.body) d

-- A command with an order is handled.
pub handler_returns :
    (s : InventoryState) (msg : Message) (d : Inventory) (o : ℕ)
    → item_num "order_id" msg.body ≡ ok o
    → (handler s msg (idle d)).0 ≡ ok tt
unfolding handler run_command
handler_returns s msg d o order = rw order (
    handle_once_returns msg.event_id (work s.fail s.silent msg.routing_key o) d
      (work_returns s.fail s.silent msg.routing_key o _))
