-- ===== src/System/WorldExamples.antt =====
-- The theorems on all services together, at an order that is placed, charged for and reserved.
use event_driven_demo.Base.{◌≡◌, ◌≢◌, refl, some, true, false, List, [], ◌∷◌}
use event_driven_demo.Base.Int.{ℤ, pos, ◌+ℤ◌}
use event_driven_demo.Base.Text.{str}
use event_driven_demo.Pyevents.Effect.{err, key_error, type_error}
use event_driven_demo.Pyevents.Db.{OutboxRow}
use event_driven_demo.Pyevents.Json.{get, string, num, empty, item}
use event_driven_demo.Services.Order.{fits_bigint, place_order}
use event_driven_demo.Services.Orchestrator.{handler}
use event_driven_demo.Services.Inventory.{widget}
use event_driven_demo.Services.Inventory.Stock.{lookup, held}
use event_driven_demo.System.World.{Service, Step, request, delivery, received, receive, run}
use event_driven_demo.System.World.Labels.{same_id}
use event_driven_demo.System.World.Handled.{fresh_world, messages_readable, system_stock_conserved}
use event_driven_demo.Services.Samples.{accepting, stocked, couriers}
use event_driven_demo.System.Switches.{Processes}

abbrev lab : Processes
lab = record {
  payment = accepting;
  inventory = stocked;
  shipping = couriers;
  order = record { duplicate_mode = false; relay_paused = false };
  orchestrator = record { duplicate_mode = false; relay_paused = false };
}

abbrev placed : Step
placed = request "uuid" "now" (record {
  customer_id = "c";
  items = record { sku = "WIDGET-1"; qty = 1 } ∷ [];
  total_cents = 500;
})

-- The order gets to the orchestrator twice.
abbrev begun : List Step
begun =
    placed
    ∷ delivery Service.order Service.orchestrator 0 10 1 false
    ∷ delivery Service.order Service.orchestrator 0 11 1 true
    ∷ []

abbrev charge_row : OutboxRow
charge_row = record {
  id = 1;
  event_id = "cmd.payment.charge:1001";
  routing_key = "cmd.payment.charge";
  body =
      item "event_id" (string "cmd.payment.charge:1001")
        (item "order_id" (num 1001) (item "amount_cents" (num 500) empty));
  published = false;
}

messages_readable_example :
    ((receive Service.payment 12 (received false 1 charge_row) (run begun (fresh_world lab))).0
      ≢ err key_error)
    × ((receive Service.payment 12 (received false 1 charge_row) (run begun (fresh_world lab))).0
        ≢ err type_error)
unfolding run place_order handler str fits_bigint
messages_readable_example =
    messages_readable lab begun Service.orchestrator Service.payment 0 12 1 false charge_row refl

abbrev reserved : List Step
reserved =
    placed
    ∷ delivery Service.order Service.orchestrator 0 10 1 false
    ∷ delivery Service.orchestrator Service.payment 0 11 1 false
    ∷ delivery Service.payment Service.orchestrator 0 12 1 false
    ∷ delivery Service.orchestrator Service.inventory 1 13 1 false
    ∷ delivery Service.orchestrator Service.inventory 1 14 2 true
    ∷ []

system_stock_conserved_example :
    let d = (run reserved (fresh_world lab)).inventory in
    (level : ℤ) × (lookup widget d.tables.stock ≡ some level)
    × (level +ℤ pos (held d.tables.reservations) ≡ pos 100000)
system_stock_conserved_example = system_stock_conserved lab reserved

-- The charge and its copy in the same outbox.
same_id_example :
    (charge_row.routing_key ≡ charge_row.routing_key)
    × (get "order_id" charge_row.body ≡ get "order_id" charge_row.body)
unfolding run place_order handler str fits_bigint
same_id_example =
    same_id lab begun Service.orchestrator Service.orchestrator 0 0 charge_row charge_row refl refl
      refl refl refl
