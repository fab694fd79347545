-- ===== src/System/World.antt =====
-- The five services that keep an order, with their databases, and the messages between them.
pub mod Good
pub mod Handled
pub mod Labels
use event_driven_demo.Base.{ℕ, zero, suc, String, Bool, Option, none, some, List, [], ◌∷◌}
use event_driven_demo.Pyevents.Json.{Json, string, get}
use event_driven_demo.Pyevents.Effect.{Result, ok, err, ⊤}
use event_driven_demo.Pyevents.Db.{OutboxRow, Store, Conn, idle}
use event_driven_demo.Pyevents.Consumer.{Message}
use event_driven_demo.Pyevents.Saga.{Orch}
use event_driven_demo.Services.Payment
use event_driven_demo.Services.Payment.{Payments}
use event_driven_demo.Services.Inventory
use event_driven_demo.Services.Inventory.{Inventory}
use event_driven_demo.Services.Shipping
use event_driven_demo.Services.Shipping.{Shipping}
use event_driven_demo.Services.Order
use event_driven_demo.Services.Order.{Orders, PlaceOrder, place_order}
use event_driven_demo.Services.Orchestrator
use event_driven_demo.Services.Orchestrator.Timeouts.{watchdog}
use event_driven_demo.System.Switches.{Processes}

-- The switches of the failure lab and the committed databases.
pub record World : Type 0 where
  pub lab : Processes
  pub orchestrator : Orch
  pub payment : Payments
  pub inventory : Inventory
  pub shipping : Shipping
  pub order : Orders

pub data Service : Type 0 where
  orchestrator payment inventory shipping order : Service

abbrev pub outbox_of : Service → World → List OutboxRow
outbox_of Service.orchestrator w = w.orchestrator.outbox
outbox_of Service.payment w = w.payment.outbox
outbox_of Service.inventory w = w.inventory.outbox
outbox_of Service.shipping w = w.shipping.outbox
outbox_of Service.order w = w.order.outbox

abbrev pub get_elem? {ℓ} : {A : Type ℓ} → List A → ℕ → Option A
get_elem? [] n = none
get_elem? (x ∷ xs) zero = some x
get_elem? (x ∷ xs) (suc n) = get_elem? xs n

abbrev pub text_of : Option Json → String
text_of (some (string s)) = s
text_of _ = ""

-- What the consume loop hands to a handler, for a message of this row.
abbrev pub received : Bool → ℕ → OutboxRow → Message
received redelivered attempt row = record {
  routing_key = row.routing_key;
  body = row.body;
  event_id = text_of (get "event_id" row.body);
  redelivered = redelivered;
  attempt = attempt;
}

-- A service handles a message, at the time `now`.
unfoldable pub receive : Service → ℕ → Message → World → Result ⊤ × World
receive Service.orchestrator now msg w =
    let (r, c) = Orchestrator.handler now msg (idle w.orchestrator) in
    (r, record w { orchestrator = c.committed })
receive Service.payment now msg w =
    let (r, c) = Payment.handler w.lab.payment msg (idle w.payment) in
    (r, record w { payment = c.committed })
receive Service.inventory now msg w =
    let (r, c) = Inventory.handler w.lab.inventory msg (idle w.inventory) in
    (r, record w { inventory = c.committed })
receive Service.shipping now msg w =
    let (r, c) = Shipping.handler w.lab.shipping msg (idle w.shipping) in
    (r, record w { shipping = c.committed })
receive Service.order now msg w =
    let (r, c) = Order.handler msg (idle w.order) in (r, record w { order = c.committed })

-- A request to place an order; the delivery of the `n`-th message that one service has staged to
-- any service, as often as it likes and in any order; a round of the watchdog; other switches.
pub data Step : Type 0 where
  request : (event_id placed_at : String) → PlaceOrder → Step
  delivery : (from to : Service) (n now attempt : ℕ) (redelivered : Bool) → Step
  tick : (now timeout_s : ℕ) (locked : ℕ → Bool) → Step
  switch : Processes → Step

deliver_row : Service → ℕ → Bool → ℕ → Option OutboxRow → World → World
unfolding receive
deliver_row to now redelivered attempt none w = w
deliver_row to now redelivered attempt (some row) w =
    (receive to now (received redelivered attempt row) w).1

unfoldable pub step : Step → World → World
unfolding deliver_row
step (request event_id placed_at req) w = record w {
  order = (place_order event_id placed_at req (idle w.order)).1.committed;
}
step (delivery from to n now attempt redelivered) w =
    deliver_row to now redelivered attempt (get_elem? (outbox_of from w) n) w
step (tick now timeout_s locked) w = record w {
  orchestrator = (watchdog now timeout_s locked (idle w.orchestrator)).committed;
}
step (switch lab) w = record w { lab = lab }

unfoldable pub run : List Step → World → World
unfolding step
run [] w = w
run (s ∷ ss) w = run ss (step s w)
