-- ===== src/System/World/Handled.antt =====
-- In whatever way the messages between the services are delivered: none is refused, and no stock is lost.
use event_driven_demo.Base.{◌≢◌, ℕ, ◌≡◌, refl, Bool, some, List, []}
use event_driven_demo.Base.Int.{ℤ, pos, ◌+ℤ◌}
use event_driven_demo.Pyevents.Effect.{err, key_error, type_error, ok, item_num}
use event_driven_demo.Pyevents.Db.{OutboxRow}
use event_driven_demo.Services.Payment
use event_driven_demo.Services.Inventory
use event_driven_demo.Services.Inventory.{widget}
use event_driven_demo.Services.Inventory.Stock.{lookup, held}
use event_driven_demo.Services.Inventory.Conserved.{full_stock, full_stock-Balanced}
use event_driven_demo.Services.Shipping
use event_driven_demo.Services.Order
use event_driven_demo.Services.Orchestrator
use event_driven_demo.Services.Orchestrator.Outcome.{fresh_db, fresh-AllSound}
use event_driven_demo.System.Switches.{Processes}
use event_driven_demo.System.Typed.{Typed}
use event_driven_demo.System.World.{
  World, Service, outbox_of, get_elem?, received, receive, Step, run,
}
use event_driven_demo.System.World.Good.{Good, All-elem, staged-Typed, run-Good}

-- The databases as the schema scripts make them.
abbrev pub fresh_world : Processes → World
fresh_world lab = record {
  lab = lab;
  orchestrator = fresh_db;
  payment = record {
    tables = record { payments = []; total_charged_cents = pos 0 };
    processed = [];
    outbox = [];
    next_id = 1;
  };
  inventory = full_stock;
  shipping = record {
    tables = record { shipments = [] };
    processed = [];
    outbox = [];
    next_id = 1;
  };
  order = record {
    tables = record { orders = []; next_order = 1001 };
    processed = [];
    outbox = [];
    next_id = 1;
  };
}

pub fresh-Good : (lab : Processes) → Good (pos 100000) (fresh_world lab)
fresh-Good lab = record {
  sound = fresh-AllSound;
  balanced = full_stock-Balanced;
  orchestrator = tt;
  payment = tt;
  inventory = tt;
  shipping = tt;
  order = tt;
}

Typed-handled :
    (to : Service) (now : ℕ) (redelivered : Bool) (attempt : ℕ) (row : OutboxRow) (w : World)
    → Good (pos 100000) w
    → Typed row
    → (receive to now (received redelivered attempt row) w).0 ≡ ok tt
unfolding receive
Typed-handled Service.orchestrator now re k row w g t =
    Orchestrator.Returns.handler_returns now w.orchestrator g.sound (received re k row) t.order
      (rw (item_num, t.ordered) refl) t.totalled
Typed-handled Service.payment now re k row w g t =
    Payment.Repeats.handler_returns w.lab.payment (received re k row) w.payment t.order t.amount
      (rw (item_num, t.ordered) refl) t.priced
Typed-handled Service.inventory now re k row w g t =
    Inventory.Repeats.handler_returns w.lab.inventory (received re k row) w.inventory t.order
      (rw (item_num, t.ordered) refl)
Typed-handled Service.shipping now re k row w g t =
    Shipping.Repeats.handler_returns w.lab.shipping (received re k row) w.shipping t.order
      (rw (item_num, t.ordered) refl)
Typed-handled Service.order now re k row w g t =
    Order.Keeps.handler_returns (received re k row) w.order t.order (rw (item_num, t.ordered) refl)

-- A message that a service has staged is handled, where the columns hold every sum.
pub messages_handled :
    (lab : Processes) (ss : List Step) (from to : Service) (n now attempt : ℕ) (redelivered : Bool)
    (row : OutboxRow)
    → get_elem? (outbox_of from (run ss (fresh_world lab))) n ≡ some row
    → (receive to now (received redelivered attempt row) (run ss (fresh_world lab))).0 ≡ ok tt
messages_handled lab ss from to n now attempt redelivered row e =
    let w = run ss (fresh_world lab) in
    let g = run-Good (pos 100000) ss (fresh_world lab) (fresh-Good lab) in
    Typed-handled to now redelivered attempt row w g
      (All-elem Typed n (outbox_of from w) row (staged-Typed g from) e)

-- Whatever orders have been placed, messages delivered, rounds of the watchdog made and switches set,
-- from empty databases: no service raises a KeyError or a TypeError on the body of a message that a
-- service has staged.
pub messages_readable :
    (lab : Processes) (ss : List Step) (from to : Service) (n now attempt : ℕ) (redelivered : Bool)
    (row : OutboxRow)
    → get_elem? (outbox_of from (run ss (fresh_world lab))) n ≡ some row
    → let w = run ss (fresh_world lab) in
      ((receive to now (received redelivered attempt row) w).0 ≢ err key_error)
      × ((receive to now (received redelivered attempt row) w).0 ≢ err type_error)
messages_readable lab ss from to n now attempt redelivered row e =
    let handled = messages_handled lab ss from to n now attempt redelivered row e in
    ((λ raised. cc), (λ raised. cc))

-- Whatever orders have been placed, messages delivered, in whatever order and however often, rounds of
-- the watchdog made and switches set, from empty databases and 100000 units: the units on the shelf and
-- the units reserved are together the 100000.
pub system_stock_conserved :
    (lab : Processes) (ss : List Step)
    → let d = (run ss (fresh_world lab)).inventory in
      (level : ℤ) × (lookup widget d.tables.stock ≡ some level)
      × (level +ℤ pos (held d.tables.reservations) ≡ pos 100000)
system_stock_conserved lab ss =
    let b = (run-Good (pos 100000) ss (fresh_world lab) (fresh-Good lab)).balanced in
    (b.level, b.on_shelf, b.conserved)
