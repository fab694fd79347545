-- ===== src/Services/Order/Placing.antt =====
-- What services/order-service/app/api.py and consumer.py do to an order.
use event_driven_demo.Base.{
  ℕ, ◌+◌, ◌≡◌, refl, ap, ◌∙◌, String, Bool, true, false, some, none, [], ◌∷◌, ◌++◌, ◌==◌, elem,
  if◌then◌else◌,
}
use event_driven_demo.Base.Table.{find, map_row, find-update}
use event_driven_demo.Pyevents.Effect.{
  Action, ok, err, db_error, item_num, bind_ok, bind_err, pure, ◌>>◌,
}
use event_driven_demo.Pyevents.Outbox.{stage_event}
use event_driven_demo.Pyevents.Db.{idle, process_once}
use event_driven_demo.Pyevents.Consumer.{Message}
use event_driven_demo.Pyevents.Saga.{Orch, charge}
use event_driven_demo.Services.Orchestrator.Start.{handler-starts}
use event_driven_demo.Services.Orchestrator as Orchestrator
use event_driven_demo.Services.Orchestrator.Machine.{waiting, on_placed}
use event_driven_demo.Services.Orchestrator.Turns.{Turned}
use event_driven_demo.Services.Orchestrator.Steps.{row_of}
use event_driven_demo.Pyevents.Db.Once.{marked}
use event_driven_demo.Services.Order.{
  Orders, OrderRow, PlaceOrder, Status, pending, fits_bigint, with_order, is_valid, place,
  place_order, insert_order, placed_body, status_of, handler,
}

-- The order of `req` in a database, with its event.
abbrev pub pending_order : PlaceOrder → OrderRow
pending_order req = record {
  customer_id = req.customer_id;
  total_cents = req.total_cents;
  status = pending;
}

-- The database with the new order and its event.
abbrev pub with_event : (event_id placed_at : String) → PlaceOrder → Orders → Orders
with_event event_id placed_at req d =
    let e = with_order req d in
    record e {
      outbox =
          d.outbox
          ++ record {
            id = d.next_id;
            event_id = event_id;
            routing_key = "order.placed";
            body = placed_body event_id d.tables.next_order req placed_at;
            published = false;
          }
            ∷ [];
      next_id = d.next_id + 1;
    }

insert_fits :
    (req : PlaceOrder) (d : Orders)
    → fits_bigint req.total_cents ≡ true
    → insert_order req d ≡ (ok d.tables.next_order, with_order req d)
unfolding insert_order
insert_fits req d fits = rw fits refl

insert_too_large :
    (req : PlaceOrder) (d : Orders)
    → fits_bigint req.total_cents ≡ false
    → insert_order req d ≡ (err db_error, d)
unfolding insert_order
insert_too_large req d large = rw large refl

-- What follows the INSERT.
abbrev announce : (event_id placed_at : String) → PlaceOrder → ℕ → Action Orders ℕ
announce event_id placed_at req order_id =
    stage_event event_id "order.placed" (placed_body event_id order_id req placed_at)
    >> pure order_id

pub place_fits :
    (event_id placed_at : String) (req : PlaceOrder) (d : Orders)
    → fits_bigint req.total_cents ≡ true
    → place event_id placed_at req d ≡ (ok d.tables.next_order, with_event event_id placed_at req d)
unfolding place stage_event
place_fits event_id placed_at req d fits =
    let e = insert_fits req d fits in
    bind_ok (insert_order req) (announce event_id placed_at req) d d.tables.next_order
      (ap (λ z. z.0) e)
    ∙ ap (λ z. announce event_id placed_at req d.tables.next_order z.1) e

pub place_too_large :
    (event_id placed_at : String) (req : PlaceOrder) (d : Orders)
    → fits_bigint req.total_cents ≡ false
    → place event_id placed_at req d ≡ (err db_error, d)
unfolding place
place_too_large event_id placed_at req d large =
    let e = insert_too_large req d large in
    bind_err (insert_order req) (announce event_id placed_at req) d db_error (ap (λ z. z.0) e)
    ∙ ap (λ z. (err db_error, z.1)) e

-- A valid request whose total the column holds commits, in one step, a pending order under the next id and one order.placed event
-- about it, whose body names the order and its total; other orders stay.
pub place_order_commits :
    (event_id placed_at : String) (req : PlaceOrder) (d : Orders)
    → is_valid req ≡ true
    → fits_bigint req.total_cents ≡ true
    → let o = d.tables.next_order in
      let body = placed_body event_id o req placed_at in
      let (r, c) = place_order event_id placed_at req (idle d) in
      (r ≡ ok o)
      × (c.current ≡ c.committed)
      × (c.committed.tables.orders ≡ (o, pending_order req) ∷ d.tables.orders)
      × (c.committed.tables.next_order ≡ o + 1)
      × (c.committed.outbox
          ≡ d.outbox
            ++ record {
              id = d.next_id;
              event_id = event_id;
              routing_key = "order.placed";
              body = body;
              published = false;
            }
              ∷ [])
      × (item_num "order_id" body ≡ ok o)
      × (item_num "total_cents" body ≡ ok req.total_cents)
unfolding place_order
place_order_commits event_id placed_at req d valid fits =
    rw (valid, place_fits event_id placed_at req d fits) (refl, refl, refl, refl, refl, refl, refl)

-- The message of an order that is placed starts its saga, with the order's total, at an orchestrator
-- that knows neither the order nor the event.
pub placed_order_starts :
    (event_id placed_at : String) (req : PlaceOrder) (now o attempt : ℕ) (redelivered : Bool)
    (d : Orch)
    → elem event_id d.processed ≡ false
    → find o d.tables.sagas ≡ none
    → let msg : Message = record {
      routing_key = "order.placed";
      body = placed_body event_id o req placed_at;
      event_id = event_id;
      redelivered = redelivered;
      attempt = attempt;
    } in
      Turned o
        (marked event_id d)
        (row_of (waiting charge) o req.total_cents now)
        (on_placed none).sends
        (Orchestrator.handler now msg (idle d)).1.committed
placed_order_starts event_id placed_at req now o attempt redelivered d new absent =
    handler-starts now o req.total_cents _ d new refl refl refl absent

-- The first delivery of order.shipped or order.cancelled sets the status of its order and of no other.
pub handler-sets :
    (msg : Message) (status : Status) (o j : ℕ) (d : Orders)
    → status_of msg.routing_key ≡ some status
    → item_num "order_id" msg.body ≡ ok o
    → elem msg.event_id d.processed ≡ false
    → ((handler msg (idle d)).0 ≡ ok tt)
      × (find j (handler msg (idle d)).1.committed.tables.orders ≡ (
          if o == j
          then map_row (λ row. record row { status = status }) (find j d.tables.orders)
          else find j d.tables.orders))
unfolding handler process_once
handler-sets msg status o j d closes order new =
    rw (closes, order, new)
      (refl, find-update j o (λ row. record row { status = status }) d.tables.orders)
