-- ===== src/Services/Order.antt =====
-- services/order-service/app/api.py and consumer.py, and the table of its schema.sql.
pub mod Placing
pub mod Keeps
pub mod Paired
mod Examples
use Prim.Native.Nat.{◌^◌}
use event_driven_demo.Base.{
  ℕ, ◌+◌, String, Bool, true, false, Option, none, some, List, [], ◌∷◌, str_eq, leb, ltb, ◌&&◌,
  if◌then◌else◌,
}
use event_driven_demo.Base.Table.{Table, find, update}
use event_driven_demo.Pyevents.Json.{
  Items, nil, cons, num, string, obj, arr, Dict, empty, item, get,
}
use event_driven_demo.Pyevents.Effect.{
  Result, ok, err, type_error, db_error, ⊤, Action, modify, ◌>>=◌, ◌>>◌, pure, item_num,
}
use event_driven_demo.Pyevents.Db.{Store, Conn, commit, execute, process_once}
use event_driven_demo.Pyevents.Outbox.{stage_event}
use event_driven_demo.Pyevents.Consumer.{Message}
use event_driven_demo.Services.Control.{
  Switches, set_duplicate_mode, set_relay_paused, says, truthy,
}

-- The texts of the `status` column.
pub data Status : Type 0 where
  pending shipped cancelled : Status

pub record OrderRow : Type 0 where
  pub customer_id : String
  pub total_cents : ℕ
  pub status : Status

-- `next_order` is the BIGSERIAL of `order_id`.
pub record OrderDb : Type 0 where
  pub orders : Table OrderRow
  pub next_order : ℕ

abbrev pub Orders : Type 0
Orders = Store OrderDb

pub record OrderItem : Type 0 where
  pub sku : String
  pub qty : ℕ

pub record PlaceOrder : Type 0 where
  pub customer_id : String
  pub items : List OrderItem
  pub total_cents : ℕ

-- The constraints of the request's fields; a quantity and a total are no negative numbers here.
abbrev qty_ok : List OrderItem → Bool
qty_ok [] = true
qty_ok (i ∷ is) = leb 1 i.qty && qty_ok is

abbrev not_empty : List OrderItem → Bool
not_empty [] = false
not_empty (i ∷ is) = true

abbrev pub is_valid : PlaceOrder → Bool
is_valid req = not_empty req.items && qty_ok req.items

abbrev dump_items : List OrderItem → Items
dump_items [] = nil
dump_items (i ∷ is) =
    cons (obj (item "sku" (string i.sku) (item "qty" (num i.qty) empty))) (dump_items is)

-- A BIGINT column holds the number; Python's integers have no bound.
unfoldable pub fits_bigint : ℕ → Bool
fits_bigint n = ltb n (2 ^ 63)

-- The row of a new order, under the next id.
abbrev pub with_order : PlaceOrder → Orders → Orders
with_order req d = record d {
  tables = record {
    orders =
        (
          d.tables.next_order,
          record { customer_id = req.customer_id; total_cents = req.total_cents; status = pending },
        )
        ∷ d.tables.orders;
    next_order = d.tables.next_order + 1;
  };
}

-- INSERT INTO orders … RETURNING order_id; a total that the column does not hold is refused.
unfoldable pub insert_order : PlaceOrder → Action Orders ℕ
insert_order req d =
    if fits_bigint req.total_cents
    then (ok d.tables.next_order, with_order req d)
    else (err db_error, d)

-- The `order.placed` body.
abbrev pub placed_body : String → ℕ → PlaceOrder → String → Dict
placed_body event_id order_id req placed_at = item "event_id" (string event_id) (
    item "order_id" (num order_id) (
      item "customer_id" (string req.customer_id) (
        item "items" (arr (dump_items req.items))
          (item "total_cents" (num req.total_cents) (item "placed_at" (string placed_at) empty)))))

-- The statements of `POST /orders`: the order's row and the event's.
unfoldable pub place : String → String → PlaceOrder → Action Orders ℕ
unfolding insert_order stage_event
place event_id placed_at req = insert_order req >>= λ order_id.
    stage_event event_id "order.placed" (placed_body event_id order_id req placed_at)
    >> pure order_id

-- A statement that raises leaves its transaction open: api.py has no rollback. The server refuses what
-- comes next on that connection; that it is executed here only adds to the runs.
unfoldable pub committed_after : Result ℕ × Conn Orders → Result ℕ × Conn Orders
committed_after (ok order_id, c) = (ok order_id, commit c)
committed_after (err e, c) = (err e, c)

-- `POST /orders`: the framework refuses a request that breaks its constraints. The id is a new
-- UUID and the time is now; both are given.
unfoldable pub place_order : String → String → PlaceOrder → Conn Orders → Result ℕ × Conn Orders
unfolding place committed_after
place_order event_id placed_at req c =
    if is_valid req
    then committed_after (execute (place event_id placed_at req) c)
    else (err type_error, c)

-- `GET /orders/{order_id}`
unfoldable pub get_order : ℕ → Conn Orders → Option OrderRow × Conn Orders
get_order order_id c = (find order_id c.current.tables.orders, commit c)

unfoldable pub on_command : Dict → Switches → Switches
unfolding set_duplicate_mode set_relay_paused
on_command command s =
    if says "action" "duplicate" command
    then set_duplicate_mode (truthy (get "value" command)) s
    else if says "action" "pause_relay" command
    then set_relay_paused (truthy (get "value" command)) s
    else s

-- `_STATUS.get(routing_key)`
abbrev pub status_of : String → Option Status
status_of rk =
    if str_eq rk "order.shipped"
    then some shipped
    else if str_eq rk "order.cancelled"
    then some cancelled
    else none

unfoldable pub set_status : ℕ → Status → Action Orders ⊤
set_status order_id status = modify λ d. record d {
  tables = record d.tables {
    orders = update order_id (λ row. record row { status = status }) d.tables.orders;
  };
}

set_status_once : Message → Status → Result ℕ → Conn Orders → Result ⊤ × Conn Orders
unfolding process_once set_status
set_status_once msg status (err e) c = (err e, c)
set_status_once msg status (ok order_id) c =
    process_once msg.event_id
      (λ first_time. if first_time then set_status order_id status else pure tt) c

close_order : Message → Option Status → Conn Orders → Result ⊤ × Conn Orders
unfolding set_status_once
close_order msg none c = (ok tt, c)
close_order msg (some status) c = set_status_once msg status (item_num "order_id" msg.body) c

-- The consumer's handler.
unfoldable pub handler : Message → Conn Orders → Result ⊤ × Conn Orders
unfolding close_order
handler msg = close_order msg (status_of msg.routing_key)
