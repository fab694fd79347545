-- ===== src/Services/Inventory.antt =====
-- services/inventory-service/app/__main__.py and the tables of its schema.sql. The delay of
-- `slow_ms` is in time alone, and only its value is kept.
pub mod Stock
pub mod Conserved
pub mod Keeps
pub mod Repeats
use Prim.Native.String.{◌++◌ as text_append}
use event_driven_demo.Base.{
  ℕ, String, Bool, true, false, Option, none, some, List, [], ◌∷◌, ◌==◌, str_eq, if◌then◌else◌,
}
use event_driven_demo.Base.Int.{ℤ, pos, ◌+ℤ◌, ◌-ℤ◌}
use event_driven_demo.Base.Text.{str}
use event_driven_demo.Base.Table.{Table, find, insert_new, delete}
use event_driven_demo.Pyevents.Json.{Json, num, string, Dict, empty, item, get}
use event_driven_demo.Pyevents.Effect.{
  Result, ok, err, ⊤, Action, pure, modify, ◌>>◌, ◌>>=◌, item_num, as_num,
}
use event_driven_demo.Pyevents.Db.{Store, Conn, handle_once, once}
use event_driven_demo.Pyevents.Outbox.{stage_event}
use event_driven_demo.Pyevents.Consumer.{Message}
use event_driven_demo.Services.Control.{
  Switches, set_duplicate_mode, set_relay_paused, says, truthy,
}

pub record Reservation : Type 0 where
  pub sku : String
  pub qty : ℕ

-- `stock` holds the quantity of each article; reservations are by order.
pub record InventoryDb : Type 0 where
  pub stock : List (String × ℤ)
  pub reservations : Table Reservation

abbrev pub Inventory : Type 0
Inventory = Store InventoryDb

pub record InventoryState : Type 0 where
  pub slow_ms : ℕ
  pub fail : Bool
  pub silent : Bool
  pub switches : Switches

-- `int(command.get("value") or 0)`. The observer sends numbers and Booleans only; on any other value
-- the call is taken to raise, and the listener drops the command.
abbrev pub int_value : Option Json → Result ℕ
int_value none = ok 0
int_value (some Json.null) = ok 0
int_value (some (Json.flag true)) = ok 1
int_value (some (Json.flag false)) = ok 0
int_value (some v) = as_num v

abbrev pub set_slow : Result ℕ → InventoryState → InventoryState
set_slow (ok n) s = record s { slow_ms = n }
set_slow (err e) s = s

unfoldable pub on_command : Dict → InventoryState → InventoryState
unfolding set_duplicate_mode set_relay_paused
on_command command s =
    let value = truthy (get "value" command) in
    if says "action" "duplicate" command
    then record s { switches = set_duplicate_mode value s.switches }
    else if says "action" "pause_relay" command
    then record s { switches = set_relay_paused value s.switches }
    else if says "target" "inventory" command
    then (if says "action" "slow_ms" command
        then set_slow (int_value (get "value" command)) s
        else if says "action" "fail" command
        then record s { fail = value }
        else if says "action" "silent" command
        then record s { silent = value }
        else s)
    else s

unfoldable pub reply : ℕ → String → Dict → Action Inventory ⊤
unfolding stage_event
reply order_id routing_key extra =
    let eid = text_append routing_key (text_append ":" (str order_id)) in
    stage_event eid routing_key
      (item "event_id" (string eid) (item "order_id" (num order_id) extra))

abbrev pub widget : String
widget = "WIDGET-1"

-- UPDATE stock SET qty = … WHERE sku = …
abbrev pub change_stock : String → (ℤ → ℤ) → List (String × ℤ) → List (String × ℤ)
change_stock sku f [] = []
change_stock sku f ((k, q) ∷ rows) = (k, if str_eq k sku then f q else q) ∷ change_stock sku f rows

unfoldable pub update_stock : String → (ℤ → ℤ) → Action Inventory ⊤
update_stock sku f =
    modify λ d. record d { tables = record d.tables { stock = change_stock sku f d.tables.stock } }

unfoldable pub insert_reservation : ℕ → Reservation → Action Inventory ⊤
insert_reservation order_id row = modify λ d. record d {
  tables = record d.tables { reservations = insert_new order_id row d.tables.reservations };
}

abbrev pub qty_of : Option Reservation → ℕ
qty_of none = 0
qty_of (some r) = r.qty

-- DELETE FROM reservations … RETURNING qty, and `row[0] if row else 0`
delete_reservation : ℕ → Action Inventory ℕ
delete_reservation order_id d = (
  ok (qty_of (find order_id d.tables.reservations)),
  record d { tables = record d.tables { reservations = delete order_id d.tables.reservations } },
)

unfoldable pub reserve : Bool → Bool → ℕ → String → ℕ → Action Inventory ⊤
unfolding reply update_stock insert_reservation
reserve fail silent order_id sku qty =
    if fail
    then reply order_id "reply.inventory.failed" (item "reason" (string "out of stock") empty)
    else update_stock sku (λ q. q -ℤ pos qty)
      >> insert_reservation order_id (record { sku = sku; qty = qty })
      >> (if silent then pure tt else reply order_id "reply.inventory.reserved" empty)

unfoldable pub release : ℕ → String → Action Inventory ⊤
unfolding reply update_stock delete_reservation
release order_id sku = delete_reservation order_id >>= λ released.
    (if released == 0 then pure tt else update_stock sku (λ q. q +ℤ pos released))
    >> reply order_id "reply.inventory.released" (item "qty" (num released) empty)

-- The body under `handle_once`, for a first delivery.
unfoldable pub work : Bool → Bool → String → ℕ → Action Inventory ⊤
unfolding reserve release
work fail silent cmd order_id =
    if str_eq cmd "cmd.inventory.reserve"
    then reserve fail silent order_id widget 1
    else if str_eq cmd "cmd.inventory.release"
    then release order_id widget
    else pure tt

run_command : InventoryState → Message → Result ℕ → Conn Inventory → Result ⊤ × Conn Inventory
unfolding handle_once work
run_command s msg (err e) c = (err e, c)
run_command s msg (ok order_id) c =
    handle_once msg.event_id (once (work s.fail s.silent msg.routing_key order_id)) c

unfoldable pub handler : InventoryState → Message → Conn Inventory → Result ⊤ × Conn Inventory
unfolding run_command
handler s msg = run_command s msg (item_num "order_id" msg.body)
