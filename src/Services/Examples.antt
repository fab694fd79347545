-- ===== src/Services/Examples.antt =====
-- The theorems on payment-, inventory- and shipping-service, each at one concrete input.
use event_driven_demo.Base.{
  ◌⊎◌, str_eq, eq_iff, ◌≢◌, ℕ, ◌≡◌, refl, ap, String, true, false, some, List, [], ◌∷◌,
}
use event_driven_demo.Base.Int.{pos}
use event_driven_demo.Base.Text.{str}
use event_driven_demo.Base.Table.{find}
use event_driven_demo.Pyevents.Effect.{Result, ok, item_num}
use event_driven_demo.Pyevents.Db.{idle}
use event_driven_demo.Pyevents.Consumer.{Message}
use event_driven_demo.Services.Payment.Repeats.{payment_repeat}
use event_driven_demo.Services.Inventory.Repeats.{inventory_repeat}
use event_driven_demo.Services.Inventory.{handler as handle_stock}
use event_driven_demo.Services.Shipping.{handler as dispatch_order}
use event_driven_demo.Services.Shipping.Repeats.{shipping_repeat}
use event_driven_demo.Services.Payment.{
  PaymentState, charge as charge_order, refund, handler as handle_payment,
}
use event_driven_demo.Services.Payment.Ledger.{Booked, IsProper, charge_id, refund_then_charge}
use event_driven_demo.Services.Payment.Booked.{handler-Booked}
use event_driven_demo.Services.Inventory.{InventoryState}
use event_driven_demo.Services.Inventory.Stock.{reserve_id}
use event_driven_demo.Services.Inventory.Conserved.{IsNamed, run as run_stock, full_stock}
use event_driven_demo.Services.Observer.Stats.{Databases, snapshot}
use event_driven_demo.Services.Observer.Stats.Consumed.{snapshot_consumed}
use event_driven_demo.Services.Samples.{
  no_payments, accepting, charge_command, stocked, stock_command, no_shipments, couriers,
}

differ : (k j : String) → str_eq k j ≡ false → k ≢ j
differ k j ne e = cc (ne, (eq_iff k j).1 e)

no_payments-Booked : Booked no_payments
no_payments-Booked = record { books = refl; keyed = tt; known = λ o n e. cc }

charge_command-IsProper : IsProper charge_command no_payments
unfolding str
charge_command-IsProper = record {
  named = λ _ o e. ap charge_id (same_order o e);
  paid = λ e. absurd (differ "cmd.payment.charge" "cmd.payment.refund" refl e);
}
  where
    same_order : (o : ℕ) → item_num "order_id" charge_command.body ≡ ok o → 7 ≡ o
    same_order o e = cc

handler-Booked_example :
    Booked (handle_payment accepting charge_command (idle no_payments)).1.committed
handler-Booked_example =
    handler-Booked accepting charge_command no_payments no_payments-Booked charge_command-IsProper

refund_then_charge_example :
    let after = (charge_order false 7 500 (refund 7 500 no_payments).1).1.tables in
    (find 7 after.payments ≡ some 500) × (after.total_charged_cents ≡ pos 0)
refund_then_charge_example = refund_then_charge 7 500 no_payments refl

-- A reservation, its repeat and a release.
abbrev stock_commands : List (InventoryState × Message)
stock_commands =
    (stocked, stock_command "cmd.inventory.reserve" "cmd.inventory.reserve:7")
    ∷ (stocked, stock_command "cmd.inventory.reserve" "cmd.inventory.reserve:7")
    ∷ (stocked, stock_command "cmd.inventory.release" "cmd.inventory.release:7")
    ∷ []

reserve_command-IsNamed : IsNamed (stock_command "cmd.inventory.reserve" "cmd.inventory.reserve:7")
unfolding str
reserve_command-IsNamed _ o e = ap reserve_id (same_order o e)
  where
    same_order : (o : ℕ) → ◌≡◌ {A = Result ℕ} (ok 7) (ok o) → 7 ≡ o
    same_order o e = cc

release_command-IsNamed : IsNamed (stock_command "cmd.inventory.release" "cmd.inventory.release:7")
release_command-IsNamed e = absurd (differ "cmd.inventory.release" "cmd.inventory.reserve" refl e)

abbrev failing : PaymentState
failing = record { fail = true; switches = record { duplicate_mode = false; relay_paused = false } }

payment_repeat_example :
    let d' = (handle_payment accepting charge_command (idle no_payments)).1.committed in
    (handle_payment failing charge_command (idle d')).1 ≡ idle d'
payment_repeat_example = payment_repeat accepting failing charge_command no_payments

inventory_repeat_example :
    let msg = stock_command "cmd.inventory.release" "cmd.inventory.release:7" in
    let d' = (handle_stock stocked msg (idle full_stock)).1.committed in
    (handle_stock stocked msg (idle d')).1 ≡ idle d'
inventory_repeat_example =
    inventory_repeat stocked stocked
      (stock_command "cmd.inventory.release" "cmd.inventory.release:7") full_stock

shipping_repeat_example :
    let msg = stock_command "cmd.shipping.dispatch" "cmd.shipping.dispatch:7" in
    let d' = (dispatch_order couriers msg (idle no_shipments)).1.committed in
    (dispatch_order couriers msg (idle d')).1 ≡ idle d'
shipping_repeat_example =
    shipping_repeat couriers couriers
      (stock_command "cmd.shipping.dispatch" "cmd.shipping.dispatch:7") no_shipments

-- The databases while one unit is reserved.
abbrev databases : Databases
databases = record {
  order = record {
    tables = record { orders = []; next_order = 1 };
    processed = [];
    outbox = [];
    next_id = 1;
  };
  payment = no_payments;
  inventory =
      run_stock ((stocked, stock_command "cmd.inventory.reserve" "cmd.inventory.reserve:7") ∷ [])
        full_stock;
  shipping = no_shipments;
  orchestrator = record {
    tables = record { sagas = []; saga_log = [] };
    processed = [];
    outbox = [];
    next_id = 1;
  };
}

snapshot_consumed_example :
    let snap = snapshot (λ dsn sql. true) databases in
    ((snap.reservations ≢ 100000) × (snap.stock_consumed ≡ pos snap.reservations))
    ⊎ ((snap.reservations ≡ 100000) × (snap.stock_consumed ≡ pos 0))
snapshot_consumed_example =
    snapshot_consumed (λ dsn sql. true) databases
      ((stocked, stock_command "cmd.inventory.reserve" "cmd.inventory.reserve:7") ∷ []) refl refl
      (reserve_command-IsNamed, tt)
