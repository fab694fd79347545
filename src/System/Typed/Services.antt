-- ===== src/System/Typed/Services.antt =====
-- Payment-, inventory-, shipping- and order-service stage typed messages only.
use Prim.Native.String.{◌++◌ as text_append}
use event_driven_demo.Base.Text.{str}
use event_driven_demo.Base.Text.Decode.{has_no_colon, told_bare}
use event_driven_demo.Base.{ℕ, ◌≡◌, refl, String, Bool, true, false, str_eq, ◌==◌, if◌then◌else◌}
use event_driven_demo.Base.Int.{ℤ, pos, ◌+ℤ◌, ◌-ℤ◌}
use event_driven_demo.Base.Table.{find, delete}
use event_driven_demo.Pyevents.Json.{Dict, num, item, empty}
use event_driven_demo.Pyevents.Effect.{ok, pure, ◌>>◌, get_num}
use event_driven_demo.Services.Payment
use event_driven_demo.Services.Inventory
use event_driven_demo.Services.Inventory.{widget, qty_of, update_stock}
use event_driven_demo.Services.Shipping
use event_driven_demo.System.Typed.{Types, Types-bind, Types-if, stage-Types, body-Typed}

pay_reply-Types :
    (o n : ℕ) (rk : String) (extra : Dict)
    → get_num "amount_cents" 0 extra ≡ ok n
    → str_eq rk "order.placed" ≡ false
    → str_eq rk "cmd.inventory.reserve" ≡ false
    → has_no_colon rk ≡ true
    → Types (Payment.reply o rk extra)
unfolding Payment.reply
pay_reply-Types o n rk extra priced other free plain =
    stage-Types _ rk _
      (λ id. body-Typed id o n _ rk extra priced other (told_bare rk o plain) (λ e. cc (e, free)))

charge-Types : (fail : Bool) (o n : ℕ) → Types (Payment.charge fail o n)
unfolding Payment.charge Payment.insert_payment Payment.update_ledger
charge-Types true o n d t = pay_reply-Types o 0 "reply.payment.failed" _ refl refl refl refl d t
charge-Types false o n d t =
    pay_reply-Types o n "reply.payment.charged" _ refl refl refl refl
      ((Payment.insert_payment o n >> Payment.update_ledger (λ t. t +ℤ pos n)) d).1 t

refund-Types : (o n : ℕ) → Types (Payment.refund o n)
unfolding Payment.refund Payment.delete_payment Payment.update_ledger
refund-Types o n d t =
    pay_reply-Types o n "reply.payment.refunded" _ refl refl refl refl
      ((Payment.delete_payment o >> Payment.update_ledger (λ t. t -ℤ pos n)) d).1 t

pub pay-Types : (fail : Bool) (cmd : String) (o n : ℕ) → Types (Payment.work fail cmd o n)
unfolding Payment.work
pay-Types fail cmd o n =
    Types-if (str_eq cmd "cmd.payment.charge") _ _ (charge-Types fail o n)
      (Types-if (str_eq cmd "cmd.payment.refund") _ _ (refund-Types o n) (λ d t. t))

stock_reply-Types :
    (o : ℕ) (rk : String) (extra : Dict)
    → get_num "amount_cents" 0 extra ≡ ok 0
    → str_eq rk "order.placed" ≡ false
    → str_eq rk "cmd.inventory.reserve" ≡ false
    → has_no_colon rk ≡ true
    → Types (Inventory.reply o rk extra)
unfolding Inventory.reply
stock_reply-Types o rk extra priced other free plain =
    stage-Types _ rk _
      (λ id. body-Typed id o 0 _ rk extra priced other (told_bare rk o plain) (λ e. cc (e, free)))

reserve-Types : (fail silent : Bool) (o : ℕ) → Types (Inventory.reserve fail silent o widget 1)
unfolding Inventory.reserve Inventory.insert_reservation update_stock
reserve-Types true silent o d t =
    stock_reply-Types o "reply.inventory.failed" _ refl refl refl refl d t
reserve-Types false true o d t = t
reserve-Types false false o d t =
    stock_reply-Types o "reply.inventory.reserved" _ refl refl refl refl
      ((update_stock widget (λ q. q -ℤ pos 1)
          >> Inventory.insert_reservation o (record { sku = widget; qty = 1 }))
        d).1
      t

update-Types : (f : ℤ → ℤ) → Types (update_stock widget f)
unfolding update_stock
update-Types f d t = t

release-Types : (o : ℕ) → Types (Inventory.release o widget)
unfolding Inventory.release
release-Types o d t =
    let released = qty_of (find o d.tables.reservations) in
    let put_back =
      if released == 0 then pure tt else update_stock widget (λ q. q +ℤ pos released) in
    Types-bind put_back
      (λ _. Inventory.reply o "reply.inventory.released" (item "qty" (num released) empty))
      (Types-if (released == 0) (pure tt) (update_stock widget (λ q. q +ℤ pos released)) (λ d t. t)
        (update-Types (λ q. q +ℤ pos released)))
      (λ _.
        stock_reply-Types o "reply.inventory.released" (item "qty" (num released) empty) refl refl
          refl refl)
      (record d { tables = record d.tables { reservations = delete o d.tables.reservations } }) t

pub stock-Types :
    (fail silent : Bool) (cmd : String) (o : ℕ) → Types (Inventory.work fail silent cmd o)
unfolding Inventory.work
stock-Types fail silent cmd o =
    Types-if (str_eq cmd "cmd.inventory.reserve") _ _ (reserve-Types fail silent o)
      (Types-if (str_eq cmd "cmd.inventory.release") _ _ (release-Types o) (λ d t. t))

ship_reply-Types :
    (o : ℕ) (rk : String) (extra : Dict)
    → get_num "amount_cents" 0 extra ≡ ok 0
    → str_eq rk "order.placed" ≡ false
    → str_eq rk "cmd.inventory.reserve" ≡ false
    → has_no_colon rk ≡ true
    → Types (Shipping.reply o rk extra)
unfolding Shipping.reply
ship_reply-Types o rk extra priced other free plain =
    stage-Types _ rk _
      (λ id. body-Typed id o 0 _ rk extra priced other (told_bare rk o plain) (λ e. cc (e, free)))

pub ship-Types : (fail : Bool) (o : ℕ) → Types (Shipping.work fail o)
unfolding Shipping.work Shipping.insert_shipment
ship-Types true o d t = ship_reply-Types o "reply.shipping.failed" _ refl refl refl refl d t
ship-Types false o d t =
    ship_reply-Types o "reply.shipping.dispatched" _ refl refl refl refl
      (Shipping.insert_shipment o (text_append "TRK-" (str o)) d).1 t
