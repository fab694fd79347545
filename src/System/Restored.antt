-- ===== src/System/Restored.antt =====
-- What a command and its compensation leave of the tables of payment- and inventory-service.
use event_driven_demo.Base.{
  ℕ, ◌≡◌, refl, ap, ◌∙◌, String, false, none, some, List, [], ◌∷◌, inl, inr, Bool-cases, ==_refl,
  elem, str_eq,
}
use event_driven_demo.Base.Int.{ℤ, pos, ◌+ℤ◌, ◌-ℤ◌, int_laws}
use event_driven_demo.Base.Table.{find, insert_new, delete, find-insert_new, delete-insert_new}
use event_driven_demo.Pyevents.Effect.{ok, get_num}
use event_driven_demo.Pyevents.Db.{idle, handle_once}
use event_driven_demo.Pyevents.Consumer.{Message}
use event_driven_demo.Services.Payment
use event_driven_demo.Services.Payment.{Payments, PaymentState}
use event_driven_demo.Services.Payment.Ledger.{there_and_back}
use event_driven_demo.Services.Inventory
use event_driven_demo.Services.Inventory.{
  Inventory, InventoryState, Reservation, change_stock, widget,
}
use event_driven_demo.System.Answers.{Carries, one_unit}

-- What payment-service makes of its tables by a refund, and by a charge.
refund_tables :
    (s : PaymentState) (o amount : ℕ) (msg : Message) (d : Payments)
    → Carries o "cmd.payment.refund" msg
    → get_num "amount_cents" 0 msg.body ≡ ok amount
    → elem msg.event_id d.processed ≡ false
    → (Payment.handler s msg (idle d)).1.committed.tables ≡ record {
      payments = delete o d.tables.payments;
      total_charged_cents = d.tables.total_charged_cents -ℤ pos amount;
    }
unfolding Payment.handler Payment.refund Payment.reply handle_once
refund_tables s o amount msg d h paid new = rw (h.key, h.order, paid, new) refl

pub charge_tables :
    (s : PaymentState) (o amount : ℕ) (msg : Message) (d : Payments)
    → Carries o "cmd.payment.charge" msg
    → get_num "amount_cents" 0 msg.body ≡ ok amount
    → elem msg.event_id d.processed ≡ false
    → s.fail ≡ false
    → ((Payment.handler s msg (idle d)).1.committed.tables ≡ record {
      payments = insert_new o amount d.tables.payments;
      total_charged_cents = d.tables.total_charged_cents +ℤ pos amount;
    })
      × ((Payment.handler s msg (idle d)).1.committed.processed ≡ msg.event_id ∷ d.processed)
unfolding Payment.handler Payment.charge Payment.reply handle_once
charge_tables s o amount msg d h paid new works = rw (h.key, h.order, paid, new, works) (refl, refl)

-- A payment is gone with its refund, and the ledger is as it was.
pub payment_restored :
    (s s' : PaymentState) (o amount : ℕ) (charge_cmd refund_cmd : Message) (d : Payments)
    → Carries o "cmd.payment.charge" charge_cmd
    → get_num "amount_cents" 0 charge_cmd.body ≡ ok amount
    → Carries o "cmd.payment.refund" refund_cmd
    → get_num "amount_cents" 0 refund_cmd.body ≡ ok amount
    → elem charge_cmd.event_id d.processed ≡ false
    → elem refund_cmd.event_id (charge_cmd.event_id ∷ d.processed) ≡ false
    → s.fail ≡ false
    → find o d.tables.payments ≡ none
    → let e = (Payment.handler s charge_cmd (idle d)).1.committed in
      (Payment.handler s' refund_cmd (idle e)).1.committed.tables ≡ d.tables
payment_restored s s' o amount charge_cmd refund_cmd d charges pays refunds returns new new' works
      absent =
    let e = (Payment.handler s charge_cmd (idle d)).1.committed in
    let (tables, seen) = charge_tables s o amount charge_cmd d charges pays new works in
    refund_tables s' o amount refund_cmd e refunds returns (rw seen new')
    ∙ ap
        (λ t. record {
          payments = delete o t.payments;
          total_charged_cents = t.total_charged_cents -ℤ pos amount;
        })
        tables
    ∙ (λ i. record {
      payments = delete-insert_new o amount d.tables.payments absent i;
      total_charged_cents = there_and_back d.tables.total_charged_cents amount i;
    })

reserve_tables :
    (s : InventoryState) (o : ℕ) (msg : Message) (d : Inventory)
    → Carries o "cmd.inventory.reserve" msg
    → elem msg.event_id d.processed ≡ false
    → s.fail ≡ false
    → s.silent ≡ false
    → ((Inventory.handler s msg (idle d)).1.committed.tables ≡ record {
      stock = change_stock widget (λ q. q -ℤ pos 1) d.tables.stock;
      reservations = insert_new o one_unit d.tables.reservations;
    })
      × ((Inventory.handler s msg (idle d)).1.committed.processed ≡ msg.event_id ∷ d.processed)
unfolding Inventory.handler Inventory.reserve Inventory.reply handle_once
reserve_tables s o msg d h new works speaks = rw (h.key, h.order, new, works, speaks) (refl, refl)

release_tables :
    (s : InventoryState) (o : ℕ) (msg : Message) (d : Inventory)
    → Carries o "cmd.inventory.release" msg
    → elem msg.event_id d.processed ≡ false
    → find o d.tables.reservations ≡ some one_unit
    → (Inventory.handler s msg (idle d)).1.committed.tables ≡ record {
      stock = change_stock widget (λ q. q +ℤ pos 1) d.tables.stock;
      reservations = delete o d.tables.reservations;
    }
unfolding Inventory.handler Inventory.release Inventory.reply handle_once
release_tables s o msg d h new holds = rw (h.key, h.order, new, holds) refl

back_and_there : (t : ℤ) (n : ℕ) → t -ℤ pos n +ℤ pos n ≡ t
back_and_there t n = omega int_laws

stock_back :
    (rows : List (String × ℤ))
    → change_stock widget (λ q. q +ℤ pos 1) (change_stock widget (λ q. q -ℤ pos 1) rows) ≡ rows
stock_back [] = refl
stock_back ((k, q) ∷ rows) = elim (Bool-cases (str_eq k widget)) [
  | inl e ↦ rw (e, stock_back rows) (ap (λ x. (k, x) ∷ rows) (back_and_there q 1))
  | inr e ↦ rw (e, stock_back rows) refl
]

-- The reservation is there, and its command is marked.
pub reserved_row :
    (s : InventoryState) (o : ℕ) (msg : Message) (d : Inventory)
    → Carries o "cmd.inventory.reserve" msg
    → elem msg.event_id d.processed ≡ false
    → s.fail ≡ false
    → s.silent ≡ false
    → find o d.tables.reservations ≡ none
    → let e = (Inventory.handler s msg (idle d)).1.committed in
      (find o e.tables.reservations ≡ some one_unit) × (e.processed ≡ msg.event_id ∷ d.processed)
reserved_row s o msg d reserves new works speaks absent =
    let (tables, seen) = reserve_tables s o msg d reserves new works speaks in
    (
      ap (λ t. find o t.reservations) tables
          ∙ find-insert_new o o one_unit d.tables.reservations absent
          ∙ rw (==_refl o) refl,
      seen,
    )

-- A reservation is gone with its release, and its unit is back on the shelf.
pub reservation_restored :
    (s s' : InventoryState) (o : ℕ) (reserve_cmd release_cmd : Message) (d : Inventory)
    → Carries o "cmd.inventory.reserve" reserve_cmd
    → Carries o "cmd.inventory.release" release_cmd
    → elem reserve_cmd.event_id d.processed ≡ false
    → elem release_cmd.event_id (reserve_cmd.event_id ∷ d.processed) ≡ false
    → s.fail ≡ false
    → s.silent ≡ false
    → find o d.tables.reservations ≡ none
    → let e = (Inventory.handler s reserve_cmd (idle d)).1.committed in
      (Inventory.handler s' release_cmd (idle e)).1.committed.tables ≡ d.tables
reservation_restored s s' o reserve_cmd release_cmd d reserves releases new new' works speaks
      absent =
    let e = (Inventory.handler s reserve_cmd (idle d)).1.committed in
    let (tables, seen) = reserve_tables s o reserve_cmd d reserves new works speaks in
    let holds = (reserved_row s o reserve_cmd d reserves new works speaks absent).0 in
    release_tables s' o release_cmd e releases (rw seen new') holds
    ∙ ap
        (λ t. record {
          stock = change_stock widget (λ q. q +ℤ pos 1) t.stock;
          reservations = delete o t.reservations;
        })
        tables
    ∙ (λ i. record {
      stock = stock_back d.tables.stock i;
      reservations = delete-insert_new o one_unit d.tables.reservations absent i;
    })
