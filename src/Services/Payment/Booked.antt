-- ===== src/Services/Payment/Booked.antt =====
-- Deliveries to services/payment-service/app/__main__.py keep the ledger equal to the payments.
use event_driven_demo.Base.{
  ℕ, ◌≡◌, refl, sym, ap, subst, inl, inr, String, false, true, none, ◌∷◌, arith, str_eq, elem,
  eq_iff, eq_refl, Bool-cases, Option-cases,
}
use event_driven_demo.Base.Table.{find}
use event_driven_demo.Pyevents.Effect.{Result, ok, err, item_num, get_num}
use event_driven_demo.Pyevents.Db.{idle, once}
use event_driven_demo.Pyevents.Db.Once.{marked, handle_once-Atomic}
use event_driven_demo.Pyevents.Consumer.{Message}
use event_driven_demo.Services.Payment.{Payments, PaymentState, work, run_command, handler}
use event_driven_demo.Services.Payment.Ledger.{
  Booked, IsProper, charge_id, charge-Booked, refund-Booked,
}

module _ (s : PaymentState) (msg : Message) (d : Payments) (b : Booked d) (p : IsProper msg d) where
  mark-Booked : Booked (marked msg.event_id d)
  mark-Booked = record {
    books = b.books;
    keyed = b.keyed;
    known = λ o n e. elem_later (charge_id o) (b.known o n e);
  }
    where
      elem_later :
          (k : String) → elem k d.processed ≡ true → elem k (msg.event_id ∷ d.processed) ≡ true
      elem_later k h = ground arith

  work-Booked :
      (o n : ℕ)
      → item_num "order_id" msg.body ≡ ok o
      → get_num "amount_cents" 0 msg.body ≡ ok n
      → elem msg.event_id d.processed ≡ false
      → Booked (work s.fail msg.routing_key o n (marked msg.event_id d)).1
  unfolding work
  work-Booked o n order amount new =
      elim (Bool-cases (str_eq msg.routing_key "cmd.payment.charge")) [
        | inl e ↦
            let id = p.named ((eq_iff msg.routing_key "cmd.payment.charge").0 e) o order in
            rw e (charge-Booked (marked msg.event_id d) mark-Booked s.fail o n (fresh id) (done id))
        | inr e ↦ rw e (elim (Bool-cases (str_eq msg.routing_key "cmd.payment.refund")) [
          | inl f ↦ rw f (
              refund-Booked (marked msg.event_id d) mark-Booked o n
                (p.paid ((eq_iff msg.routing_key "cmd.payment.refund").0 f) new o n order amount))
          | inr f ↦ rw f mark-Booked
        ])
      ]
    where
      fresh : msg.event_id ≡ charge_id o → find o d.tables.payments ≡ none
      fresh id = elim (Option-cases (find o d.tables.payments)) [
        | inl absent ↦ absent
        | inr (r, e) ↦ cc (subst (λ k. elem k d.processed ≡ false) id new, b.known o r e)
      ]

      done : msg.event_id ≡ charge_id o → elem (charge_id o) (msg.event_id ∷ d.processed) ≡ true
      done id = rw id (rw (eq_refl (charge_id o)) refl)

  by_command :
      (r q : Result ℕ)
      → item_num "order_id" msg.body ≡ r
      → get_num "amount_cents" 0 msg.body ≡ q
      → Booked (run_command s.fail msg r q (idle d)).1.committed
  unfolding run_command
  by_command (err e) q order amount = b
  by_command (ok o) (err e) order amount = b
  by_command (ok o) (ok n) order amount =
      elim (handle_once-Atomic msg.event_id (once (work s.fail msg.routing_key o n)) (idle d)).1 [
        | inl same ↦ subst Booked (sym same) b
        | inr (new, ran, r) ↦ subst Booked (ap (λ p. p.1) ran) (work-Booked o n order amount new)
      ]

  -- A delivery keeps the ledger equal to the sum of the payments, whether it is the first or a repeat,
  -- and whether charges fail or not; a charge has the event id of its order's charge, and a refund that
  -- is delivered for the first time is of a payment that was made, and of its amount.
  pub handler-Booked : Booked (handler s msg (idle d)).1.committed
  handler-Booked =
      unfold handler in
      by_command (item_num "order_id" msg.body) (get_num "amount_cents" 0 msg.body) refl refl
