-- ===== src/Services/Order/Keeps.antt =====
-- What the statements of services/order-service/app keep, a request and a delivery keep.
use event_driven_demo.Base.{
  ℕ, ◌≡◌, refl, subst, sym, ap, inl, inr, String, Option, none, some, if◌then◌else◌, elem,
  Bool-cases,
}
use event_driven_demo.Pyevents.Effect.{Result, ok, err, pure, item_num}
use event_driven_demo.Pyevents.Db.{idle, execute, process_once}
use event_driven_demo.Pyevents.Db.Once.{marked, process_once-Atomic}
use event_driven_demo.Pyevents.Consumer.{Message}
use event_driven_demo.Services.Order.{
  Orders, Status, PlaceOrder, is_valid, place, place_order, committed_after, set_status,
  set_status_once, close_order, status_of, handler,
}

module _ (I : Orders → Type 0) (msg : Message) (d : Orders) (h : I d)
    (mark_keeps : I d → I (marked msg.event_id d))
    (set_keeps : (o : ℕ) (st : Status) (e : Orders) → I e → I (set_status o st e).1) where
  set_status_once_keeps :
      (st : Status) (r : Result ℕ) → I (set_status_once msg st r (idle d)).1.committed
  unfolding set_status_once
  set_status_once_keeps st (err e) = h
  set_status_once_keeps st (ok o) =
      elim (process_once-Atomic msg.event_id
        (λ first_time. if first_time then set_status o st else pure tt) (idle d)).1 [
          | inl same ↦ subst I (sym same) h
          | inr (new, ran, r) ↦
              subst I (ap (λ p. p.1) ran) (set_keeps o st (marked msg.event_id d) (mark_keeps h))
        ]

  close_order_keeps : (st : Option Status) → I (close_order msg st (idle d)).1.committed
  unfolding close_order
  close_order_keeps none = h
  close_order_keeps (some st) = set_status_once_keeps st (item_num "order_id" msg.body)

  pub handler_keeps : I (handler msg (idle d)).1.committed
  unfolding handler
  handler_keeps = close_order_keeps (status_of msg.routing_key)

module _ (msg : Message) (d : Orders) (o : ℕ) (named : item_num "order_id" msg.body ≡ ok o) where
  once_returns : (st : Status) → (set_status_once msg st (ok o) (idle d)).0 ≡ ok tt
  unfolding set_status_once process_once set_status
  once_returns st = elim (Bool-cases (elem msg.event_id d.processed)) [
    | inl e ↦ rw e refl
    | inr e ↦ rw e refl
  ]

  closed_returns : (st : Option Status) → (close_order msg st (idle d)).0 ≡ ok tt
  unfolding close_order
  closed_returns none = refl
  closed_returns (some st) = rw named (once_returns st)

  pub handler_returns : (handler msg (idle d)).0 ≡ ok tt
  unfolding handler
  handler_returns = closed_returns (status_of msg.routing_key)

-- A request stages its event, or changes nothing.
pub place_order_keeps :
    (I : Orders → Type 0) (event_id placed_at : String) (req : PlaceOrder) (d : Orders)
    → I d
    → I (place event_id placed_at req d).1
    → I (place_order event_id placed_at req (idle d)).1.committed
unfolding place_order committed_after
place_order_keeps I event_id placed_at req d h k = elim (Bool-cases (is_valid req)) [
  | inl e ↦ rw e (by_result (place event_id placed_at req d) k)
  | inr e ↦ rw e h
]
  where
    by_result :
        (y : Result ℕ × Orders)
        → I y.1
        → I (committed_after (execute (λ _. y) (idle d))).1.committed
    by_result (ok _, e) kept = kept
    by_result (err _, e) kept = h
