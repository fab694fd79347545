-- ===== src/Services/Orchestrator/Returns.antt =====
-- Whatever the phase of its order, a message that can be read is handled by
-- services/orchestrator/app/__main__.py.
use event_driven_demo.Base.{ℕ, ◌≡◌, refl, inl, inr, String, true, str_eq, Bool-cases}
use text.Mathlib.Text.{starts_with}
use event_driven_demo.Base.Table.{find}
use event_driven_demo.Pyevents.Effect.{ok, item_num}
use event_driven_demo.Pyevents.Db.{idle}
use event_driven_demo.Pyevents.Db.Once.{marked, handle_once_returns}
use event_driven_demo.Pyevents.Consumer.{Message}
use event_driven_demo.Pyevents.Saga.{Orch, load}
use event_driven_demo.Services.Orchestrator.{
  reply_to, handle_reply, handle_order_placed, start_unless_loaded, react, handler,
}
use event_driven_demo.Services.Orchestrator.Replies.{reply_to-follows}
use event_driven_demo.Services.Orchestrator.Orders.{AllSound}
use event_driven_demo.Services.Orchestrator.Keep.{start_returns}

module _ (now : ℕ) (d : Orch) (h : AllSound d) where
  reply_to_returns : (o : ℕ) (rk : String) → (reply_to now o rk (find o d.tables.sagas) d).0 ≡ ok tt
  reply_to_returns o rk = elim (h.sound o) [
    | inl (absent, quiet) ↦ rw absent (unfold reply_to in refl)
    | inr (p, i, total, began, row, life) ↦
        rw row (((reply_to-follows now o i total began p rk).1 d row).0)
  ]

  start_unless_loaded_returns :
      (o total : ℕ) → (start_unless_loaded now o total (find o d.tables.sagas) d).0 ≡ ok tt
  start_unless_loaded_returns o total = elim (h.sound o) [
    | inl (absent, quiet) ↦ rw absent (start_returns now o total d absent)
    | inr (p, i, t, began, row, life) ↦ rw row (unfold start_unless_loaded in refl)
  ]

  react_returns :
      (msg : Message) (o : ℕ)
      → item_num "order_id" msg.body ≡ ok o
      → (str_eq msg.routing_key "order.placed" ≡ true
          → (total : ℕ) × (item_num "total_cents" msg.body ≡ ok total))
      → (react now msg d).0 ≡ ok tt
  unfolding react handle_order_placed handle_reply load
  react_returns msg o order totalled = elim (Bool-cases (str_eq msg.routing_key "order.placed")) [
    | inl e ↦ rw (e, order, (totalled e).1) (start_unless_loaded_returns o (totalled e).0)
    | inr e ↦ rw e (elim (Bool-cases (starts_with msg.routing_key "reply.")) [
      | inl f ↦ rw (f, order) (reply_to_returns o msg.routing_key)
      | inr f ↦ rw f refl
    ])
  ]

pub handler_returns :
    (now : ℕ) (d : Orch) (h : AllSound d) (msg : Message) (o : ℕ)
    → item_num "order_id" msg.body ≡ ok o
    → (str_eq msg.routing_key "order.placed" ≡ true
        → (total : ℕ) × (item_num "total_cents" msg.body ≡ ok total))
    → (handler now msg (idle d)).0 ≡ ok tt
unfolding handler
handler_returns now d h msg o order totalled = handle_once_returns msg.event_id (react now msg) d (
    react_returns now (marked msg.event_id d) (record { sound = h.sound; keyed = h.keyed }) msg o
      order totalled)
