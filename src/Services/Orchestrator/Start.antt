-- ===== src/Services/Orchestrator/Start.antt =====
-- How services/orchestrator/app/__main__.py takes up an order.
use event_driven_demo.Base.{ℕ, ◌≡◌, sym, subst, false, none, elem, eq_iff}
use event_driven_demo.Base.Table.{find}
use event_driven_demo.Pyevents.Effect.{ok, item_num}
use event_driven_demo.Pyevents.Db.{idle}
use event_driven_demo.Pyevents.Db.Once.{marked, handle_once_first}
use event_driven_demo.Pyevents.Consumer.{Message}
use event_driven_demo.Pyevents.Saga.{Orch, charge, load}
use event_driven_demo.Services.Orchestrator.{
  react, handle_order_placed, start_unless_loaded, handler,
}
use event_driven_demo.Services.Orchestrator.Machine.{waiting, on_placed}
use event_driven_demo.Services.Orchestrator.Turns.{Turned}
use event_driven_demo.Services.Orchestrator.Steps.{row_of}
use event_driven_demo.Services.Orchestrator.Keep.{start-Turned, start_returns}

module _ (now o total : ℕ) (msg : Message) (d : Orch) where
  react-placed :
      msg.routing_key ≡ "order.placed"
      → item_num "order_id" msg.body ≡ ok o
      → item_num "total_cents" msg.body ≡ ok total
      → find o d.tables.sagas ≡ none
      → react now msg d ≡ (ok tt, (start_unless_loaded now o total none d).1)
  unfolding react handle_order_placed load
  react-placed placed order cents absent =
      rw ((eq_iff msg.routing_key "order.placed").1 placed, order, cents, absent)
        (λ i. (start_returns now o total d absent i, (start_unless_loaded now o total none d).1))

-- The first delivery of order.placed for an order without a saga commits a saga that waits for its
-- charge, with the total of the message, and stages the charge and nothing else.
pub handler-starts :
    (now o total : ℕ) (msg : Message) (d : Orch)
    → elem msg.event_id d.processed ≡ false
    → msg.routing_key ≡ "order.placed"
    → item_num "order_id" msg.body ≡ ok o
    → item_num "total_cents" msg.body ≡ ok total
    → find o d.tables.sagas ≡ none
    → Turned o
        (marked msg.event_id d)
        (row_of (waiting charge) o total now)
        (on_placed none).sends
        (handler now msg (idle d)).1.committed
unfolding handler
handler-starts now o total msg d new placed order cents absent =
    subst
      (λ c.
        Turned o (marked msg.event_id d) (row_of (waiting charge) o total now)
          (on_placed none).sends c.1.committed)
      (sym (
        handle_once_first msg.event_id (react now msg) d new
          (react-placed now o total msg (marked msg.event_id d) placed order cents absent)))
      (start-Turned o total (marked msg.event_id d) absent now)
