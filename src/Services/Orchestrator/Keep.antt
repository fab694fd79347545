-- ===== src/Services/Orchestrator/Keep.antt =====
-- Each transaction of services/orchestrator/app/__main__.py keeps every order's life sound.
use mathlib.Core.List.{append-nil}
use event_driven_demo.Base.{
  ℕ, ◌≡◌, refl, sym, inl, inr, String, none, [], ◌∷◌, arith, str_eq, Bool-cases,
}
use text.Mathlib.Text.{starts_with}
use event_driven_demo.Base.Int.{pos}
use event_driven_demo.Base.Table.{find, insert_new-IsKeyed}
use event_driven_demo.Pyevents.Effect.{Result, ok, err, ⊤, Action, lift, ◌>>=◌, item_num}
use event_driven_demo.Pyevents.Db.{idle}
use event_driven_demo.Pyevents.Db.Once.{marked, handle_once_invariant}
use event_driven_demo.Pyevents.Consumer.{Message}
use event_driven_demo.Pyevents.Saga.{Orch, Saga, charge, started, LogKind, log, load, create}
use event_driven_demo.Services.Orchestrator.{
  reply_to, handle_reply, handle_order_placed, start_unless_loaded, send_step, react, handler,
}
use event_driven_demo.Services.Orchestrator.Machine.{waiting, reply_of, on_message}
use event_driven_demo.Services.Orchestrator.Turns.{Turned, Turned-trans, Turns-log, Turns-seq}
use event_driven_demo.Services.Orchestrator.Steps.{row_of, Turns-send_step}
use event_driven_demo.Services.Orchestrator.Replies.{reply_to-follows}
use event_driven_demo.Services.Orchestrator.Trace.{begun, heard}
use event_driven_demo.Services.Orchestrator.Orders.{AllSound, Turned-AllSound}

-- An action that leaves every order sound, whether it returns or raises.
abbrev pub Keeps : Action Orch ⊤ → Orch → Type 0
Keeps m d = AllSound d → AllSound (m d).1

reply_to-Keeps :
    (now o : ℕ) (rk : String) (d : Orch) → Keeps (reply_to now o rk (find o d.tables.sagas)) d
reply_to-Keeps now o rk d h = elim (h.sound o) [
  | inl (absent, quiet) ↦ rw absent (unfold reply_to in h)
  | inr (p, i, total, began, row, life) ↦
      let move = reply_to-follows now o i total began p rk in
      rw row (
        Turned-AllSound o i total move.0 (on_message p (reply_of rk)).to d _
          (on_message p (reply_of rk)).sends (move.1 d row).1 (heard life (reply_of rk)) h)
]

lift-Keeps :
    {A : Type 0} (r : Result A) (k : A → Action Orch ⊤) (d : Orch)
    → ((a : A) → Keeps (k a) d)
    → Keeps (lift r >>= k) d
lift-Keeps (ok a) k d h = h a
lift-Keeps (err e) k d h = λ s. s

pub handle_reply-Keeps : (now : ℕ) (msg : Message) (d : Orch) → Keeps (handle_reply now msg) d
unfolding handle_reply
handle_reply-Keeps now msg d =
    lift-Keeps (item_num "order_id" msg.body) (λ o. load o >>= reply_to now o msg.routing_key) d
      (λ o. reply_to-Keeps now o msg.routing_key d)

module _ (o total : ℕ) (d : Orch) (absent : find o d.tables.sagas ≡ none) where
  -- The row that `create` inserts.
  abbrev new_row : Saga
  new_row = record {
    order_id = o;
    state = started;
    total_cents = total;
    awaiting = none;
    comp_pending = pos 0;
    step_started = none;
  }

  create-Turned : Turned o d new_row [] (create o total d).1
  unfolding create
  create-Turned = record {
    row = ground arith;
    others = λ j ne. ground arith;
    sends = sym (append-nil _);
    keeps = refl;
    keyed = insert_new-IsKeyed o new_row d.tables.sagas;
  }

  pub start-Turned :
      (now : ℕ)
      → Turned o d
          (row_of (waiting charge) o total now)
          ("cmd.payment.charge" ∷ [])
          (start_unless_loaded now o total none d).1
  unfolding start_unless_loaded
  start-Turned now =
      Turned-trans [] ("cmd.payment.charge" ∷ []) create-Turned
        (Turns-seq (log now o LogKind.state "saga started") (send_step now o charge total) []
          ("cmd.payment.charge" ∷ []) (Turns-log o new_row now LogKind.state "saga started")
          (Turns-send_step now o new_row charge total) (create o total d).1 create-Turned.row).1

pub start_returns :
    (now o total : ℕ) (d : Orch)
    → find o d.tables.sagas ≡ none
    → (start_unless_loaded now o total none d).0 ≡ ok tt
unfolding start_unless_loaded
start_returns now o total d absent =
    (Turns-seq (log now o LogKind.state "saga started") (send_step now o charge total) []
      ("cmd.payment.charge" ∷ [])
      (Turns-log o (new_row o total d absent) now LogKind.state "saga started")
      (Turns-send_step now o (new_row o total d absent) charge total) (create o total d).1
      (create-Turned o total d absent).row).0

start-Keeps :
    (now o total : ℕ) (d : Orch) → Keeps (start_unless_loaded now o total (find o d.tables.sagas)) d
start-Keeps now o total d h = elim (h.sound o) [
  | inl (absent, quiet) ↦ rw absent (
      Turned-AllSound o o total now (waiting charge) d _ ("cmd.payment.charge" ∷ [])
        (start-Turned o total d absent now) (rw quiet begun) h)
  | inr (p, i, t, began, row, life) ↦ rw row (unfold start_unless_loaded in h)
]

pub handle_order_placed-Keeps :
    (now : ℕ) (msg : Message) (d : Orch) → Keeps (handle_order_placed now msg) d
unfolding handle_order_placed
handle_order_placed-Keeps now msg d =
    lift-Keeps (item_num "order_id" msg.body)
      (λ o. lift (item_num "total_cents" msg.body) >>= λ total.
        load o >>= start_unless_loaded now o total)
      d
      (λ o.
        lift-Keeps (item_num "total_cents" msg.body)
          (λ total. load o >>= start_unless_loaded now o total) d
          (λ total. start-Keeps now o total d))

pub react-Keeps : (now : ℕ) (msg : Message) (d : Orch) → Keeps (react now msg) d
unfolding react
react-Keeps now msg d = elim (Bool-cases (str_eq msg.routing_key "order.placed")) [
  | inl e ↦ rw e (handle_order_placed-Keeps now msg d)
  | inr e ↦ rw e (elim (Bool-cases (starts_with msg.routing_key "reply.")) [
    | inl f ↦ rw f (handle_reply-Keeps now msg d)
    | inr f ↦ rw f (λ h. h)
  ])
]

-- A delivery commits a sound database, whatever the message and however often it comes.
pub handler-AllSound :
    (now : ℕ) (msg : Message) (d : Orch)
    → AllSound d
    → AllSound (handler now msg (idle d)).1.committed
unfolding handler
handler-AllSound now msg d h =
    handle_once_invariant msg.event_id (react now msg) d AllSound
      (record { sound = h.sound; keyed = h.keyed }) (react-Keeps now msg (marked msg.event_id d)) h
