-- ===== src/Services/Orchestrator/Outcome.antt =====
-- What holds of the orchestrator of services/orchestrator/app/__main__.py in the long run: after any
-- deliveries and any rounds of the watchdog, in any order.
use event_driven_demo.Base.{
  ℕ, ◌+◌, ◌≤◌, ◌≡◌, refl, ◌⊎◌, inl, inr, String, Bool, true, false, none, some, List, [], ◌∷◌,
  arith, str_eq, elem, sym, subst, ◌∙◌, Bool-cases, eq_iff, if◌then◌else◌,
}
use text.Mathlib.Text.{starts_with}
use event_driven_demo.Base.Table.{find}
use event_driven_demo.Pyevents.Effect.{ok, item_num}
use event_driven_demo.Pyevents.Db.{idle}
use event_driven_demo.Pyevents.Db.Once.{marked, handle_once_first}
use event_driven_demo.Pyevents.Consumer.{Message}
use event_driven_demo.Pyevents.Saga.{
  Orch, Saga, SagaState, completed, cancelled, charge, reserve, dispatch,
}
use event_driven_demo.Services.Orchestrator.{react, reply_to, handler}
use event_driven_demo.Services.Orchestrator.Timeouts.{watchdog}
use event_driven_demo.Services.Orchestrator.Machine.{
  Phase, waiting, undoing, shipped, dropped, reply_of, on_message,
}
use event_driven_demo.Services.Orchestrator.Turns.{Turned}
use event_driven_demo.Services.Orchestrator.Steps.{row_of}
use event_driven_demo.Services.Orchestrator.Replies.{reply_to-follows}
use event_driven_demo.Services.Orchestrator.Trace.{Trace-Sends, times, Sends}
use event_driven_demo.Services.Orchestrator.Orders.{Sound, AllSound, history}
use event_driven_demo.Services.Orchestrator.Keep.{handler-AllSound}
use event_driven_demo.Services.Orchestrator.Rounds.{watchdog-AllSound}

-- One transaction: a delivery from orchestrator.q, or a round of the watchdog.
pub data Event : Type 0 where
  delivery : (now : ℕ) → Message → Event
  tick : (now timeout_s : ℕ) (locked : ℕ → Bool) → Event

unfoldable pub transact : Event → Orch → Orch
unfolding handler watchdog
transact (delivery now msg) d = (handler now msg (idle d)).1.committed
transact (tick now timeout_s locked) d = (watchdog now timeout_s locked (idle d)).committed

unfoldable pub run : List Event → Orch → Orch
unfolding transact
run [] d = d
run (e ∷ es) d = run es (transact e d)

-- The tables that SAGA_DDL creates.
abbrev pub fresh_db : Orch
fresh_db = record {
  tables = record { sagas = []; saga_log = [] };
  processed = [];
  outbox = [];
  next_id = 1;
}

pub fresh-AllSound : AllSound fresh_db
fresh-AllSound = record { sound = λ j. inl (refl, refl); keyed = tt }

transact-AllSound : (e : Event) (d : Orch) → AllSound d → AllSound (transact e d)
transact-AllSound (delivery now msg) d h = unfold transact in handler-AllSound now msg d h
transact-AllSound (tick now timeout_s locked) d h =
    unfold transact in watchdog-AllSound now timeout_s locked d h

-- Whatever happens, every order's row and messages are those of a life of the machine.
pub run-AllSound : (es : List Event) (d : Orch) → AllSound d → AllSound (run es d)
unfolding run
run-AllSound [] d h = h
run-AllSound (e ∷ es) d h = run-AllSound es (transact e d) (transact-AllSound e d h)

-- The state of an order's saga and the number of times that each outcome has been announced.
abbrev pub Agree : ℕ → Orch → Type 0
Agree j d =
    ((find j d.tables.sagas ≡ none) × (history j d ≡ []))
    ⊎ ((p : Phase) × (i : ℕ) × (total : ℕ) × (began : ℕ) × (find j d.tables.sagas
          ≡ some (row_of p i total began))
        × Sends p (λ rk. times rk (history j d)))

Sound-Agree : (j : ℕ) (d : Orch) → Sound j d → Agree j d
Sound-Agree j d (inl (absent, quiet)) = inl (absent, quiet)
Sound-Agree j d (inr (p, i, total, began, row, life)) =
    inr (p, i, total, began, row, Trace-Sends life)

run-Agree : (es : List Event) (j : ℕ) → Agree j (run es fresh_db)
run-Agree es j = Sound-Agree j (run es fresh_db) ((run-AllSound es fresh_db fresh-AllSound).sound j)

abbrev Bounds : (String → ℕ) → Type 0
Bounds n =
    (n "cmd.payment.charge" ≤ 1)
    × (n "order.shipped" + n "order.cancelled" ≤ 1)
    × (n "order.shipped" + n "cmd.payment.refund" ≤ 1)

Sends-Bounds : (p : Phase) (n : String → ℕ) → Sends p n → Bounds n
Sends-Bounds (waiting charge) n h = omega arith
Sends-Bounds (waiting reserve) n h = omega arith
Sends-Bounds (waiting dispatch) n h = omega arith
Sends-Bounds (undoing k) n h = omega arith
Sends-Bounds shipped n h = omega arith
Sends-Bounds dropped n h = omega arith

-- After any whole transactions, one after the other, from an empty database, an order has been charged
-- for at most once, its outcome has been announced at most once, and no order is both announced as
-- shipped and refunded.
pub one_outcome :
    (es : List Event) (j : ℕ)
    → let out = history j (run es fresh_db) in
      (times "cmd.payment.charge" out ≤ 1)
      × (times "order.shipped" out + times "order.cancelled" out ≤ 1)
      × (times "order.shipped" out + times "cmd.payment.refund" out ≤ 1)
one_outcome es j = elim (run-Agree es j) [
  | inl (absent, quiet) ↦ rw quiet (omega arith)
  | inr (p, i, total, began, row, h) ↦ Sends-Bounds p _ h
]

abbrev pub is_completed : SagaState → Bool
is_completed completed = true
is_completed _ = false

abbrev pub is_cancelled : SagaState → Bool
is_cancelled cancelled = true
is_cancelled _ = false

abbrev Announced : SagaState → (String → ℕ) → Type 0
Announced state n =
    (n "order.shipped" ≡ (if is_completed state then 1 else 0))
    × (n "order.cancelled" ≡ (if is_cancelled state then 1 else 0))

Sends-Announced :
    (p : Phase) (i total began : ℕ) (n : String → ℕ)
    → Sends p n
    → Announced (row_of p i total began).state n
Sends-Announced (waiting charge) i total began n h = omega arith
Sends-Announced (waiting reserve) i total began n h = omega arith
Sends-Announced (waiting dispatch) i total began n h = omega arith
Sends-Announced (undoing k) i total began n h = omega arith
Sends-Announced shipped i total began n h = omega arith
Sends-Announced dropped i total began n h = omega arith

-- After any whole transactions, one after the other, from an empty database, a saga is COMPLETED
-- exactly when order.shipped has been announced for its order, once, and CANCELLED exactly when order.cancelled has.
pub outcome_announced :
    (es : List Event) (j : ℕ) {s : Saga}
    → find j (run es fresh_db).tables.sagas ≡ some s
    → let out = history j (run es fresh_db) in
      (times "order.shipped" out ≡ (if is_completed s.state then 1 else 0))
      × (times "order.cancelled" out ≡ (if is_cancelled s.state then 1 else 0))
outcome_announced es j {s} e = elim (run-Agree es j) [
  | inl (absent, quiet) ↦ cc
  | inr (p, i, total, began, row, h) ↦
      let same : s ≡ row_of p i total began = ground arith in
      rw same (Sends-Announced p i total began _ h)
]

not_placed : (rk : String) → starts_with rk "reply." ≡ true → str_eq rk "order.placed" ≡ false
not_placed rk h = elim (Bool-cases (str_eq rk "order.placed")) [
  | inl e ↦ cc (subst (λ k. starts_with k "reply." ≡ true) ((eq_iff rk "order.placed").0 e) h)
  | inr e ↦ e
]

react_lem :
    (now o : ℕ) (msg : Message) (d : Orch)
    → starts_with msg.routing_key "reply." ≡ true
    → item_num "order_id" msg.body ≡ ok o
    → react now msg d ≡ reply_to now o msg.routing_key (find o d.tables.sagas) d
unfolding react
react_lem now o msg d reply order = rw (not_placed msg.routing_key reply, reply, order)

-- The first delivery of a reply makes the machine's move and commits it: the row of its order is
-- that of the next phase, the messages of the move and no others are staged, and no other order's
-- row changes.
pub handler-follows :
    (now o i total began : ℕ) (p : Phase) (msg : Message) (d : Orch)
    → elem msg.event_id d.processed ≡ false
    → starts_with msg.routing_key "reply." ≡ true
    → item_num "order_id" msg.body ≡ ok o
    → find o d.tables.sagas ≡ some (row_of p i total began)
    → let mv = on_message p (reply_of msg.routing_key) in
      (began' : ℕ) × Turned o
        (marked msg.event_id d)
        (row_of mv.to i total began')
        mv.sends
        (handler now msg (idle d)).1.committed
unfolding handler
handler-follows now o i total began p msg d new reply order row =
    let mv = on_message p (reply_of msg.routing_key) in
    let (began', move) = reply_to-follows now o i total began p msg.routing_key in
    let (done, turned) = move (marked msg.event_id d) row in
    let d' =
      (reply_to now o msg.routing_key (some (row_of p i total began)) (marked msg.event_id d)).1 in
    let ran : react now msg (marked msg.event_id d) ≡ (ok tt, d') =
      react_lem now o msg (marked msg.event_id d) reply order ∙ rw row (λ k. (done k, d')) in
    (
      began',
      subst
          (λ c.
            Turned o (marked msg.event_id d) (row_of mv.to i total began') mv.sends c.1.committed)
          (sym (handle_once_first msg.event_id (react now msg) d new ran)) turned,
    )
