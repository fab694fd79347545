-- ===== src/Services/Orchestrator/Converge.antt =====
-- A compensation of services/orchestrator/app/__main__.py comes to its end.
use event_driven_demo.Base.{
  ℕ, ◌+◌, ◌<◌, Bool, zero, suc, ◌≡◌, refl, sym, subst, ◌⊎◌, inl, inr, String, true, false, some,
  List, [], ◌∷◌, elem, arith, length, map, All,
}
use event_driven_demo.Base.Table.{find}
use text.Mathlib.Text.{starts_with}
use event_driven_demo.Pyevents.Effect.{ok, item_num}
use event_driven_demo.Pyevents.Db.{idle}
use event_driven_demo.Pyevents.Db.Once.{marked}
use event_driven_demo.Pyevents.Consumer.{Message}
use event_driven_demo.Pyevents.Saga.{Orch, Step, charge, reserve, dispatch}
use event_driven_demo.Services.Orchestrator.{handler, comps_for}
use event_driven_demo.Services.Orchestrator.Timeouts.{watchdog}
use event_driven_demo.Services.Orchestrator.Orders.{AllSound}
use event_driven_demo.Services.Orchestrator.Rounds.{watchdog_gives_up, watchdog-processed}
use event_driven_demo.Services.Orchestrator.Machine.{
  Move, undoing, dropped, waiting, on_timeout, on_undone, reply_of, on_message,
}
use event_driven_demo.Services.Orchestrator.Turns.{Turned}
use event_driven_demo.Services.Orchestrator.Steps.{row_of}
use event_driven_demo.Services.Orchestrator.Outcome.{
  Event, delivery, tick, run, transact, handler-follows,
}

-- The answer to a compensating command for order `o`.
abbrev pub IsUndone : ℕ → ℕ × Message → Type 0
IsUndone o (now, msg) =
    ((msg.routing_key ≡ "reply.payment.refunded") ⊎ (msg.routing_key ≡ "reply.inventory.released"))
    × (item_num "order_id" msg.body ≡ ok o)

-- No message has an event id that was seen before.
abbrev pub AreNew : List String → List (ℕ × Message) → Type 0
AreNew seen [] = Unit
AreNew seen ((now, msg) ∷ ms) = (elem msg.event_id seen ≡ false) × AreNew (msg.event_id ∷ seen) ms

abbrev pub deliveries : List (ℕ × Message) → List Event
deliveries ms = map (λ (now, msg). delivery now msg) ms

module _ (o i total began n now : ℕ) (msg : Message) (d : Orch)
    (order : item_num "order_id" msg.body ≡ ok o) (new : elem msg.event_id d.processed ≡ false)
    (row : find o d.tables.sagas ≡ some (row_of (undoing n) i total began)) where
  abbrev Follows : Move → Type 0
  Follows mv =
      (began' : ℕ) × Turned o (marked msg.event_id d) (row_of mv.to i total began') mv.sends
        (handler now msg (idle d)).1.committed

  Follows-key :
      (k : String)
      → starts_with k "reply." ≡ true
      → msg.routing_key ≡ k
      → Follows (on_message (undoing n) (reply_of k))
  Follows-key k starts e =
      subst (λ rk. Follows (on_message (undoing n) (reply_of rk))) e
        (handler-follows now o i total began (undoing n) msg d new
          (subst (λ rk. starts_with rk "reply." ≡ true) (sym e) starts) order row)

  undone-Follows :
      (msg.routing_key ≡ "reply.payment.refunded") ⊎ (msg.routing_key ≡ "reply.inventory.released")
      → Follows (on_undone n)
  undone-Follows (inl e) = Follows-key "reply.payment.refunded" refl e
  undone-Follows (inr e) = Follows-key "reply.inventory.released" refl e

-- A saga that waits for `n + 1` compensating replies is CANCELLED once as many replies to the
-- compensating commands, with new event ids, have been delivered.
pub compensation_ends :
    (n o i total began : ℕ) (ms : List (ℕ × Message)) (d : Orch)
    → length ms ≡ suc n
    → All (IsUndone o) ms
    → AreNew d.processed ms
    → find o d.tables.sagas ≡ some (row_of (undoing n) i total began)
    → find o (run (deliveries ms) d).tables.sagas ≡ some (row_of dropped i total began)
unfolding run transact
compensation_ends n o i total began [] d len replies new row = absurd (omega (arith, len))
compensation_ends zero o i total began (m ∷ []) d len (reply, replies) (new, news) row =
    let (b, t) = undone-Follows o i total began zero m.0 m.1 d reply.1 new row reply.0 in t.row
compensation_ends zero o i total began (m ∷ m' ∷ ms) d len replies new row =
    absurd (omega (arith, len))
compensation_ends (suc n) o i total began (m ∷ ms) d len (reply, replies) (new, news) row =
    let (b, t) = undone-Follows o i total began (suc n) m.0 m.1 d reply.1 new row reply.0 in
    compensation_ends n o i total b ms (handler m.0 m.1 (idle d)).1.committed (omega (arith, len))
      replies (subst (λ seen. AreNew seen ms) (sym t.keeps) news) t.row

-- An overdue saga in a sound database, whose row no one else has locked, is CANCELLED by a round of
-- the watchdog and as many replies, with new event ids, as compensating commands undo its step.
pub timeout_ends :
    (now timeout_s : ℕ) (locked : ℕ → Bool) (step : Step) (o i total began : ℕ)
    (ms : List (ℕ × Message)) (d : Orch)
    → AllSound d
    → find o d.tables.sagas ≡ some (row_of (waiting step) i total began)
    → began + timeout_s < now
    → locked o ≡ false
    → length ms ≡ length (comps_for step true)
    → All (IsUndone o) ms
    → AreNew d.processed ms
    → (i' : ℕ) × (find o (run (tick now timeout_s locked ∷ deliveries ms) d).tables.sagas
        ≡ some (row_of dropped i' total now))
unfolding run transact comps_for
timeout_ends now timeout_s locked step o i total began ms d h row late free len replies new =
    let d' = (watchdog now timeout_s locked (idle d)).committed in
    let (i', gave_up) =
      watchdog_gives_up now timeout_s locked d o i total began step h row late free in
    let news : AreNew d'.processed ms =
      subst (λ seen. AreNew seen ms) (sym (watchdog-processed now timeout_s locked d h)) new in
    (i', by_step i' d' step gave_up len news)
  where
    by_step :
        (i' : ℕ) (d' : Orch)
        → (step : Step) → find o d'.tables.sagas ≡ some (row_of (on_timeout step).to i' total now)
        → length ms ≡ length (comps_for step true)
        → AreNew d'.processed ms
        → find o (run (deliveries ms) d').tables.sagas ≡ some (row_of dropped i' total now)
    by_step i' d' charge row' len' news =
        compensation_ends 0 o i' total now ms d' len' replies news row'
    by_step i' d' reserve row' len' news =
        compensation_ends 1 o i' total now ms d' len' replies news row'
    by_step i' d' dispatch row' len' news =
        compensation_ends 1 o i' total now ms d' len' replies news row'
