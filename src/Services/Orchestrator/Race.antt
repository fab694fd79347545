-- ===== src/Services/Orchestrator/Race.antt =====
-- `_handle_reply` of services/orchestrator/app/__main__.py loads the row of its order without a lock:
-- what a reply does when a round of the watchdog commits between its load and its writes, as two
-- connections at READ COMMITTED allow.
use event_driven_demo.Base.{
  ℕ, ◌+◌, ◌<◌, ◌≡◌, refl, sym, subst, ◌∙◌, inl, inr, String, Bool, false, none, some, List, [], ◌∷◌,
  ◌++◌, arith, str_eq, count_if-append,
}
use event_driven_demo.Base.Table.{find}
use event_driven_demo.Pyevents.Db.{idle}
use event_driven_demo.Pyevents.Saga.{
  Orch, Saga, reserved, completed, LogKind, reserve, dispatch, state_row,
}
use event_driven_demo.Services.Orchestrator.{reply_to}
use event_driven_demo.Services.Orchestrator.Timeouts.{watchdog}
use event_driven_demo.Services.Orchestrator.Machine.{Phase, waiting, undoing, shipped, dropped}
use event_driven_demo.Services.Orchestrator.Turns.{
  Turns, Turned, Turns-log, Turns-seq, Turned-trans,
}
use event_driven_demo.Services.Orchestrator.Steps.{row_of, Turns-send_step, Turns-finish_completed}
use event_driven_demo.Services.Orchestrator.Trace.{times, Trace-Sends, Sends}
use event_driven_demo.Services.Orchestrator.Orders.{Sound, AllSound, history, Turned-history_self}
use event_driven_demo.Services.Orchestrator.Rounds.{watchdog_gives_up, watchdog-AllSound}

-- `_handle_reply` where `d` was committed when it loaded the row, and `e` when it writes.
unfoldable pub handle_late : ℕ → ℕ → String → (d e : Orch) → Orch
unfolding reply_to
handle_late now order_id rk d e = (reply_to now order_id rk (find order_id d.tables.sagas) e).1

module _ (o i total began : ℕ) where
  -- A reservation goes on to the dispatch, whatever the row has become.
  Turns-stale :
      (now : ℕ) (s : Saga)
      → Turns o s
          (reply_to now o "reply.inventory.reserved"
            (some (row_of (waiting reserve) i total began)))
          (state_row now reserved (some dispatch) none s)
          ("cmd.shipping.dispatch" ∷ [])
  unfolding reply_to
  Turns-stale now s =
      Turns-seq _ _ [] _ (Turns-log o s now LogKind.reply _)
        (Turns-send_step now o s dispatch total)

  -- The answer to the dispatch completes what it finds.
  Turns-shipped :
      (now then : ℕ) (s : Saga)
      → Turns o
          (state_row then reserved (some dispatch) none s)
          (reply_to now o "reply.shipping.dispatched"
            (some (state_row then reserved (some dispatch) none s)))
          (state_row now completed none none (state_row then reserved (some dispatch) none s))
          ("order.shipped" ∷ [])
  unfolding reply_to
  Turns-shipped now then s =
      Turns-seq _ _ [] _ (Turns-log o _ now LogKind.reply _) (Turns-finish_completed now o _)

-- A sound order that waits for compensations has been refunded once and not announced.
undoing-Sends :
    (o n i total began : ℕ) (d : Orch)
    → Sound o d
    → find o d.tables.sagas ≡ some (row_of (undoing n) i total began)
    → Sends (undoing n) (λ rk. times rk (history o d))
undoing-Sends o n i total began d (inl (absent, quiet)) row = cc
undoing-Sends o n i total began d (inr (p, i', total', began', row', life)) row =
    by_phase p (sym row' ∙ row) (Trace-Sends life)
  where
    by_phase :
        (p : Phase)
        → some (row_of p i' total' began') ≡ some (row_of (undoing n) i total began)
        → Sends p (λ rk. times rk (history o d))
        → Sends (undoing n) (λ rk. times rk (history o d))
    by_phase (undoing m) same h = h
    by_phase (waiting step) same h = cc
    by_phase shipped same h = cc
    by_phase dropped same h = cc

handle_late-Turned :
    (now o : ℕ) (rk : String) (d e : Orch) (old s s' : Saga) (out : List String)
    → find o d.tables.sagas ≡ some old
    → find o e.tables.sagas ≡ some s
    → Turns o s (reply_to now o rk (some old)) s' out
    → Turned o e s' out (handle_late now o rk d e)
unfolding handle_late
handle_late-Turned now o rk d e old s s' out loaded row turns =
    subst (λ x. Turned o e s' out (reply_to now o rk x e).1) (sym loaded) (turns e row).1

-- The order has been announced as shipped, once, and refunded, once.
abbrev pub ShippedAndRefunded : ℕ → Orch → Type 0
ShippedAndRefunded o d =
    (s : Saga) × (find o d.tables.sagas ≡ some s)
    × (s.state ≡ completed)
    × (times "order.shipped" (history o d) ≡ 1)
    × (times "cmd.payment.refund" (history o d) ≡ 1)

counted :
    (o : ℕ) (d e : Orch)
    → Sends (undoing 1) (λ rk. times rk (history o d))
    → history o e ≡ history o d ++ ("cmd.shipping.dispatch" ∷ "order.shipped" ∷ [])
    → (times "order.shipped" (history o e) ≡ 1) × (times "cmd.payment.refund" (history o e) ≡ 1)
counted o d e sends out = rw out (
  (count_if-append (str_eq "order.shipped") (history o d) _ ∙ omega (arith, sends)),
  (count_if-append (str_eq "cmd.payment.refund") (history o d) _ ∙ omega (arith, sends)),
)

-- The watchdog gives up an overdue reservation, in a database whose orders are sound, while its reply
-- has been loaded but not written: the reply then sends the dispatch, and once that is answered the
-- order is announced as shipped, although its payment has been refunded.
pub stale_reply_ships :
    (now timeout_s : ℕ) (locked : ℕ → Bool) (o i total began now' now'' : ℕ) (d : Orch)
    → AllSound d
    → find o d.tables.sagas ≡ some (row_of (waiting reserve) i total began)
    → began + timeout_s < now
    → locked o ≡ false
    → let e = (watchdog now timeout_s locked (idle d)).committed in
      let f = handle_late now' o "reply.inventory.reserved" d e in
      ShippedAndRefunded o (handle_late now'' o "reply.shipping.dispatched" f f)
stale_reply_ships now timeout_s locked o i total began now' now'' d h row late free =
    let e = (watchdog now timeout_s locked (idle d)).committed in
    let f = handle_late now' o "reply.inventory.reserved" d e in
    let g = handle_late now'' o "reply.shipping.dispatched" f f in
    let (i', gave_up) =
      watchdog_gives_up now timeout_s locked d o i total began reserve h row late free in
    let s = row_of (undoing 1) i' total now in
    let a =
      handle_late-Turned now' o _ d e _ s _ _ row gave_up (Turns-stale o i total began now' s) in
    let b =
      handle_late-Turned now'' o _ f f _ _ _ _ a.row a.row
        (Turns-shipped o i total began now'' now' s) in
    let sends =
      undoing-Sends o 1 i' total now e ((watchdog-AllSound now timeout_s locked d h).sound o)
        gave_up in
    let (ships, refunds) = counted o e g sends (Turned-history_self _ (Turned-trans _ _ a b)) in
    (_, b.row, refl, ships, refunds)
