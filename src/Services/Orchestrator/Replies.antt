-- ===== src/Services/Orchestrator/Replies.antt =====
-- `_handle_reply` of services/orchestrator/app/__main__.py against the machine, for every routing
-- key in every phase.
use event_driven_demo.Base.{
  ℕ, ◌≡◌, sym, ◌≢◌, String, false, none, some, List, [], str_eq, str_eq-ne, Option-cases, inl, inr,
}
use event_driven_demo.Pyevents.Effect.{◌>>◌, Action, ⊤}
use event_driven_demo.Pyevents.Saga.{charge, reserve, dispatch, Saga, LogKind, Orch, log}
use event_driven_demo.Services.Orchestrator.{reply_to}
use event_driven_demo.Services.Orchestrator.Machine.{
  Reply, was_charged, charge_failed, was_reserved, reserve_failed, was_dispatched, dispatch_failed,
  was_refunded, was_released, reply_text, Phase, waiting, undoing, shipped, dropped, Move, on_reply,
  reply_of, reply_of-some, reply_of-none, on_message,
}
use event_driven_demo.Services.Orchestrator.Turns.{Turns, Turns-pure, Turns-log, Turns-seq}
use event_driven_demo.Services.Orchestrator.Steps.{row_of, Turns-send_step, Turns-finish_completed}
use event_driven_demo.Services.Orchestrator.Refine.{
  begin_compensation-move, Turns-undone, Turns-release_late,
}

differs :
    (rk : String) (r : Reply) → ((q : Reply) → rk ≢ reply_text q) → str_eq rk (reply_text r) ≡ false
differs rk r ne = str_eq-ne rk (reply_text r) (ne r)

differs' :
    (rk : String) (r : Reply) → ((q : Reply) → rk ≢ reply_text q) → str_eq (reply_text r) rk ≡ false
differs' rk r ne = str_eq-ne (reply_text r) rk (λ e. ne r (sym e))

module _ (now o i total began : ℕ) where
  -- The code on a reply to a saga in a phase, and what the machine makes of it. A saga that goes on
  -- to wait has the time `began'` in its row.
  abbrev pub Follows : Phase → String → Move → Type 0
  Follows p rk mv =
      (began' : ℕ) × Turns o (row_of p i total began)
        (reply_to now o rk (some (row_of p i total began))) (row_of mv.to i total began') mv.sends

  logged :
      {s u : Saga} {out : List String} (rk : String) (k : Action Orch ⊤)
      → Turns o s k u out
      → Turns o s (log now o LogKind.reply rk >> k) u out
  logged {s} {u} {out} rk k h = Turns-seq _ k [] out (Turns-log o s now LogKind.reply rk) h

  reply_to-move : (p : Phase) (r : Reply) → Follows p (reply_text r) (on_reply p r)
  unfolding reply_to
  reply_to-move (waiting charge) was_charged =
      (now, logged _ _ (Turns-send_step now o _ reserve total))
  reply_to-move (waiting charge) charge_failed =
      (now, logged _ _ (begin_compensation-move now o i total began charge false))
  reply_to-move (waiting reserve) was_reserved =
      (now, logged _ _ (Turns-send_step now o _ dispatch total))
  reply_to-move (waiting reserve) reserve_failed =
      (now, logged _ _ (begin_compensation-move now o i total began reserve false))
  reply_to-move (waiting dispatch) was_dispatched =
      (now, logged _ _ (Turns-finish_completed now o _))
  reply_to-move (waiting dispatch) dispatch_failed =
      (now, logged _ _ (begin_compensation-move now o i total began dispatch false))
  reply_to-move (undoing n) was_refunded = (began, logged _ _ (Turns-undone now o i total began n))
  reply_to-move (undoing n) was_released = (began, logged _ _ (Turns-undone now o i total began n))
  reply_to-move (undoing n) was_reserved =
      (began, logged _ _ (Turns-release_late now o i total began (undoing n) _))
  reply_to-move shipped was_reserved =
      (began, logged _ _ (Turns-release_late now o i total began shipped _))
  reply_to-move dropped was_reserved =
      (began, logged _ _ (Turns-release_late now o i total began dropped _))
  reply_to-move _ _ = (began, logged _ _ (Turns-pure o _))

  -- A routing key that is no answer.
  reply_to-stay :
      (p : Phase) (rk : String)
      → ((r : Reply) → rk ≢ reply_text r)
      → Follows p rk (on_message p none)
  unfolding reply_to
  reply_to-stay (waiting charge) rk ne = (
    began,
    rw (differs rk was_charged ne, differs rk charge_failed ne) (logged rk _ (Turns-pure o _)),
  )
  reply_to-stay (waiting reserve) rk ne = (
    began,
    rw (differs rk was_reserved ne, differs rk reserve_failed ne) (logged rk _ (Turns-pure o _)),
  )
  reply_to-stay (waiting dispatch) rk ne = (
    began,
    rw (differs rk was_dispatched ne, differs rk dispatch_failed ne) (logged rk _ (Turns-pure o _)),
  )
  reply_to-stay (undoing n) rk ne = (
    began,
    rw (differs' rk was_refunded ne, differs' rk was_released ne, differs rk was_reserved ne)
        (logged rk _ (Turns-pure o _)),
  )
  reply_to-stay shipped rk ne =
      (began, rw (differs rk was_reserved ne) (logged rk _ (Turns-pure o _)))
  reply_to-stay dropped rk ne =
      (began, rw (differs rk was_reserved ne) (logged rk _ (Turns-pure o _)))

  -- On any routing key and in any phase, `_handle_reply` makes the machine's move.
  pub reply_to-follows : (p : Phase) (rk : String) → Follows p rk (on_message p (reply_of rk))
  reply_to-follows p rk = elim (Option-cases (reply_of rk)) [
    | inl e ↦ rw e (reply_to-stay p rk (λ r. reply_of-none rk r e))
    | inr (r, e) ↦ rw e (rw (reply_of-some rk r e) (reply_to-move p r))
  ]
