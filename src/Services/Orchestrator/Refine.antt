-- ===== src/Services/Orchestrator/Refine.antt =====
-- services/orchestrator/app/__main__.py implements the machine of Machine.antt, one order at a time.
use mathlib.Core.List.{append-nil}
use event_driven_demo.Base.{
  ℕ, zero, suc, ◌≡◌, refl, sym, String, Bool, true, false, none, some, List, [], ◌∷◌, arith, length,
  ==_refl, ==_ne, if◌then◌else◌,
}
use event_driven_demo.Base.Int.{ℤ, pos, ◌-ℤ◌, int_laws, leb_ℤ}
use event_driven_demo.Base.Table.{find, find-update, update-IsKeyed}
use event_driven_demo.Pyevents.Effect.{pure, ◌>>=◌, ⊤, Action}
use event_driven_demo.Pyevents.Saga.{
  compensating, cancelling, cancelled, Step, charge, reserve, dispatch, Saga, Orch, state_row,
  dec_comp_pending, returned,
}
use event_driven_demo.Services.Orchestrator.{
  begin_compensation, finish_cancelled, compensate, release_late, amount_body,
}
use event_driven_demo.Services.Orchestrator.Machine.{
  Phase, waiting, undoing, dropped, Move, on_failure, on_timeout, on_undone,
}
use event_driven_demo.Services.Orchestrator.Turns.{
  Turns, Turned, Turned-trans, Turns-pure, Turns-log, Turns-emit, Turns-set_state, Turns-seq,
}
use event_driven_demo.Services.Orchestrator.Steps.{row_of, Turns-finish_cancelled, Turns-emit_all}

module _ (now o : ℕ) where
  Turns-compensate-none :
      (s : Saga) (step : Step) (total : ℕ)
      → Turns o s
          (compensate now o step total [])
          (state_row now cancelled none none (state_row now cancelling none (some (pos 0)) s))
          ("order.cancelled" ∷ [])
  unfolding compensate
  Turns-compensate-none s step total =
      Turns-seq _ _ [] ("order.cancelled" ∷ [])
        (Turns-set_state o s now cancelling none (some (pos 0))) (Turns-finish_cancelled now o _ _)

  Turns-compensate-some :
      (s : Saga) (step : Step) (total : ℕ) (rk : String) (rks : List String)
      → Turns o s
          (compensate now o step total (rk ∷ rks))
          (state_row now compensating none (some (pos (length (rk ∷ rks)))) s)
          (rk ∷ rks)
  unfolding compensate
  Turns-compensate-some s step total rk rks =
      Turns-seq _ _ [] (rk ∷ rks)
        (Turns-seq _ _ [] []
          (Turns-set_state o s now compensating none (some (pos (length (rk ∷ rks)))))
          (Turns-log o _ now _ _))
        (Turns-emit_all now o _ total (rk ∷ rks))

abbrev pub on_giving_up : Bool → Step → Move
on_giving_up true = on_timeout
on_giving_up false = on_failure

-- Giving up a step sends the commands of the machine, in its order, and leaves the saga in the phase
-- that waits for as many replies, or cancelled where there are none.
pub begin_compensation-move :
    (now o i total began : ℕ) (step : Step) (unknown : Bool)
    → let mv = on_giving_up unknown step in
      Turns o
        (row_of (waiting step) i total began)
        (begin_compensation now o step total unknown)
        (row_of mv.to i total now)
        mv.sends
unfolding begin_compensation
begin_compensation-move now o i total began charge false =
    Turns-compensate-none now o _ charge total
begin_compensation-move now o i total began reserve false =
    Turns-compensate-some now o _ reserve total _ _
begin_compensation-move now o i total began dispatch false =
    Turns-compensate-some now o _ dispatch total _ _
begin_compensation-move now o i total began charge true =
    Turns-compensate-some now o _ charge total _ _
begin_compensation-move now o i total began reserve true =
    Turns-compensate-some now o _ reserve total _ _
begin_compensation-move now o i total began dispatch true =
    Turns-compensate-some now o _ dispatch total _ _

module _ (o : ℕ) (s : Saga) where
  less_one : Saga
  less_one = record s { comp_pending = s.comp_pending -ℤ pos 1 }

  less_one_row :
      (d : Orch)
      → find o d.tables.sagas ≡ some s
      → find o (dec_comp_pending o d).1.tables.sagas ≡ some less_one
  unfolding dec_comp_pending less_one
  less_one_row d h = rw find-update (rw (==_refl o) (rw h))

  less_one-Turned :
      (d : Orch) → find o d.tables.sagas ≡ some s → Turned o d less_one [] (dec_comp_pending o d).1
  unfolding dec_comp_pending
  less_one-Turned d h = record {
    row = less_one_row d h;
    others = λ j ne. rw find-update (rw (==_ne o j (λ e. ne (sym e))));
    sends = sym (append-nil _);
    keeps = refl;
    keyed = update-IsKeyed o _ d.tables.sagas;
  }

  Turns-dec :
      (k : ℤ → Action Orch ⊤) (u : Saga) (out : List String)
      → Turns o less_one (k less_one.comp_pending) u out
      → Turns o s (dec_comp_pending o >>= k) u out
  unfolding dec_comp_pending less_one
  Turns-dec k u out hk d h =
      let row = less_one_row d h in
      let d' = (dec_comp_pending o d).1 in
      let after = hk d' row in
      rw (row, returned) (after.0, Turned-trans [] out (less_one-Turned d h) after.1)

dec-suc : (n : ℕ) → pos (suc n) -ℤ pos 1 ≡ pos n
dec-suc n = omega int_laws

leb-suc : (n : ℕ) → leb_ℤ (pos (suc n)) (pos 0) ≡ false
leb-suc n = ground arith

module _ (now o i total began : ℕ) where
  -- The code after the counter has been taken down.
  abbrev pub when_none_left : ℤ → Action Orch ⊤
  when_none_left remaining =
      if leb_ℤ remaining (pos 0) then finish_cancelled now o "compensated" else pure tt

  none_left :
      (x : ℤ)
      → x ≡ pos 0
      → Turns o
          (record (row_of (undoing 0) i total began) { comp_pending = x })
          (when_none_left x)
          (row_of dropped i total began)
          ("order.cancelled" ∷ [])
  none_left x e = rw e (Turns-finish_cancelled now o _ "compensated")

  some_left :
      (n : ℕ) (x : ℤ)
      → x ≡ pos (suc n)
      → Turns o
          (record (row_of (undoing 0) i total began) { comp_pending = x })
          (when_none_left x)
          (row_of (undoing n) i total began)
          []
  some_left n x e = rw e (rw (leb-suc n) (Turns-pure o _))

  pub Turns-undone :
      (n : ℕ)
      → let mv = on_undone n in
        Turns o
          (row_of (undoing n) i total began)
          (dec_comp_pending o >>= when_none_left)
          (row_of mv.to i total began)
          mv.sends
  unfolding less_one
  Turns-undone zero =
      Turns-dec o _ when_none_left _ ("order.cancelled" ∷ []) (none_left _ (dec-suc 0))
  Turns-undone (suc n) = Turns-dec o _ when_none_left _ [] (some_left n _ (dec-suc (suc n)))

  pub Turns-release_late :
      (p : Phase) (note : String)
      → Turns o
          (row_of p i total began)
          (release_late now o (row_of p i total began) note)
          (row_of p i total began)
          ("cmd.inventory.release" ∷ [])
  unfolding release_late
  Turns-release_late p note =
      Turns-seq _ _ [] ("cmd.inventory.release" ∷ []) (Turns-log o _ now _ _) (
        Turns-emit o _ now "cmd.inventory.release"
          (amount_body (row_of p i total began).total_cents) ".late")
