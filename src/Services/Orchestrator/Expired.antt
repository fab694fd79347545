-- ===== src/Services/Orchestrator/Expired.antt =====
-- The loop of `_timeout_watchdog` of services/orchestrator/app/__main__.py over the rows that it has taken.
use event_driven_demo.Base.{
  ℕ, ◌≡◌, refl, sym, ◌≢◌, ◌∙◌, subst, inl, inr, false, some, List, [], ◌∷◌, arith, All,
}
use event_driven_demo.Base.Table.{find}
use event_driven_demo.Pyevents.Effect.{ok}
use event_driven_demo.Pyevents.Saga.{Orch, Saga, Step}
use event_driven_demo.Services.Orchestrator.Timeouts.{expire, expire_all}
use event_driven_demo.Services.Orchestrator.Machine.{Phase, waiting, on_timeout}
use event_driven_demo.Services.Orchestrator.Turns.{>>-ok}
use event_driven_demo.Services.Orchestrator.Steps.{row_of}
use event_driven_demo.Services.Orchestrator.Trace.{Trace, gave_up}
use event_driven_demo.Services.Orchestrator.Orders.{Sound, AllSound, Turned-AllSound, history}
use event_driven_demo.Services.Orchestrator.Watchdog.{Waits, Distinct, IsRow, expire-Turns}

some_row :
    (p : Phase) (step : Step) (i total began i' total' began' : ℕ)
    → some (row_of p i total began) ≡ some (row_of (waiting step) i' total' began')
    → p ≡ waiting step
some_row (waiting st) step i total began i' total' began' e = ground arith
some_row _ step i total began i' total' began' e = cc

-- A sound order that waits has lived so that it waits.
waiting_life :
    (o i total began : ℕ) (step : Step) (d : Orch)
    → Sound o d
    → find o d.tables.sagas ≡ some (row_of (waiting step) i total began)
    → Trace (waiting step) (history o d)
waiting_life o i total began step d (inl (absent, quiet)) row = cc
waiting_life o i total began step d (inr (p, i', total', began', row', life)) row =
    subst (λ q. Trace q (history o d))
      (some_row p step i' total' began' i total began (sym row' ∙ row)) life

-- The row that giving up leaves.
abbrev pub GaveUp : ℕ → Orch → ℕ × Step × ℕ → Type 0
GaveUp now d (o, step, total) =
    (i : ℕ) × (find o d.tables.sagas ≡ some (row_of (on_timeout step).to i total now))

-- What the loop over the rows `rs` has done, from `d` to `d'`.
pub record Expired (now : ℕ) (rs : List (ℕ × Step × ℕ)) (d d' : Orch) : Type 0 where
  pub sound : AllSound d'
  pub others : (j : ℕ) → All (λ q. q.0 ≢ j) rs → find j d'.tables.sagas ≡ find j d.tables.sagas
  pub moved : All (GaveUp now d') rs
  pub keeps : d'.processed ≡ d.processed

module _ (now timeout_s : ℕ) where
  Waits-kept :
      (o : ℕ) (d d' : Orch) (rs : List (ℕ × Step × ℕ))
      → ((j : ℕ) → j ≢ o → find j d'.tables.sagas ≡ find j d.tables.sagas)
      → All (λ q. q.0 ≢ o) rs
      → All (Waits d.tables.sagas) rs
      → All (Waits d'.tables.sagas) rs
  Waits-kept o d d' [] same ne h = tt
  Waits-kept o d d' ((j, step, total) ∷ rs) same (j_ne, ne) ((i, began, row), h) =
      ((i, began, same j j_ne ∙ row), Waits-kept o d d' rs same ne h)

  pub expire_all-Expired :
      (rs : List (ℕ × Step × ℕ)) (d : Orch)
      → AllSound d
      → All (Waits d.tables.sagas) rs
      → Distinct rs
      → ((expire_all now timeout_s rs d).0 ≡ ok tt)
        × Expired now rs d (expire_all now timeout_s rs d).1
  unfolding expire_all
  expire_all-Expired [] d h w u =
      (refl, record { sound = h; others = λ j ne. refl; moved = tt; keeps = refl })
  expire_all-Expired ((o, step, total) ∷ rs) d h ((i, began, row), w) (ne, u) =
      let (done, t) = expire-Turns now timeout_s (λ _. false) o i total began step d row in
      let d1 = (expire now timeout_s (o, step, total) d).1 in
      let h1 =
        Turned-AllSound o i total now (on_timeout step).to d d1 (on_timeout step).sends t
          (gave_up (waiting_life o i total began step d (h.sound o) row)) h in
      let (rest_done, rest) = expire_all-Expired rs d1 h1 (Waits-kept o d d1 rs t.others ne w) u in
      rw (>>-ok (expire now timeout_s (o, step, total)) (expire_all now timeout_s rs) d done) (
        rest_done,
        record {
          sound = rest.sound;
          others = λ j (j_ne, ne'). rest.others j ne' ∙ t.others j (λ e. j_ne (sym e));
          moved = ((i, rest.others o ne ∙ t.row), rest.moved);
          keeps = rest.keeps ∙ t.keeps;
        },
      )

pub Sound-IsRow :
    (j : ℕ) (s : Saga) (d : Orch) → Sound j d → find j d.tables.sagas ≡ some s → IsRow s
Sound-IsRow j s d (inl (absent, quiet)) e = cc
Sound-IsRow j s d (inr (p, i, total, began, row, life)) e = (p, i, total, began, ground arith)
