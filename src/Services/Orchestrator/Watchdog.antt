-- ===== src/Services/Orchestrator/Watchdog.antt =====
-- `_timeout_watchdog` of services/orchestrator/app/__main__.py: which rows it takes, and what a
-- round does to them and to all others.
use event_driven_demo.Base.{
  ℕ, ◌≡◌, refl, ◌≢◌, ap, subst, inl, inr, Bool, true, false, none, some, List, [], ◌∷◌, arith,
  Bool-cases, Option-cases, All, ◌==◌, ==_refl, ==_ne,
}
use event_driven_demo.Base.Table.{Table, find, IsKeyed}
use event_driven_demo.Pyevents.Saga.{Saga, Step, LogKind, log}
use event_driven_demo.Services.Orchestrator.{begin_compensation}
use event_driven_demo.Services.Orchestrator.Timeouts.{timed_out, timeout_note, stuck_rows, expire}
use event_driven_demo.Services.Orchestrator.Machine.{
  Phase, waiting, undoing, shipped, dropped, on_timeout,
}
use event_driven_demo.Services.Orchestrator.Turns.{Turns, Turns-log, Turns-seq}
use event_driven_demo.Services.Orchestrator.Steps.{row_of}
use event_driven_demo.Services.Orchestrator.Refine.{begin_compensation-move}

-- The row of a saga in some phase.
abbrev pub IsRow : Saga → Type 0
IsRow s = (p : Phase) × (i : ℕ) × (total : ℕ) × (began : ℕ) × (s ≡ row_of p i total began)

-- The table has a waiting saga under the key, with this step and total.
abbrev pub Waits : Table Saga → ℕ × Step × ℕ → Type 0
Waits t (o, step, total) =
    (i : ℕ) × (began : ℕ) × (find o t ≡ some (row_of (waiting step) i total began))

abbrev pub Distinct : List (ℕ × Step × ℕ) → Type 0
Distinct [] = Unit
Distinct (r ∷ rs) = All (λ q. q.0 ≢ r.0) rs × Distinct rs

timed_out-waits :
    (now timeout_s : ℕ) (s : Saga) (step : Step)
    → IsRow s
    → timed_out now timeout_s s ≡ some step
    → (i : ℕ) × (began : ℕ) × (s ≡ row_of (waiting step) i s.total_cents began)
unfolding timed_out
timed_out-waits now timeout_s s step (waiting st, i, total, began, e) h =
    let at_row = subst (λ x. timed_out now timeout_s x ≡ some step) e h in (i, began, ground arith)
timed_out-waits now timeout_s s step (undoing n, i, total, began, e) h =
    let at_row = subst (λ x. timed_out now timeout_s x ≡ some step) e h in cc at_row
timed_out-waits now timeout_s s step (shipped, i, total, began, e) h =
    let at_row = subst (λ x. timed_out now timeout_s x ≡ some step) e h in cc at_row
timed_out-waits now timeout_s s step (dropped, i, total, began, e) h =
    let at_row = subst (λ x. timed_out now timeout_s x ≡ some step) e h in cc at_row

-- A row found under a key stays found when another row is put before it.
find_later :
    (j o : ℕ) (v : Saga) (t : Table Saga) {s : Saga}
    → find o t ≡ none
    → find j t ≡ some s
    → find j ((o, v) ∷ t) ≡ some s
find_later j o v t absent h = elim (Bool-cases (o == j)) [
  | inl e ↦ let same : o ≡ j = ground arith in cc (subst (λ k. find k t ≡ none) same absent)
  | inr e ↦ rw e h
]

Waits-later :
    (o : ℕ) (v : Saga) (t : Table Saga) (rs : List (ℕ × Step × ℕ))
    → find o t ≡ none
    → All (Waits t) rs
    → All (Waits ((o, v) ∷ t)) rs
Waits-later o v t [] absent h = tt
Waits-later o v t ((j, step, total) ∷ rs) absent ((i, began, row), h) =
    ((i, began, find_later j o v t absent row), Waits-later o v t rs absent h)

module _ (now timeout_s : ℕ) (locked : ℕ → Bool) where
  pub expire-Turns :
      (o i total began : ℕ) (step : Step)
      → Turns o
          (row_of (waiting step) i total began)
          (expire now timeout_s (o, step, total))
          (row_of (on_timeout step).to i total now)
          (on_timeout step).sends
  unfolding expire
  expire-Turns o i total began step =
      Turns-seq (log now o LogKind.timeout (timeout_note step timeout_s))
        (begin_compensation now o step total true) [] (on_timeout step).sends
        (Turns-log o _ now LogKind.timeout _)
        (begin_compensation-move now o i total began step true)

  -- One more row of the table: it is taken, or the rows are those of the rest.
  pub stuck_rows-cons :
      (P : ℕ × Step × ℕ → Type 0) (o : ℕ) (s : Saga) (t : Table Saga)
      → All P (stuck_rows now timeout_s locked t)
      → ((step : Step)
          → locked o ≡ false
          → timed_out now timeout_s s ≡ some step
          → P (o, step, s.total_cents))
      → All P (stuck_rows now timeout_s locked ((o, s) ∷ t))
  unfolding stuck_rows
  stuck_rows-cons P o s t rest head = elim (Bool-cases (locked o)) [
    | inl e ↦ rw e rest
    | inr e ↦ rw e (elim (Option-cases (timed_out now timeout_s s)) [
      | inl f ↦ rw f rest
      | inr (step, f) ↦ rw f (head step e f, rest)
    ])
  ]

  -- Every row that is found has a waiting saga of the table.
  pub stuck_rows-Waits :
      (t : Table Saga)
      → IsKeyed t
      → ((j : ℕ) (s : Saga) → find j t ≡ some s → IsRow s)
      → All (Waits t) (stuck_rows now timeout_s locked t)
  unfolding stuck_rows
  stuck_rows-Waits [] k rows = tt
  stuck_rows-Waits ((o, s) ∷ t) k rows =
      stuck_rows-cons (Waits ((o, s) ∷ t)) o s t
        (Waits-later o s t (stuck_rows now timeout_s locked t) k.0
          (stuck_rows-Waits t k.1 (λ j v h. rows j v (find_later j o s t k.0 h))))
        λ step e f.
          let (i, began, row) =
            timed_out-waits now timeout_s s step (rows o s (rw (==_refl o) refl)) f in
          (i, began, rw (==_refl o) (ap some row))

  pub stuck_rows-ne :
      (o : ℕ) (t : Table Saga)
      → find o t ≡ none
      → All (λ q. q.0 ≢ o) (stuck_rows now timeout_s locked t)
  unfolding stuck_rows
  stuck_rows-ne o [] h = tt
  stuck_rows-ne o ((j, s) ∷ t) h =
      let ne : j ≢ o = λ e. cc (rw (e, ==_refl o) at h) in
      stuck_rows-cons (λ q. q.0 ≢ o) j s t (stuck_rows-ne o t (rw (==_ne j o ne) at h))
        (λ step e f. ne)

  -- No order is taken twice.
  pub stuck_rows-Distinct :
      (t : Table Saga) → IsKeyed t → Distinct (stuck_rows now timeout_s locked t)
  unfolding stuck_rows
  stuck_rows-Distinct [] k = tt
  stuck_rows-Distinct ((o, s) ∷ t) k = elim (Bool-cases (locked o)) [
    | inl e ↦ rw e (stuck_rows-Distinct t k.1)
    | inr e ↦ rw e (elim (Option-cases (timed_out now timeout_s s)) [
      | inl f ↦ rw f (stuck_rows-Distinct t k.1)
      | inr (step, f) ↦ rw f (stuck_rows-ne o t k.0, stuck_rows-Distinct t k.1)
    ])
  ]
