-- ===== src/Pyevents/Schema/Finishes.antt =====
-- No deadlock between calls of `run_script`, libs/pyevents/pyevents/db.py.
use event_driven_demo.Base.{
  ℕ, ◌≡◌, ◌≢◌, refl, sym, ap, subst, ◌∙◌, inl, inr, String, false, Option, none, some, List, [],
  ◌∷◌, ◌++◌, All, ==_refl, ==_ne, arith, elem, Bool-cases,
}
use event_driven_demo.Pyevents.Schema.{
  run_script, running, returned, Session, Server, is_contended, is_there, with_session, left_over,
  turn, Event, goes, happen, run, start, end_transaction,
}
use event_driven_demo.Pyevents.Schema.Places.{
  ByHolder, rest_of, Place, waits, inside, inserting, has_returned, was_killed, Serial, uncontended,
  no_rows,
}
use event_driven_demo.Pyevents.Schema.Steps.{turn_at}
use event_driven_demo.Pyevents.Schema.Serialised.{run-Serial, start-Serial}

-- Sessions that take a step each, in this order.
abbrev pub going : List ℕ → List Event
going [] = []
going (k ∷ ks) = goes k ∷ going ks

going-append :
    (ks ls : List ℕ) (w : Server) → run (going (ks ++ ls)) w ≡ run (going ls) (run (going ks) w)
going-append [] ls w = refl
going-append (k ∷ ks) ls w = going-append ks ls (happen (goes k) w)

-- Steps after which the call of session `i` has returned, and has left the others alone.
record Ends (i : ℕ) (w : Server) : Type 0 where
  ks : List ℕ
  ended : ((run (going ks) w).sessions i).status ≡ returned
  freed : (run (going ks) w).lock_holder ≡ none
  apart : (j : ℕ) → j ≢ i → (run (going ks) w).sessions j ≡ w.sessions j

Ends-later :
    (i : ℕ) (w w' : Server)
    → turn i w ≡ w'
    → ((j : ℕ) → j ≢ i → w'.sessions j ≡ w.sessions j)
    → Ends i w'
    → Ends i w
unfolding happen
Ends-later i w w' e same later =
    let next : Ends i (turn i w) = subst (Ends i) (sym e) later in
    record {
      ks = i ∷ next.ks;
      ended = next.ended;
      freed = next.freed;
      apart = λ j ne. next.apart j ne ∙ ap (λ v. v.sessions j) e ∙ same j ne;
    }

apart_from :
    (i j : ℕ) (s : Session) (w : Server) → j ≢ i → (with_session i s w).sessions j ≡ w.sessions j
apart_from i j s w ne = rw (==_ne j i ne) refl

at_own : (i : ℕ) (s : Session) (w : Server) → (with_session i s w).sessions i ≡ s
at_own i s w = rw (==_refl i) refl

module _ (script : ℕ → List String) where
  commit-Ends :
      (i : ℕ) (w : Server)
      → w.lock_holder ≡ some i
      → w.sessions i ≡ left_over (rest_of script []) none
      → Ends i w
  commit-Ends i w mine e =
      Ends-later i w (end_transaction i [] w) (turn_at script i w _ e)
        (λ j ne. rw (==_ne j i ne) refl)
        (record {
          ks = [];
          ended = rw (==_refl i) refl;
          freed = rw (mine, ==_refl i) refl;
          apart = λ j ne. refl;
        })

  insert-Ends :
      (i : ℕ) (name : String) (names : List String) (w : Server)
      → All (ByHolder w.lock_holder) w.inserted
      → w.lock_holder ≡ some i
      → w.sessions i ≡ left_over (rest_of script names) (some name)
      → elem name w.committed ≡ false
      → Ends i (
          with_session i
            (left_over (rest_of script names) none)
            (record w { inserted = (i, name) ∷ w.inserted }))
      → Ends i w
  insert-Ends i name names w rows mine e new later =
      let free : is_contended i name w.inserted ≡ false =
        uncontended i name w.inserted (rw mine at rows) in
      Ends-later i w _ (turn_at script i w _ e ∙ rw (new, free) refl)
        (λ j ne. rw (==_ne j i ne) refl) later

  inside-Ends :
      (i : ℕ) (names : List String) (w : Server)
      → All (ByHolder w.lock_holder) w.inserted
      → w.lock_holder ≡ some i
      → w.sessions i ≡ left_over (rest_of script names) none
      → Ends i w
  inside-Ends i [] w rows mine e = commit-Ends i w mine e
  inside-Ends i (name ∷ names) w rows mine e = elim (Bool-cases (is_there i name w)) [
    | inl there ↦
        Ends-later i w (with_session i (left_over (rest_of script names) none) w)
          (turn_at script i w _ e ∙ rw there refl) (λ j ne. apart_from i j _ w ne)
          (inside-Ends i names _ rows mine (at_own i _ w))
    | inr absent ↦
        let new : elem name w.committed ≡ false = ground (arith, absent) in
        let looked = with_session i (left_over (rest_of script names) (some name)) w in
        Ends-later i w looked (turn_at script i w _ e ∙ rw absent refl)
          (λ j ne. apart_from i j _ w ne)
          (insert-Ends i name names looked rows mine (at_own i _ w) new
            (inside-Ends i names _ (mine, rows) mine (at_own i _ looked)))
  ]

  waiting-Ends :
      (i : ℕ) (w : Server)
      → Serial script w
      → w.lock_holder ≡ none
      → w.sessions i ≡ left_over (run_script (script i)) none
      → Ends i w
  unfolding run_script
  waiting-Ends i w s free e =
      let empty : w.inserted ≡ [] = no_rows w.inserted (rw free at s.rows) in
      let locked =
        with_session i (left_over (rest_of script (script i)) none)
          (record w { lock_holder = some i }) in
      Ends-later i w locked (turn_at script i w _ e ∙ rw free refl) (λ j ne. rw (==_ne j i ne) refl)
        (inside-Ends i (script i) locked (subst (All (ByHolder (some i))) (sym empty) tt) refl
          (at_own i _ w))

  -- The session that holds the lock can go on to its end.
  holder-Ends : (k : ℕ) (w : Server) → Serial script w → w.lock_holder ≡ some k → Ends k w
  holder-Ends k w s held = by_place (s.places k)
    where
      by_place : Place script k w.lock_holder w.committed w.inserted (w.sessions k) → Ends k w
      by_place (waits off e) = absurd (off held)
      by_place (inside done names mine e split there) = inside-Ends k names w s.rows held e
      by_place (inserting done name names mine e split there new) =
          insert-Ends k name names w s.rows held e new
            (inside-Ends k names _ (held, s.rows) held (at_own k _ w))
      by_place (has_returned off e all_in) = absurd (off held)
      by_place (was_killed off e) = absurd (off held)

  -- A session that runs can be brought to its end, whoever holds the lock.
  can_return :
      (i : ℕ) (w : Server)
      → Serial script w
      → (w.sessions i).status ≡ running
      → (ks : List ℕ) × (((run (going ks) w).sessions i).status ≡ returned)
  can_return i w s runs = by_place (s.places i)
    where
      after_holder :
          (k : Option ℕ)
          → w.lock_holder ≡ k
          → w.lock_holder ≢ some i
          → w.sessions i ≡ left_over (run_script (script i)) none
          → (ks : List ℕ) × (((run (going ks) w).sessions i).status ≡ returned)
      after_holder none free off e = let ends = waiting-Ends i w s free e in (ends.ks, ends.ended)
      after_holder (some k) taken off e =
          let first = holder-Ends k w s taken in
          let w' = run (going first.ks) w in
          let apart : i ≢ k = λ same. off (taken ∙ ap some (sym same)) in
          let second =
            waiting-Ends i w' (run-Serial script (going first.ks) w s) first.freed
              (first.apart i apart ∙ e) in
          (
            first.ks ++ second.ks,
            ap (λ v. (v.sessions i).status) (going-append first.ks second.ks w) ∙ second.ended,
          )

      by_place :
          Place script i w.lock_holder w.committed w.inserted (w.sessions i)
          → (ks : List ℕ) × (((run (going ks) w).sessions i).status ≡ returned)
      by_place (waits off e) = after_holder w.lock_holder refl off e
      by_place (inside done names mine e split there) =
          let ends = holder-Ends i w s mine in (ends.ks, ends.ended)
      by_place (inserting done name names mine e split there new) =
          let ends = holder-Ends i w s mine in (ends.ks, ends.ended)
      by_place (has_returned off e all_in) = let status = ap (λ s. s.status) e in cc
      by_place (was_killed off e) = let status = ap (λ s. s.status) e in cc

  -- Whatever steps the sessions have taken and whichever of them were killed on the way, there are
  -- steps after which any one call of run_script that still runs has returned: the calls never wait for
  -- each other for ever.
  pub run_script_ends :
      (committed : List String) (es : List Event) (i : ℕ)
      → ((run es (start committed (λ j. run_script (script j)))).sessions i).status ≡ running
      → (ks : List ℕ) × (((run
              (going ks)
              (run es (start committed (λ j. run_script (script j))))).sessions
            i).status
          ≡ returned)
  run_script_ends committed es i runs =
      can_return i _ (run-Serial script es _ (start-Serial script committed)) runs
