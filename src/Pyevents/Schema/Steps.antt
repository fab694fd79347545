-- ===== src/Pyevents/Schema/Steps.antt =====
-- What the statements of `run_script`, libs/pyevents/pyevents/db.py, do to all sessions.
use mathlib.Core.List.{append_assoc, append-nil}
use event_driven_demo.Base.{
  All-append, ℕ, ◌≡◌, ◌≢◌, refl, sym, ap, subst, ◌∙◌, inl, inr, String, false, Option, none, some,
  List, [], ◌∷◌, ◌++◌, All, ◌==◌, ==_refl, ==_iff, arith, elem, Bool-cases, if◌then◌else◌,
}
use event_driven_demo.Pyevents.Schema.{
  run_script, returned, killed, Session, Server, own, others, is_contended, is_there, with_session,
  released, abort, left_over, turn, take_lock, insert, end_transaction, execute,
}
use event_driven_demo.Pyevents.Schema.Places.{
  ByHolder, There, rest_of, inside, inserting, has_returned, was_killed, Serial, uncontended,
  others_empty, others_keep, no_rows, elem-append_right, still-There, now-There, There-In,
  keep_idle, placed, other, All-map,
}

module _ (script : ℕ → List String) where
  pub turn_at :
      (i : ℕ) (w : Server) (s : Session)
      → w.sessions i ≡ s
      → turn i w ≡ execute i s.todo s.missing w
  unfolding turn
  turn_at i w s e = rw e refl

  -- The session without the lock: it takes it, or it waits.
  pub take_lock-Serial :
      (i : ℕ) (w : Server) (h : Option ℕ)
      → w.sessions i ≡ left_over (run_script (script i)) none
      → w.lock_holder ≡ h
      → Serial script w
      → Serial script (take_lock i (rest_of script (script i)) h w)
  take_lock-Serial i w none e free s = record {
    rows = subst (All (ByHolder (some i))) (sym (no_rows w.inserted (rw free at s.rows))) tt;
    places =
        placed script i (some i) w.committed w.inserted (left_over (rest_of script (script i)) none)
          w.sessions (inside [] (script i) refl refl refl tt)
          (λ j ne.
            keep_idle script j w.lock_holder (some i) w.committed w.committed w.inserted w.inserted
              (w.sessions j) (λ taken. cc) (other script i j (some i) refl ne) (λ n known. known)
              (s.places j));
  }
  take_lock-Serial i w (some k) e taken s = elim (Bool-cases (k == i)) [
    | inl mine ↦
        let same : k ≡ i = (==_iff k i).0 mine in
        let held : w.lock_holder ≡ some i = taken ∙ ap some same in
        rw mine (record {
          rows = s.rows;
          places =
              placed script i w.lock_holder w.committed w.inserted
                (left_over (rest_of script (script i)) none) w.sessions
                (inside [] (script i) held refl refl tt) (λ j ne. s.places j);
        })
    | inr ne ↦ rw ne s
  ]

  pub insert-Serial :
      (i : ℕ) (w : Server) (done : List String) (name : String) (names : List String)
      → w.lock_holder ≡ some i
      → script i ≡ done ++ (name ∷ names)
      → All (There i w.committed w.inserted) done
      → elem name w.committed ≡ false
      → Serial script w
      → Serial script (insert i name (rest_of script names) w)
  insert-Serial i w done name names mine split there new s =
      let free : is_contended i name w.inserted ≡ false =
        uncontended i name w.inserted (rw mine at s.rows) in
      rw (new, free)
        (record {
          rows = (mine, s.rows);
          places =
              placed script i w.lock_holder w.committed ((i, name) ∷ w.inserted)
                (left_over (rest_of script names) none) w.sessions
                (inside (done ++ name ∷ []) names mine refl
                  (split ∙ sym (append_assoc done (name ∷ []) names))
                  (All-append (There i w.committed ((i, name) ∷ w.inserted)) done (name ∷ [])
                    (All-map script (still-There i w.committed w.inserted name) done there)
                    (now-There i w.committed w.inserted name, tt)))
                (λ j ne.
                  keep_idle script j w.lock_holder w.lock_holder w.committed w.committed w.inserted
                    _ (w.sessions j) (other script i j w.lock_holder mine ne)
                    (other script i j w.lock_holder mine ne) (λ n known. known) (s.places j));
        })

  end-Serial :
      (i : ℕ) (w : Server)
      → w.lock_holder ≡ some i
      → All (There i w.committed w.inserted) (script i)
      → Serial script w
      → Serial script (end_transaction i [] w)
  end-Serial i w mine there s =
      let gone : others i w.inserted ≡ [] = others_empty i w.inserted (rw mine at s.rows) in
      rw (mine, ==_refl i, gone)
        (record {
          rows = tt;
          places =
              placed script i none (own i w.inserted ++ w.committed) []
                (record { todo = []; missing = none; status = returned }) w.sessions
                (has_returned (λ e. cc) refl
                  (All-map script (There-In i w.committed w.inserted) (script i) there))
                (λ j ne.
                  keep_idle script j w.lock_holder none w.committed _ w.inserted [] (w.sessions j)
                    (other script i j w.lock_holder mine ne) (λ e. cc)
                    (λ n. elem-append_right n (own i w.inserted) w.committed) (s.places j));
        })

  create-Serial :
      (i : ℕ) (w : Server) (done : List String) (name : String) (names : List String)
      → w.lock_holder ≡ some i
      → script i ≡ done ++ (name ∷ names)
      → All (There i w.committed w.inserted) done
      → Serial script w
      → Serial script (
          with_session i
            (left_over (rest_of script names) (if is_there i name w then none else some name))
            w)
  create-Serial i w done name names mine split there s = elim (Bool-cases (is_there i name w)) [
    | inl e ↦ rw e (record {
      rows = s.rows;
      places =
          placed script i w.lock_holder w.committed w.inserted
            (left_over (rest_of script names) none) w.sessions
            (inside (done ++ name ∷ []) names mine refl
              (split ∙ sym (append_assoc done (name ∷ []) names))
              (All-append (There i w.committed w.inserted) done (name ∷ []) there (e, tt)))
            (λ j ne. s.places j);
    })
    | inr e ↦
        let new : elem name w.committed ≡ false = ground (arith, e) in
        rw e (record {
          rows = s.rows;
          places =
              placed script i w.lock_holder w.committed w.inserted
                (left_over (rest_of script names) (some name)) w.sessions
                (inserting done name names mine refl split there new) (λ j ne. s.places j);
        })
  ]

  -- The statement that the session in the lock executes.
  pub inside-Serial :
      (i : ℕ) (w : Server) (done names : List String)
      → w.lock_holder ≡ some i
      → script i ≡ done ++ names
      → All (There i w.committed w.inserted) done
      → Serial script w
      → Serial script (execute i (rest_of script names) none w)
  inside-Serial i w done [] mine split there s =
      end-Serial i w mine
        (subst (All (There i w.committed w.inserted)) (sym (split ∙ append-nil done)) there) s
  inside-Serial i w done (name ∷ names) mine split there s =
      create-Serial i w done name names mine split there s

  abbrev dead : Session
  dead = record { todo = []; missing = none; status = killed }

  pub abort-Serial :
      (i : ℕ) (w : Server) (h : Option ℕ)
      → w.lock_holder ≡ h
      → Serial script w
      → Serial script (abort i killed w)
  unfolding abort
  abort-Serial i w none free s =
      let none_left : w.inserted ≡ [] = no_rows w.inserted (rw free at s.rows) in
      rw (free, none_left)
        (record {
          rows = tt;
          places =
              placed script i none w.committed [] dead w.sessions (was_killed (λ e. cc) refl)
                (λ j ne.
                  keep_idle script j w.lock_holder none w.committed w.committed w.inserted []
                    (w.sessions j) (λ taken. cc) (λ e. cc) (λ n known. known) (s.places j));
        })
  abort-Serial i w (some k) taken s = elim (Bool-cases (k == i)) [
    | inl mine ↦
        let held : w.lock_holder ≡ some i = taken ∙ ap some ((==_iff k i).0 mine) in
        let gone : others i w.inserted ≡ [] = others_empty i w.inserted (rw held at s.rows) in
        rw (taken, mine, gone)
          (record {
            rows = tt;
            places =
                placed script i none w.committed [] dead w.sessions (was_killed (λ e. cc) refl)
                  (λ j ne.
                    keep_idle script j w.lock_holder none w.committed w.committed w.inserted []
                      (w.sessions j) (other script i j w.lock_holder held ne) (λ e. cc)
                      (λ n known. known) (s.places j));
          })
    | inr ne ↦
        let same : others i w.inserted ≡ w.inserted =
          others_keep i k w.inserted ne (rw taken at s.rows) in
        let off : w.lock_holder ≢ some i =
          λ e. let mine : k ≡ i = cc in let yes = (==_iff k i).1 mine in cc in
        let lock : released i w.lock_holder ≡ w.lock_holder = rw (taken, ne) refl in
        rw (same, lock)
          (record {
            rows = s.rows;
            places =
                placed script i w.lock_holder w.committed w.inserted dead w.sessions
                  (was_killed off refl) (λ j ne. s.places j);
          })
  ]
