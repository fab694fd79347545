-- ===== src/Services/Observer/Feed/Ring.antt =====
-- The ring buffer of services/observer/app/api.py.
use mathlib.Core.List.{append-nil, append_assoc}
use event_driven_demo.Base.{
  ℕ, zero, suc, ◌-◌, ◌≤◌, ◌≡◌, refl, sym, subst, ap, ◌∙◌, inl, inr, Bool, List, [], ◌∷◌, ◌++◌,
  arith, ltb, length, length-append, Bool-cases, if◌then◌else◌,
}
use event_driven_demo.Pyevents.Effect.{Result, ok, err, ⊤, Action}
use event_driven_demo.Pyevents.Outbox.Rows.{drop}
use event_driven_demo.Services.Observer.Feed.{
  Feed, maxlen, drop_first, append, broadcast, fan_out, run_first, enter, accepted, leave, new_feed,
}

-- The last `n` items.
abbrev pub last : {A : Type 0} → ℕ → List A → List A
last n xs = drop (length xs - n) xs

drop-append :
    {A : Type 0} (k : ℕ) (xs ys : List A) → k ≤ length xs → drop k (xs ++ ys) ≡ drop k xs ++ ys
drop-append zero xs ys h = refl
drop-append (suc k) [] ys h = absurd (omega (arith, h))
drop-append (suc k) (x ∷ xs) ys h = drop-append k xs ys (omega (arith, h))

length-drop : {A : Type 0} (k : ℕ) (xs : List A) → length (drop k xs) ≡ length xs - k
length-drop zero xs = omega arith
length-drop (suc k) [] = omega arith
length-drop (suc k) (x ∷ xs) = length-drop k xs ∙ omega arith

drop_first-drop : {A : Type 0} (k : ℕ) (xs : List A) → drop_first (drop k xs) ≡ drop (suc k) xs
drop_first-drop zero [] = refl
drop_first-drop zero (x ∷ xs) = refl
drop_first-drop (suc k) [] = refl
drop_first-drop (suc k) (x ∷ xs) = drop_first-drop k xs

-- What is left of too long a list after the first item is gone.
cut :
    {A : Type 0} (n k : ℕ) (ys : List A)
    → k ≡ length ys - 1 - n
    → (if ltb n (length (drop k ys)) then drop_first (drop k ys) else drop k ys) ≡ last n ys
cut n k ys h = elim (Bool-cases (ltb n (length (drop k ys)))) [
  | inl e ↦
      let long : suc k ≡ length ys - n = ground (arith, h, length-drop k ys) in
      rw e (drop_first-drop k ys ∙ ap (λ j. drop j ys) long)
  | inr e ↦
      let short : k ≡ length ys - n = ground (arith, h, length-drop k ys) in
      rw e (ap (λ j. drop j ys) short)
]

append-last :
    {A : Type 0} (n : ℕ) (x : A) (xs : List A) → append n x (last n xs) ≡ last n (xs ++ x ∷ [])
unfolding append
append-last n x xs =
    let k = length xs - n in
    let joined : drop k xs ++ x ∷ [] ≡ drop k (xs ++ x ∷ []) =
      sym (drop-append k xs (x ∷ []) (omega arith)) in
    let size : k ≡ length (xs ++ x ∷ []) - 1 - n = omega (arith, length-append xs (x ∷ [])) in
    rw joined (cut n k (xs ++ x ∷ []) size)

last-length : {A : Type 0} (n : ℕ) (xs : List A) → length (last n xs) ≤ n
last-length n xs = omega (arith, length-drop (length xs - n) xs)

-- What happens to the feed: a message from the bus, a turn of the loop, a socket that comes or goes.
pub data Step (E : Type 0) : Type 0 where
  seen : E → Step E
  flush : Step E
  join quit : (sock : ℕ) → Step E

-- The messages of the bus among them.
abbrev pub messages : {E : Type 0} → List (Step E) → List E
messages [] = []
messages (seen e ∷ steps) = e ∷ messages steps
messages (_ ∷ steps) = messages steps

module _ {E W : Type 0} (accept : ℕ → Action W ⊤) (send_json : ℕ → E → Action W ⊤) where
  unfoldable pub step : Step E → Feed E W → Feed E W
  unfolding broadcast fan_out enter leave
  step (seen e) = broadcast accept send_json e
  step flush = fan_out accept send_json
  step (join sock) = enter accept send_json sock
  step (quit sock) = leave accept send_json sock

  abbrev pub run : List (Step E) → Feed E W → Feed E W
  run [] s = s
  run (x ∷ steps) s = run steps (step x s)

  broadcast_recent : (e : E) (s : Feed E W) → (step (seen e) s).recent ≡ append maxlen e s.recent
  unfolding step broadcast
  broadcast_recent e s = ground arith

  -- The other steps leave the ring alone.
  fan_out_recent : (s : Feed E W) → (step flush s).recent ≡ s.recent
  unfolding step fan_out
  fan_out_recent s = by_first s.scheduled
    where
      by_first : (es : List E) → (run_first accept send_json es s).recent ≡ s.recent
      by_first [] = refl
      by_first (e ∷ es) = refl

  enter_recent : (sock : ℕ) (s : Feed E W) → (step (join sock) s).recent ≡ s.recent
  unfolding step enter
  enter_recent sock s = by_result (accept sock s.world)
    where
      by_result : (y : Result ⊤ × W) → (accepted accept send_json sock s y).recent ≡ s.recent
      by_result (ok _, w) = refl
      by_result (err e, w) = refl

  keeps_last :
      (steps : List (Step E)) (before : List E) (s : Feed E W)
      → s.recent ≡ last maxlen before
      → (run steps s).recent ≡ last maxlen (before ++ messages steps)
  unfolding step
  keeps_last [] before s h = h ∙ ap (last maxlen) (sym (append-nil before))
  keeps_last (seen e ∷ steps) before s h =
      subst (λ l. (run steps (step (seen e) s)).recent ≡ last maxlen l)
        (append_assoc before (e ∷ []) (messages steps))
        (keeps_last steps (before ++ e ∷ []) (step (seen e) s)
          (broadcast_recent e s ∙ ap (append maxlen e) h ∙ append-last maxlen e before))
  keeps_last (flush ∷ steps) before s h =
      keeps_last steps before (step flush s) (fan_out_recent s ∙ h)
  keeps_last (join sock ∷ steps) before s h =
      keeps_last steps before (step (join sock) s) (enter_recent sock s ∙ h)
  keeps_last (quit sock ∷ steps) before s h = keeps_last steps before (step (quit sock) s) h

  -- Whatever else happens, the ring buffer holds exactly the last 100 of the messages that the observer
  -- has seen, in their order.
  pub ring_holds_last :
      (steps : List (Step E)) (has_loop : Bool) (w : W)
      → let recent = (run steps (new_feed has_loop w)).recent in
        (recent ≡ last maxlen (messages steps)) × (length recent ≤ maxlen)
  ring_holds_last steps has_loop w =
      let same = keeps_last steps [] (new_feed has_loop w) refl in
      (same, rw same (last-length maxlen (messages steps)))
