-- ===== src/Services/Observer/KillExamples.antt =====
-- The theorem on `POST /kill` at a service with two containers, one of which has stopped.
use event_driven_demo.Base.{
  ℕ, ◌≡◌, refl, ◌⊎◌, inl, inr, Bool, true, false, List, ◌++◌, [], ◌∷◌, All, arith, ◌==◌, ==_refl,
  ==_ne, if◌then◌else◌, Bool-cases,
}
use event_driven_demo.Pyevents.Effect.{Error, runtime_error, ok, err, ⊤, Action}
use event_driven_demo.Services.Observer.Kill.{Docker, kill, killed_reply}
use event_driven_demo.Services.Observer.Kill.Restarts.{Order, sigkill, boot, Answers, kill_restarts}

-- Which containers run, and what has been asked.
abbrev Engine : Type 0
Engine = (ℕ → Bool) × List (Order ℕ)

abbrev set : ℕ → Bool → (ℕ → Bool) → ℕ → Bool
set c b w j = if c == j then b else w j

-- A container that does not run cannot be killed.
abbrev take_down : ℕ → Action Engine ⊤
take_down c (w, l) =
    (if w c then ok tt else err runtime_error, (set c false w, l ++ sigkill c ∷ []))

abbrev bring_up : ℕ → Action Engine ⊤
bring_up c (w, l) = (ok tt, (set c true w, l ++ boot c ∷ []))

abbrev api_error : Error → Bool
api_error runtime_error = true
api_error _ = false

abbrev engine : Docker Engine ⊤ ℕ
engine = record {
  from_env = λ w. (ok tt, w);
  list_containers = λ d project service w. (ok (1 ∷ 2 ∷ []), w);
  kill_container = λ c signal w. take_down c w;
  start = bring_up;
}

abbrev runs : ℕ → Engine → Bool
runs c (w, l) = w c

set_other : (c d : ℕ) (b : Bool) (w : ℕ → Bool) → ¬ (c ≡ d) → set c b w d ≡ w d
set_other c d b w ne = rw (==_ne c d ne) refl

stops :
    (c : ℕ) (w : Engine)
    → ((take_down c w).0 ≡ ok tt)
      ⊎ ((e : Error) × ((take_down c w).0 ≡ err e) × (api_error e ≡ true))
stops c (w, l) = elim (Bool-cases (w c)) [
  | inl e ↦ inl (rw e refl)
  | inr e ↦ inr (runtime_error, rw e refl, refl)
]

keeps : (c d : ℕ) (w : ℕ → Bool) → w d ≡ true → set c true w d ≡ true
keeps c d w h = elim (Bool-cases (c == d)) [ inl e ↦ rw e refl | inr e ↦ rw e h ]

engine-Answers :
    Answers engine api_error runs (λ w. w.1) "event_driven_demo" "payment-service" (1 ∷ 2 ∷ [])
engine-Answers = record {
  opens = λ w. (tt, refl);
  lists = λ d w. refl;
  kills = stops;
  starts = λ c w. (refl, rw (==_refl c) refl);
  stays = λ c d w h. keeps c d w.0 h;
  apart_kill = λ c d w ne. set_other c d false w.0 ne;
  apart_start = λ c d w ne. set_other c d true w.0 ne;
  logs_kill = λ c w. refl;
  logs_start = λ c w. refl;
}

abbrev one_stopped : Engine
one_stopped = (λ c. c == 1, [])

kill_restarts_example :
    let (reply, w) =
      kill engine api_error (λ e. "") "event_driven_demo" "payment-service" one_stopped in
    (reply ≡ killed_reply "payment-service" 2)
    × (w.1 ≡ [] ++ (sigkill 1 ∷ sigkill 2 ∷ boot 1 ∷ boot 2 ∷ []))
    × All (λ c. runs c w ≡ true) (1 ∷ 2 ∷ [])
    × (runs 3 w ≡ false)
kill_restarts_example =
    kill_restarts engine api_error runs (λ w. w.1) "event_driven_demo" "payment-service"
      (1 ∷ 2 ∷ []) engine-Answers (λ e. "") one_stopped 3 refl (ground arith, (ground arith, tt))
