-- ===== src/Pyevents/Connection.antt =====
-- libs/pyevents/pyevents/connection.py and db.py: opening a connection while the other side boots.
-- What one attempt does and the wait between two of them are given, as actions on the world.
use event_driven_demo.Base.{
  ℕ, zero, suc, ◌<◌, ◌≡◌, refl, sym, ap, ◌∙◌, subst, ◌⊎◌, inl, inr, Bool, true, false, arith,
  Bool-cases,
}
use event_driven_demo.Pyevents.Effect.{
  Error, amqp_error, operational_error, runtime_error, Result, ok, err, Action, Result-cases,
}

abbrev pub default_retries : ℕ
default_retries = 30

-- In milliseconds.
abbrev pub default_delay : ℕ
default_delay = 2000

-- What the `except` of `connect` names.
abbrev pub is_amqp_connection_error : Error → Bool
is_amqp_connection_error amqp_error = true
is_amqp_connection_error _ = false

-- What the `except` of `connect_db` names.
abbrev pub is_operational_error : Error → Bool
is_operational_error operational_error = true
is_operational_error _ = false

module _ {W C : Type 0} (open_once : Action W C) (sleep : ℕ → W → W) where
  -- `for attempt in range(1, retries + 1)`, and the raise under it.
  abbrev pub attempts : (Error → Bool) → ℕ → ℕ → Action W C
  attempts is_caught zero delay w = (err runtime_error, w)
  attempts is_caught (suc n) delay w =
      let (r, w') = open_once w in
      elim r [
        | ok conn ↦ (ok conn, w')
        | err e ↦ elim (is_caught e) [
          | true ↦ attempts is_caught n delay (sleep delay w')
          | false ↦ (err e, w')
        ]
      ]

  -- `connect`
  unfoldable pub connect : (retries delay : ℕ) → Action W C
  connect retries delay = attempts is_amqp_connection_error retries delay

  -- `connect_db`
  unfoldable pub connect_db : (retries delay : ℕ) → Action W C
  connect_db retries delay = attempts is_operational_error retries delay

  -- The world after `n` attempts that have each been followed by the wait.
  abbrev pub after : ℕ → ℕ → W → W
  after delay zero w = w
  after delay (suc n) w = after delay n (sleep delay (open_once w).1)

  -- An attempt fails with an exception that is caught.
  abbrev pub Fails : (Error → Bool) → W → Type 0
  Fails is_caught w = (e : Error) × ((open_once w).0 ≡ err e) × (is_caught e ≡ true)

  -- The first `n` attempts fail.
  abbrev pub AllFail : (Error → Bool) → ℕ → ℕ → W → Type 0
  AllFail is_caught delay n w = (i : ℕ) → i < n → Fails is_caught (after delay i w)

  -- The loop ends with the first attempt that is no caught failure, as that attempt ends, and else
  -- with a RuntimeError after exactly `n` attempts and waits.
  abbrev pub Tried : (Error → Bool) → ℕ → ℕ → W → Result C × W → Type 0
  Tried is_caught n delay w y =
      ((k : ℕ) × (k < n)
        × AllFail is_caught delay k w
        × (y ≡ open_once (after delay k w))
        × (((conn : C) × (y.0 ≡ ok conn)) ⊎ ((e : Error) × (y.0 ≡ err e) × (is_caught e ≡ false))))
      ⊎ (AllFail is_caught delay n w × (y ≡ (err runtime_error, after delay n w)))

  AllFail-suc :
      (is_caught : Error → Bool) (delay k : ℕ) (w : W)
      → Fails is_caught w
      → AllFail is_caught delay k (sleep delay (open_once w).1)
      → AllFail is_caught delay (suc k) w
  AllFail-suc is_caught delay k w first rest zero h = first
  AllFail-suc is_caught delay k w first rest (suc i) h = rest i (omega (arith, h))

  Tried-suc :
      (is_caught : Error → Bool) (n delay : ℕ) (w : W) (y : Result C × W)
      → Fails is_caught w
      → Tried is_caught n delay (sleep delay (open_once w).1) y
      → Tried is_caught (suc n) delay w y
  Tried-suc is_caught n delay w y first (inl (k, below, fails, ends, how)) =
      inl (suc k, omega (arith, below), AllFail-suc is_caught delay k w first fails, ends, how)
  Tried-suc is_caught n delay w y first (inr (fails, ends)) =
      inr (AllFail-suc is_caught delay n w first fails, ends)

  -- An attempt that is no caught failure ends the loop.
  pub attempts_end :
      (is_caught : Error → Bool) (n delay : ℕ) (w : W)
      → (((conn : C) × ((open_once w).0 ≡ ok conn))
          ⊎ ((e : Error) × ((open_once w).0 ≡ err e) × (is_caught e ≡ false)))
      → attempts is_caught (suc n) delay w ≡ open_once w
  attempts_end is_caught n delay w (inl (conn, e)) = rw (attempts, e) refl
  attempts_end is_caught n delay w (inr (f, e, out)) = rw (attempts, e, out) refl

  attempts_again :
      (is_caught : Error → Bool) (n delay : ℕ) (w : W)
      → Fails is_caught w
      → attempts is_caught (suc n) delay w
        ≡ attempts is_caught n delay (sleep delay (open_once w).1)
  attempts_again is_caught n delay w (f, e, caught) = rw (attempts, e, caught) refl

  Tried-end :
      (is_caught : Error → Bool) (n delay : ℕ) (w : W)
      → (((conn : C) × ((open_once w).0 ≡ ok conn))
          ⊎ ((e : Error) × ((open_once w).0 ≡ err e) × (is_caught e ≡ false)))
      → Tried is_caught (suc n) delay w (attempts is_caught (suc n) delay w)
  Tried-end is_caught n delay w how =
      subst (Tried is_caught (suc n) delay w) (sym (attempts_end is_caught n delay w how))
        (inl (0, omega arith, (λ i h. absurd (omega (arith, h))), refl, how))

  attempts-Tried :
      (is_caught : Error → Bool) (n delay : ℕ) (w : W)
      → Tried is_caught n delay w (attempts is_caught n delay w)
  attempts-Tried is_caught zero delay w = inr ((λ i h. absurd (omega (arith, h))), refl)
  attempts-Tried is_caught (suc n) delay w = elim (Result-cases (open_once w).0) [
    | inl opened ↦ Tried-end is_caught n delay w (inl opened)
    | inr (f, e) ↦ elim (Bool-cases (is_caught f)) [
      | inl caught ↦
          let first : Fails is_caught w = (f, e, caught) in
          let rest = attempts-Tried is_caught n delay (sleep delay (open_once w).1) in
          subst (Tried is_caught (suc n) delay w) (sym (attempts_again is_caught n delay w first)) (
            Tried-suc is_caught n delay w (attempts is_caught n delay (sleep delay (open_once w).1))
              first rest)
      | inr out ↦ Tried-end is_caught n delay w (inr (f, e, out))
    ]
  ]

  -- What neither an attempt nor the wait changes, the loop leaves as it is.
  pub attempts_keeps :
      {X : Type 0} (f : W → X)
      → ((w : W) → f (open_once w).1 ≡ f w)
      → ((delay : ℕ) (w : W) → f (sleep delay w) ≡ f w)
      → (is_caught : Error → Bool) (n delay : ℕ) (w : W) → f (attempts is_caught n delay w).1 ≡ f w
  attempts_keeps f opens sleeps is_caught zero delay w = refl
  attempts_keeps f opens sleeps is_caught (suc n) delay w = elim (Result-cases (open_once w).0) [
    | inl opened ↦ ap (λ y. f y.1) (attempts_end is_caught n delay w (inl opened)) ∙ opens w
    | inr (e, raised) ↦ elim (Bool-cases (is_caught e)) [
      | inl caught ↦
          ap (λ y. f y.1) (attempts_again is_caught n delay w (e, raised, caught))
          ∙ attempts_keeps f opens sleeps is_caught n delay (sleep delay (open_once w).1)
          ∙ sleeps delay (open_once w).1
          ∙ opens w
      | inr out ↦
          ap (λ y. f y.1) (attempts_end is_caught n delay w (inr (e, raised, out))) ∙ opens w
    ]
  ]

  -- connect and connect_db make at most `retries` attempts, with a wait after each one that fails with
  -- the exception that they catch; they end as the first other attempt ends, with its connection or its
  -- exception, and with a RuntimeError exactly when all the attempts have failed.
  pub connects :
      (retries delay : ℕ) (w : W)
      → Tried is_amqp_connection_error retries delay w (connect retries delay w)
        × Tried is_operational_error retries delay w (connect_db retries delay w)
  unfolding connect connect_db
  connects retries delay w = (
    attempts-Tried is_amqp_connection_error retries delay w,
    attempts-Tried is_operational_error retries delay w,
  )
