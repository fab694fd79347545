-- ===== src/Services/Orchestrator/Orders.antt =====
-- Every order in the orchestrator's database lives a life of the machine: the invariant, and that
-- each transaction of services/orchestrator/app/__main__.py keeps it.
use mathlib.Core.List.{append-nil}
use event_driven_demo.Base.{
  ℕ, ◌≡⟨◌⟩◌, ◌∎, subst, Bool-cases, ◌≡◌, refl, sym, ◌≢◌, ap, ◌⊎◌, inl, inr, String, Option, none,
  some, List, [], ◌∷◌, ◌++◌, arith, ◌==◌, ==_refl, ==_ne, if◌then◌else◌,
}
use event_driven_demo.Base.Table.{find, IsKeyed}
use event_driven_demo.Pyevents.Json.{Json, num}
use event_driven_demo.Pyevents.Saga.{Orch, Saga}
use event_driven_demo.Services.Orchestrator.Machine.{Phase}
use event_driven_demo.Services.Orchestrator.Turns.{Turned, sent, about}
use event_driven_demo.Services.Orchestrator.Steps.{row_of}
use event_driven_demo.Services.Orchestrator.Trace.{Trace}

-- The routing keys of the messages that name an order.
abbrev pub keys_for : ℕ → List (String × Option Json) → List String
keys_for j [] = []
keys_for j ((rk, some (num o)) ∷ l) = if o == j then rk ∷ keys_for j l else keys_for j l
keys_for j (_ ∷ l) = keys_for j l

abbrev pub history : ℕ → Orch → List String
history j d = keys_for j (sent d)

keys_for-append :
    (j : ℕ) (xs ys : List (String × Option Json))
    → keys_for j (xs ++ ys) ≡ keys_for j xs ++ keys_for j ys
keys_for-append j [] ys = refl
keys_for-append j ((rk, some (num o)) ∷ xs) ys = ground (arith, keys_for-append j xs ys)
keys_for-append j (_ ∷ xs) ys = keys_for-append j xs ys

keys_for-about_self : (o : ℕ) (out : List String) → keys_for o (about o out) ≡ out
keys_for-about_self o [] = refl
keys_for-about_self o (rk ∷ out) = rw (==_refl o) (ap (λ l. rk ∷ l) (keys_for-about_self o out))

keys_for-about_ne : (j o : ℕ) (out : List String) → o ≢ j → keys_for j (about o out) ≡ []
keys_for-about_ne j o [] ne = refl
keys_for-about_ne j o (rk ∷ out) ne = rw (==_ne o j ne) (keys_for-about_ne j o out ne)

-- Order `j` is unknown and nothing has been sent for it, or its row is that of a phase which its
-- messages lead to.
abbrev pub Sound : ℕ → Orch → Type 0
Sound j d =
    ((find j d.tables.sagas ≡ none) × (history j d ≡ []))
    ⊎ ((p : Phase) × (i : ℕ) × (total : ℕ) × (began : ℕ) × (find j d.tables.sagas
          ≡ some (row_of p i total began))
        × Trace p (history j d))

pub record AllSound (d : Orch) : Type 0 where
  pub sound : (j : ℕ) → Sound j d
  pub keyed : IsKeyed d.tables.sagas

pub Turned-history_self :
    {o : ℕ} {d d' : Orch} {s : Saga} (out : List String)
    → Turned o d s out d'
    → history o d' ≡ history o d ++ out
Turned-history_self {o} {d} {d'} out t =
    history o d'
    ≡⟨ ap (keys_for o) t.sends ⟩ keys_for o (sent d ++ about o out)
    ≡⟨ keys_for-append o (sent d) (about o out) ⟩ history o d ++ keys_for o (about o out)
    ≡⟨ ap (λ l. history o d ++ l) (keys_for-about_self o out) ⟩ history o d ++ out ∎

Turned-history_ne :
    {o : ℕ} {d d' : Orch} {s : Saga} (j : ℕ) (out : List String)
    → Turned o d s out d'
    → o ≢ j
    → history j d' ≡ history j d
Turned-history_ne {o} {d} {d'} j out t ne =
    history j d'
    ≡⟨ ap (keys_for j) t.sends ⟩ keys_for j (sent d ++ about o out)
    ≡⟨ keys_for-append j (sent d) (about o out) ⟩ history j d ++ keys_for j (about o out)
    ≡⟨ ap (λ l. history j d ++ l) (keys_for-about_ne j o out ne) ⟩ history j d ++ []
    ≡⟨ append-nil (history j d) ⟩ history j d ∎

module _ (o i total began : ℕ) (p : Phase) (d d' : Orch) (out : List String)
    (t : Turned o d (row_of p i total began) out d') (life : Trace p (history o d ++ out)) where
  Turned-Sound : (j : ℕ) → Sound j d → Sound j d'
  Turned-Sound j h = elim (Bool-cases (o == j)) [
    | inl e ↦
        let same : o ≡ j = ground arith in
        subst (λ k. Sound k d') same
          (inr (p, i, total, began, t.row, rw (Turned-history_self out t) life))
    | inr e ↦
        let ne : o ≢ j = ground arith in
        rw (Turned-history_ne j out t ne, t.others j (λ q. ne (sym q))) h
  ]

  -- A move of one order keeps all orders sound.
  pub Turned-AllSound : AllSound d → AllSound d'
  Turned-AllSound h = record { sound = λ j. Turned-Sound j (h.sound j); keyed = t.keyed h.keyed }
