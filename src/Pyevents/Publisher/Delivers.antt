-- ===== src/Pyevents/Publisher/Delivers.antt =====
-- What `publish` of libs/pyevents/pyevents/publisher.py gets sent, when it returns and when it raises.
use mathlib.Core.List.{append-nil, append_assoc}
use event_driven_demo.Base.{
  ℕ, zero, suc, ◌≡◌, refl, sym, ap, ◌∙◌, ◌⊎◌, inl, inr, String, List, [], ◌∷◌, ◌++◌,
}
use event_driven_demo.Pyevents.Json.{Json, Dict}
use event_driven_demo.Pyevents.Effect.{Error, Result, ok, err, ⊤, Action, ◌>>◌}
use event_driven_demo.Pyevents.Publisher.{Sent, repeat}

-- The messages `out` have all been sent, or the action has raised after a beginning of them.
abbrev pub Delivers : {X : Type 0} → (X → List Sent) → List Sent → X → Result ⊤ × X → Type 0
Delivers log out x (r, x') =
    ((r ≡ ok tt) × (log x' ≡ log x ++ out))
    ⊎ ((e : Error) × (done : List Sent) × (rest : List Sent) × (r ≡ err e)
        × (out ≡ done ++ rest)
        × (log x' ≡ log x ++ done))

module _ {X : Type 0} (log : X → List Sent) (k : Action X ⊤) (out more : List Sent) (x : X)
    (hk : (x' : X) → Delivers log more x' (k x')) where
  pub Delivers-after :
      (y : Result ⊤ × X) → Delivers log out x y → Delivers log (out ++ more) x (((λ _. y) >> k) x)
  Delivers-after (err f, x') (inr (e, done, rest, p, s, l)) =
      inr (f, done, rest ++ more, refl, ap (λ t. t ++ more) s ∙ append_assoc done rest more, l)
  Delivers-after (err f, x') (inl (p, l)) = cc
  Delivers-after (ok _, x') (inr (e, done, rest, p, s, l)) = cc
  Delivers-after (ok _, x') (inl (p, l)) = elim (hk x') [
    | inl (q, l') ↦ inl (q, l' ∙ ap (λ t. t ++ more) l ∙ append_assoc (log x) out more)
    | inr (e, done, rest, q, s, l') ↦ inr (
      e,
      out ++ done,
      rest,
      q,
      ap (λ t. out ++ t) s ∙ sym (append_assoc out done rest),
      l' ∙ ap (λ t. t ++ done) l ∙ append_assoc (log x) out done,
    )
  ]

  pub Delivers-seq :
      (m : Action X ⊤) → Delivers log out x (m x) → Delivers log (out ++ more) x ((m >> k) x)
  Delivers-seq m h = Delivers-after (m x) h

abbrev pub copies : ℕ → Sent → List Sent
copies zero m = []
copies (suc n) m = m ∷ copies n m

module _ {C : Type 0} (dumps : Dict → String) (repr : Json → String)
    (basic_publish : Sent → Action C ⊤) (log : C → List Sent)
    (logs : (m : Sent) (ch : C) → Delivers log (m ∷ []) ch (basic_publish m ch)) where
  pub repeat-Delivers :
      (n : ℕ) (m : Sent) (ch : C)
      → Delivers log (copies n m) ch (repeat dumps repr basic_publish n m ch)
  unfolding repeat
  repeat-Delivers zero m ch = inl (refl, sym (append-nil (log ch)))
  repeat-Delivers (suc n) m ch =
      Delivers-seq log (repeat dumps repr basic_publish n m) (m ∷ []) (copies n m) ch
        (repeat-Delivers n m) (basic_publish m) (logs m ch)
