-- ===== src/Services/Observer/Feed/Clients.antt =====
-- The sockets of services/observer/app/api.py, and what one turn of the loop sends to one of them.
use event_driven_demo.Base.{
  ℕ, ◌≡◌, ◌≢◌, refl, sym, ap, subst, ◌∙◌, inl, inr, true, false, List, [], ◌∷◌, ◌++◌, arith, ◌==◌,
  Bool-cases, ==_refl,
}
use event_driven_demo.Pyevents.Effect.{ok, ⊤, Action}
use event_driven_demo.Services.Observer.Feed.{member, add, discard, discard_all, failed, send_all}

-- What has been sent to each socket: a send that returns adds its item, and no call adds to what
-- another socket has been sent; accepting a socket sends nothing.
pub record Sockets {E W : Type 0} (accept : ℕ → Action W ⊤) (send_json : ℕ → E → Action W ⊤)
    (log : W → ℕ → List E) : Type 0 where
  pub delivers :
      (k : ℕ) (e : E) (w : W)
      → (send_json k e w).0 ≡ ok tt
      → log (send_json k e w).1 k ≡ log w k ++ e ∷ []
  pub apart : (k j : ℕ) (e : E) (w : W) → j ≢ k → log (send_json k e w).1 j ≡ log w j
  pub accepts : (k j : ℕ) (w : W) → log (accept k w).1 j ≡ log w j

-- No socket twice.
abbrev pub IsUnique : List ℕ → Type 0
IsUnique [] = Unit
IsUnique (k ∷ ks) = (member k ks ≡ false) × IsUnique ks

pub member-discard : (j k : ℕ) (ks : List ℕ) → j ≢ k → member k (discard j ks) ≡ member k ks
member-discard j k [] ne = refl
member-discard j k (i ∷ ks) ne = ground (arith, member-discard j k ks ne)

absent-discard : (j k : ℕ) (ks : List ℕ) → member k ks ≡ false → member k (discard j ks) ≡ false
absent-discard j k [] h = refl
absent-discard j k (i ∷ ks) h = ground (arith, absent-discard j k ks)

pub discard-IsUnique : (j : ℕ) (ks : List ℕ) → IsUnique ks → IsUnique (discard j ks)
discard-IsUnique j [] h = tt
discard-IsUnique j (i ∷ ks) (h, hs) = elim (Bool-cases (i == j)) [
  | inl e ↦ rw e (discard-IsUnique j ks hs)
  | inr e ↦ rw e (absent-discard j i ks h, discard-IsUnique j ks hs)
]

pub add-IsUnique : (k : ℕ) (ks : List ℕ) → IsUnique ks → IsUnique (add k ks)
add-IsUnique k ks h = elim (Bool-cases (member k ks)) [
  | inl e ↦ rw (add, e) h
  | inr e ↦ rw (add, e) (e, h)
]

pub member-add : (j k : ℕ) (ks : List ℕ) → member k ks ≡ true → member k (add j ks) ≡ true
member-add j k ks h = ground arith

pub member-added : (k : ℕ) (ks : List ℕ) → member k (add k ks) ≡ true
member-added k ks = elim (Bool-cases (member k ks)) [
  | inl e ↦ rw (add, e) e
  | inr e ↦ rw (add, e, ==_refl k) refl
]

pub discard_all-IsUnique : (ds ks : List ℕ) → IsUnique ks → IsUnique (discard_all ds ks)
discard_all-IsUnique [] ks h = h
discard_all-IsUnique (d ∷ ds) ks h =
    discard_all-IsUnique ds (discard d ks) (discard-IsUnique d ks h)

pub member-discard_all :
    (k : ℕ) (ds ks : List ℕ)
    → member k ds ≡ false
    → member k ks ≡ true
    → member k (discard_all ds ks) ≡ true
member-discard_all k [] ks h m = m
member-discard_all k (d ∷ ds) ks h m =
    member-discard_all k ds (discard d ks) (ground arith)
      (member-discard d k ks (λ e. absurd (ground arith)) ∙ m)

module _ {E W : Type 0} (accept : ℕ → Action W ⊤) (send_json : ℕ → E → Action W ⊤)
    (log : W → ℕ → List E) (sockets : Sockets accept send_json log) (k : ℕ)
    (stays : (e : E) (w : W) → (send_json k e w).0 ≡ ok tt) where
  pub alive : (ks : List ℕ) (e : E) (w : W) → member k (send_all accept send_json ks e w).0 ≡ false
  alive [] e w = refl
  alive (j ∷ ks) e w = elim (Bool-cases (j == k)) [
    | inl same ↦
        let at_k : j ≡ k = ground arith in
        let lives : failed (send_json j e w).0 ≡ false =
          subst (λ i. failed (send_json i e w).0 ≡ false) (sym at_k) (ap failed (stays e w)) in
        rw lives (alive ks e (send_json j e w).1)
    | inr ne ↦ ground (arith, alive ks e (send_json j e w).1)
  ]

  passed_over :
      (ks : List ℕ) (e : E) (w : W)
      → member k ks ≡ false
      → log (send_all accept send_json ks e w).1 k ≡ log w k
  passed_over [] e w h = refl
  passed_over (j ∷ ks) e w h =
      let ne : k ≢ j = λ same. absurd (ground arith) in
      passed_over ks e (send_json j e w).1 (ground arith) ∙ sockets.apart j k e w ne

  pub reached :
      (ks : List ℕ) (e : E) (w : W)
      → IsUnique ks
      → member k ks ≡ true
      → log (send_all accept send_json ks e w).1 k ≡ log w k ++ e ∷ []
  reached [] e w set h = cc
  reached (j ∷ ks) e w (new, set) h = elim (Bool-cases (j == k)) [
    | inl same ↦
        let at_k : j ≡ k = ground arith in
        subst (λ i. log (send_all accept send_json (i ∷ ks) e w).1 k ≡ log w k ++ e ∷ []) (sym at_k)
          (passed_over ks e (send_json k e w).1 (subst (λ i. member i ks ≡ false) at_k new)
            ∙ sockets.delivers k e w (stays e w))
    | inr ne ↦
        let other : k ≢ j = λ same. absurd (ground arith) in
        let h' : member k ks ≡ true = ground arith in
        reached ks e (send_json j e w).1 set h'
        ∙ ap (λ l. l ++ e ∷ []) (sockets.apart j k e w other)
  ]
