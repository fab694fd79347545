-- ===== src/Services/Orchestrator/Trace.antt =====
-- The lives of an order on the machine, and what every life has in common.
use event_driven_demo.Base.{
  ℕ, zero, suc, ◌+◌, ◌≤◌, ◌≡◌, String, Option, none, some, List, [], ◌∷◌, ◌++◌, arith, str_eq,
  count_if, count_if-append, sym, subst,
}
use mathlib.Core.Path.{fun_ext}
use event_driven_demo.Pyevents.Saga.{Step, charge, reserve, dispatch}
use event_driven_demo.Services.Orchestrator.Machine.{
  Phase, waiting, undoing, shipped, dropped, Reply, was_charged, charge_failed, was_reserved,
  reserve_failed, was_dispatched, dispatch_failed, was_refunded, was_released, on_message,
  on_timeout,
}

-- The phase of an order, after the messages `out` have been sent for it.
pub data Trace : Phase → List String → Type 0 where
  begun : Trace (waiting charge) ("cmd.payment.charge" ∷ [])
  heard :
      {p : Phase} {out : List String}
      → Trace p out
      → (r : Option Reply) → Trace (on_message p r).to (out ++ (on_message p r).sends)
  gave_up :
      {step : Step} {out : List String}
      → Trace (waiting step) out
      → Trace (on_timeout step).to (out ++ (on_timeout step).sends)

abbrev pub times : String → List String → ℕ
times rk out = count_if (str_eq rk) out

-- How often each message that matters has been sent in a phase.
abbrev pub Sends : Phase → (String → ℕ) → Type 0
Sends (waiting charge) n =
    (n "cmd.payment.charge" ≡ 1)
    × (n "cmd.inventory.reserve" ≡ 0)
    × (n "cmd.shipping.dispatch" ≡ 0)
    × (n "cmd.payment.refund" ≡ 0)
    × (n "order.shipped" ≡ 0)
    × (n "order.cancelled" ≡ 0)
Sends (waiting reserve) n =
    (n "cmd.payment.charge" ≡ 1)
    × (n "cmd.inventory.reserve" ≡ 1)
    × (n "cmd.shipping.dispatch" ≡ 0)
    × (n "cmd.payment.refund" ≡ 0)
    × (n "order.shipped" ≡ 0)
    × (n "order.cancelled" ≡ 0)
Sends (waiting dispatch) n =
    (n "cmd.payment.charge" ≡ 1)
    × (n "cmd.inventory.reserve" ≡ 1)
    × (n "cmd.shipping.dispatch" ≡ 1)
    × (n "cmd.payment.refund" ≡ 0)
    × (n "order.shipped" ≡ 0)
    × (n "order.cancelled" ≡ 0)
Sends shipped n =
    (n "cmd.payment.charge" ≡ 1)
    × (n "cmd.inventory.reserve" ≡ 1)
    × (n "cmd.shipping.dispatch" ≡ 1)
    × (n "cmd.payment.refund" ≡ 0)
    × (n "order.shipped" ≡ 1)
    × (n "order.cancelled" ≡ 0)
Sends (undoing _) n =
    (n "cmd.payment.charge" ≡ 1)
    × (n "cmd.inventory.reserve" ≤ 1)
    × (n "cmd.shipping.dispatch" ≤ 1)
    × (n "cmd.payment.refund" ≡ 1)
    × (n "order.shipped" ≡ 0)
    × (n "order.cancelled" ≡ 0)
Sends dropped n =
    (n "cmd.payment.charge" ≡ 1)
    × (n "cmd.inventory.reserve" ≤ 1)
    × (n "cmd.shipping.dispatch" ≤ 1)
    × (n "cmd.payment.refund" ≤ 1)
    × (n "order.shipped" ≡ 0)
    × (n "order.cancelled" ≡ 1)

Sends-cong : (p : Phase) (m n : String → ℕ) → ((rk : String) → m rk ≡ n rk) → Sends p n → Sends p m
Sends-cong p m n e h = subst (Sends p) (fun_ext (λ rk. sym (e rk))) h

-- The counts after one more move.
abbrev plus : (String → ℕ) → List String → String → ℕ
plus n out rk = n rk + times rk out

Sends-message :
    (p : Phase) (n : String → ℕ) (r : Option Reply)
    → Sends p n
    → Sends (on_message p r).to (plus n (on_message p r).sends)
Sends-message p n none h = Sends-cong p (plus n []) n (λ rk. omega arith) h
Sends-message (waiting charge) n (some was_charged) h = omega arith
Sends-message (waiting charge) n (some charge_failed) h = omega arith
Sends-message (waiting reserve) n (some was_reserved) h = omega arith
Sends-message (waiting reserve) n (some reserve_failed) h = omega arith
Sends-message (waiting dispatch) n (some was_dispatched) h = omega arith
Sends-message (waiting dispatch) n (some dispatch_failed) h = omega arith
Sends-message (undoing zero) n (some was_refunded) h = omega arith
Sends-message (undoing (suc k)) n (some was_refunded) h = omega arith
Sends-message (undoing zero) n (some was_released) h = omega arith
Sends-message (undoing (suc k)) n (some was_released) h = omega arith
Sends-message (undoing k) n (some was_reserved) h = omega arith
Sends-message shipped n (some was_reserved) h = omega arith
Sends-message dropped n (some was_reserved) h = omega arith
Sends-message (waiting charge) n (some r) h = omega arith
Sends-message (waiting reserve) n (some r) h = omega arith
Sends-message (waiting dispatch) n (some r) h = omega arith
Sends-message (undoing k) n (some r) h = omega arith
Sends-message shipped n (some r) h = omega arith
Sends-message dropped n (some r) h = omega arith

Sends-timeout :
    (step : Step) (n : String → ℕ)
    → Sends (waiting step) n
    → Sends (on_timeout step).to (plus n (on_timeout step).sends)
Sends-timeout charge n h = omega arith
Sends-timeout reserve n h = omega arith
Sends-timeout dispatch n h = omega arith

-- In every life of an order the counts are those of its phase.
pub Trace-Sends : {p : Phase} {out : List String} → Trace p out → Sends p (λ rk. times rk out)
Trace-Sends begun = omega arith
Trace-Sends (heard {p} {out} t r) =
    Sends-cong (on_message p r).to _ (plus (λ rk. times rk out) (on_message p r).sends)
      (λ rk. count_if-append (str_eq rk) out _) (Sends-message p _ r (Trace-Sends t))
Trace-Sends (gave_up {step} {out} t) =
    Sends-cong (on_timeout step).to _ (plus (λ rk. times rk out) (on_timeout step).sends)
      (λ rk. count_if-append (str_eq rk) out _) (Sends-timeout step _ (Trace-Sends t))
