-- ===== src/System/Switches.antt =====
-- The switches of the failure lab in all the processes that listen to the control exchange.
use event_driven_demo.Base.{
  ℕ, ◌≡◌, refl, ap, ◌∙◌, inl, inr, String, true, false, arith, eq_iff, str_eq, Option, none, some,
  List, [], ◌∷◌, Bool-cases,
}
use event_driven_demo.Pyevents.Json.{Json, null, flag, num, string, arr, obj, Dict, get}
use event_driven_demo.Pyevents.Effect.{Result, ok, err}
use event_driven_demo.Pyevents.Control.{on_msg, on_msg_same}
use event_driven_demo.Services.Control.{Switches, is_text, says}
use event_driven_demo.Services.Payment
use event_driven_demo.Services.Payment.{PaymentState}
use event_driven_demo.Services.Inventory
use event_driven_demo.Services.Inventory.{InventoryState, set_slow, int_value}
use event_driven_demo.Services.Shipping
use event_driven_demo.Services.Shipping.{ShippingState}
use event_driven_demo.Services.Order
use event_driven_demo.Services.Orchestrator.Lab

-- What the processes keep of the lab.
pub record Processes : Type 0 where
  pub payment : PaymentState
  pub inventory : InventoryState
  pub shipping : ShippingState
  pub order : Switches
  pub orchestrator : Switches

-- A fanout exchange gives every process a copy.
unfoldable pub fan_out : (String → Option Json) → String → Processes → Processes
unfolding on_msg
fan_out loads raw lab = record {
  payment = on_msg loads Payment.on_command raw lab.payment;
  inventory = on_msg loads Inventory.on_command raw lab.inventory;
  shipping = on_msg loads Shipping.on_command raw lab.shipping;
  order = on_msg loads Order.on_command raw lab.order;
  orchestrator = on_msg loads Lab.on_command raw lab.orchestrator;
}

abbrev pub fan_out_all : (String → Option Json) → List String → Processes → Processes
fan_out_all loads [] lab = lab
fan_out_all loads (raw ∷ raws) lab = fan_out_all loads raws (fan_out loads raw lab)

pub record Agree (lab : Processes) : Type 0 where
  pub payment_agrees : lab.payment.switches ≡ lab.order
  pub inventory_agrees : lab.inventory.switches ≡ lab.order
  pub shipping_agrees : lab.shipping.switches ≡ lab.order
  pub orchestrator_agrees : lab.orchestrator.relay_paused ≡ lab.order.relay_paused

payment_switches :
    (c : Dict) (s : PaymentState)
    → (Payment.on_command c s).switches ≡ Order.on_command c s.switches
unfolding Payment.on_command Order.on_command
payment_switches c s = ground arith

shipping_switches :
    (c : Dict) (s : ShippingState)
    → (Shipping.on_command c s).switches ≡ Order.on_command c s.switches
unfolding Shipping.on_command Order.on_command
shipping_switches c s = ground arith

set_slow_switches : (r : Result ℕ) (s : InventoryState) → (set_slow r s).switches ≡ s.switches
set_slow_switches (ok n) s = refl
set_slow_switches (err e) s = refl

inventory_switches :
    (c : Dict) (s : InventoryState)
    → (Inventory.on_command c s).switches ≡ Order.on_command c s.switches
unfolding Inventory.on_command Order.on_command
inventory_switches c s = ground (arith, set_slow_switches (int_value (get "value" c)) s)

-- A command has one action.
one_action :
    (c : Dict) (a b : String)
    → str_eq a b ≡ false
    → says "action" a c ≡ true
    → says "action" b c ≡ false
one_action c a b ne h = only (get "action" c) h
  where
    only : (v : Option Json) → is_text a v ≡ true → is_text b v ≡ false
    only none e = cc
    only (some (string s)) e = rw ((eq_iff s a).0 e) ne
    only (some null) e = cc
    only (some (flag x)) e = cc
    only (some (num n)) e = cc
    only (some (arr vs)) e = cc
    only (some (obj d)) e = cc

relay_switch :
    (c : Dict) (s t : Switches)
    → s.relay_paused ≡ t.relay_paused
    → (Lab.on_command c s).relay_paused ≡ (Order.on_command c t).relay_paused
unfolding Lab.on_command Order.on_command
relay_switch c s t h = elim (Bool-cases (says "action" "duplicate" c)) [
  | inl e ↦ rw (e, one_action c "duplicate" "pause_relay" refl e) h
  | inr e ↦ ground (arith, e, h)
]

lab_duplicate : (c : Dict) (s : Switches) → (Lab.on_command c s).duplicate_mode ≡ s.duplicate_mode
unfolding Lab.on_command
lab_duplicate c s = ground arith

-- One message keeps the agreement.
fan_out-Agree :
    (loads : String → Option Json) (raw : String) (lab : Processes)
    → Agree lab
    → Agree (fan_out loads raw lab)
unfolding fan_out
fan_out-Agree loads raw lab h = record {
  payment_agrees =
      on_msg_same loads Payment.on_command Order.on_command (λ s. s.switches) (λ s. s)
        (λ c s t e. payment_switches c s ∙ ap (Order.on_command c) e) raw lab.payment lab.order
        h.payment_agrees;
  inventory_agrees =
      on_msg_same loads Inventory.on_command Order.on_command (λ s. s.switches) (λ s. s)
        (λ c s t e. inventory_switches c s ∙ ap (Order.on_command c) e) raw lab.inventory lab.order
        h.inventory_agrees;
  shipping_agrees =
      on_msg_same loads Shipping.on_command Order.on_command (λ s. s.switches) (λ s. s)
        (λ c s t e. shipping_switches c s ∙ ap (Order.on_command c) e) raw lab.shipping lab.order
        h.shipping_agrees;
  orchestrator_agrees =
      on_msg_same loads Lab.on_command Order.on_command (λ s. s.relay_paused) (λ s. s.relay_paused)
        relay_switch raw lab.orchestrator lab.order h.orchestrator_agrees;
}

fan_out_single :
    (loads : String → Option Json) (raw : String) (lab : Processes)
    → (fan_out loads raw lab).orchestrator.duplicate_mode ≡ lab.orchestrator.duplicate_mode
unfolding fan_out
fan_out_single loads raw lab =
    on_msg_same {T = Unit} loads Lab.on_command (λ c t. t) (λ s. s.duplicate_mode)
      (λ _. lab.orchestrator.duplicate_mode) (λ c s t e. lab_duplicate c s ∙ e) raw lab.orchestrator
      tt refl

-- Whatever texts are published on the control exchange, commands or not, the order-, payment-, inventory-
-- and shipping-service that have started with the same switches keep the same, and the orchestrator the
-- same pause of its relay; but its duplicate mode never changes.
pub switches-Agree :
    (loads : String → Option Json) (raws : List String) (lab : Processes)
    → Agree lab
    → Agree (fan_out_all loads raws lab)
      × ((fan_out_all loads raws lab).orchestrator.duplicate_mode ≡ lab.orchestrator.duplicate_mode)
switches-Agree loads [] lab h = (h, refl)
switches-Agree loads (raw ∷ raws) lab h =
    let (agree, single) =
      switches-Agree loads raws (fan_out loads raw lab) (fan_out-Agree loads raw lab h) in
    (agree, single ∙ fan_out_single loads raw lab)
