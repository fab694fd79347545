-- ===== src/System/Examples.antt =====
-- The theorems about what reaches whom at concrete messages.
use event_driven_demo.Base.{
  Option, none, some, if◌then◌else◌, ◌≡◌, refl, ap, inl, inr, String, true, false, elem, Bool-cases,
  str_eq, eq_iff, List, [], ◌∷◌, All,
}
use event_driven_demo.Pyevents.Json.{Json, num, string, flag, obj, Dict, empty, item}
use event_driven_demo.Pyevents.Db.{idle}
use event_driven_demo.Pyevents.Consumer.{Message}
use event_driven_demo.Services.Payment
use event_driven_demo.Services.Inventory
use event_driven_demo.Services.Shipping
use event_driven_demo.Services.Inventory.Conserved.{full_stock}
use event_driven_demo.Services.Orchestrator.Orders.{history}
use event_driven_demo.Services.Orchestrator.Outcome.{Event, delivery, run, fresh_db}
use event_driven_demo.Services.Samples.{
  message, no_payments, accepting, stocked, stock_command, no_shipments, couriers,
}
use event_driven_demo.Infra.Topology.{topic, commands, events}
use event_driven_demo.Infra.Topology.Routes.{Compares, compare_keys, has_wildcard, receivers}
use event_driven_demo.System.Routing.{notification_deaf}
use event_driven_demo.System.Served.{orchestrator, Served, messages-Served}
use event_driven_demo.Services.Shipping.{ShippingState}
use event_driven_demo.System.Switches.{Processes, Agree, fan_out, fan_out_all, switches-Agree}
use event_driven_demo.System.Dashboard.{Sends, Pressed, press, control_presses}
use event_driven_demo.Services.Observer.Control.{model_dump, control}
use event_driven_demo.Pyevents.Effect.{pure}
use event_driven_demo.Pyevents.Control.Command.{command_message}
use event_driven_demo.Pyevents.Publisher.Samples.{dropped, dropped-Logs}
use event_driven_demo.System.Replies.{AllAnswers, replies_reach}

not_plain :
    (p pattern_key : String)
    → has_wildcard p ≡ false
    → p ≡ pattern_key
    → has_wildcard pattern_key ≡ true
    → ⊥
not_plain p pattern_key h e wild = cc (ap has_wildcard e, h, wild)

plain_keys : (p k : String) → has_wildcard p ≡ false → compare_keys topic p k ≡ str_eq p k
plain_keys p k h = elim (Bool-cases (str_eq p "#")) [
  | inl e ↦ absurd (not_plain p "#" h ((eq_iff p "#").0 e) refl)
  | inr e ↦ elim (Bool-cases (str_eq p "reply.#")) [
    | inl f ↦ absurd (not_plain p "reply.#" h ((eq_iff p "reply.#").0 f) refl)
    | inr f ↦ rw (e, f) refl
  ]
]

abbrev documented : Compares compare_keys
documented = record { same = λ p k. refl; plain = plain_keys; any = λ k. refl; replies = λ k. refl }

-- An order that is charged for, and whose reservation then fails.
abbrev refused : List Event
refused =
    delivery 0
      (message "order.placed" "uuid" (item "order_id" (num 7) (item "total_cents" (num 500) empty)))
    ∷ delivery 1 (stock_command "reply.payment.charged" "reply.payment.charged:7")
    ∷ delivery 2 (stock_command "reply.inventory.failed" "reply.inventory.failed:7")
    ∷ []

messages-Served_example : All (Served compare_keys orchestrator) (history 7 (run refused fresh_db))
messages-Served_example = messages-Served compare_keys documented refused 7

notification_deaf_example :
    (elem "notification.q" (receivers compare_keys commands "order.shipped") ≡ false)
    × (elem "notification.q" (receivers compare_keys events "order.shipped") ≡ true)
    × (elem "notification.q" (receivers compare_keys events "order.cancelled") ≡ true)
notification_deaf_example = notification_deaf compare_keys documented "order.shipped"

abbrev reserve_command : Message
reserve_command = stock_command "cmd.inventory.reserve" "cmd.inventory.reserve:7"

replies_reach_example :
    AllAnswers compare_keys
      (Payment.handler accepting reserve_command (idle no_payments)).1.committed
    × AllAnswers compare_keys
        (Inventory.handler stocked reserve_command (idle full_stock)).1.committed
    × AllAnswers compare_keys
        (Shipping.handler couriers reserve_command (idle no_shipments)).1.committed
replies_reach_example =
    replies_reach compare_keys documented accepting stocked couriers reserve_command no_payments
      full_stock no_shipments tt tt tt

abbrev quiet_lab : Processes
quiet_lab = record {
  payment = accepting;
  inventory = stocked;
  shipping = couriers;
  order = record { duplicate_mode = false; relay_paused = false };
  orchestrator = record { duplicate_mode = false; relay_paused = false };
}

-- The parser on two commands and a text that is no JSON.
abbrev loads : String → Option Json
loads raw =
    if str_eq raw "duplicate"
    then some (obj (item "action" (string "duplicate") (item "value" (flag true) empty)))
    else if str_eq raw "pause"
    then some (obj (item "action" (string "pause_relay") (item "value" (flag true) empty)))
    else none

switches-Agree_example :
    let lab = fan_out_all loads ("duplicate" ∷ "oops" ∷ "pause" ∷ []) quiet_lab in
    Agree lab × (lab.orchestrator.duplicate_mode ≡ false)
switches-Agree_example =
    switches-Agree loads ("duplicate" ∷ "oops" ∷ "pause" ∷ []) quiet_lab (record {
      payment_agrees = refl;
      inventory_agrees = refl;
      shipping_agrees = refl;
      orchestrator_agrees = refl;
    })

abbrev button : Dict
button = model_dump (press "inventory" "silent" true)

-- A printer and a parser of this one command.
abbrev print_button : Dict → String
print_button d = "button"

abbrev parse_button : String → Option Json
parse_button raw = if str_eq raw "button" then some (obj button) else none

control_presses_example :
    Sends
      (λ x. x.1)
      (command_message print_button button)
      (item "sent" (obj button) empty)
      (false, [])
      (control dropped (λ c. pure tt) print_button (press "inventory" "silent" true) (false, []))
    × Pressed "inventory" "silent" true quiet_lab (fan_out parse_button "button" quiet_lab)
control_presses_example =
    control_presses dropped (λ c. pure tt) (λ x. x.1) dropped-Logs (λ c w. refl) print_button
      parse_button "inventory" "silent" true quiet_lab (false, []) refl
