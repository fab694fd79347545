-- ===== src/System/Dashboard.antt =====
-- The buttons of the failure lab, from the request to the switches of the processes.
use event_driven_demo.Base.{
  ℕ, ◌≡◌, refl, sym, ap, subst, ◌∙◌, inl, inr, String, Bool, true, false, Option, some, List, [],
  ◌∷◌, ◌++◌, take, ◌⊎◌, ◌&&◌, arith, str_eq, eq_iff, Bool-cases, if◌then◌else◌,
}
use event_driven_demo.Pyevents.Json.{Json, flag, obj, Dict, empty, item}
use event_driven_demo.Pyevents.Control.{on_msg}
use event_driven_demo.Services.Payment
use event_driven_demo.Services.Inventory
use event_driven_demo.Services.Inventory.{InventoryState, set_slow, int_value}
use event_driven_demo.Pyevents.Effect.{Error, Result, ok, err, ⊤, Action, pure, ◌>>=◌}
use event_driven_demo.Pyevents.Publisher.{Sent}
use event_driven_demo.Pyevents.Publisher.Delivers.{Delivers}
use event_driven_demo.Pyevents.Publisher.Healing.{Pika}
use event_driven_demo.Pyevents.Publisher.Healing.Quiet.{Logs}
use event_driven_demo.Pyevents.Control.Command.{
  command_message, publish_command, publish_command-Delivers,
}
use mathlib.Core.List.{append-nil}
use event_driven_demo.Services.Shipping
use event_driven_demo.Services.Order
use event_driven_demo.Services.Orchestrator.Lab
use event_driven_demo.Services.Observer.Control.{Command, model_dump, control}
use event_driven_demo.System.Switches.{Processes, fan_out}

-- The new value of a flag that the command may name.
abbrev pub set_if : Bool → Bool → Bool → Bool
set_if named value old = if named then value else old

-- From `lab` to `lab'`, the flag that the command names has got its value, and the others are as they
-- were: the duplicate mode of the four services and the pause of the five relays, whatever the target,
-- and the failures of the target.
pub record Pressed (target action : String) (value : Bool) (lab lab' : Processes) : Type 0 where
  pub duplicates :
      (lab'.payment.switches.duplicate_mode
        ≡ set_if (str_eq action "duplicate") value lab.payment.switches.duplicate_mode)
      × (lab'.inventory.switches.duplicate_mode
          ≡ set_if (str_eq action "duplicate") value lab.inventory.switches.duplicate_mode)
      × (lab'.shipping.switches.duplicate_mode
          ≡ set_if (str_eq action "duplicate") value lab.shipping.switches.duplicate_mode)
      × (lab'.order.duplicate_mode
          ≡ set_if (str_eq action "duplicate") value lab.order.duplicate_mode)
      × (lab'.orchestrator.duplicate_mode ≡ lab.orchestrator.duplicate_mode)
  pub pauses :
      (lab'.payment.switches.relay_paused
        ≡ set_if (str_eq action "pause_relay") value lab.payment.switches.relay_paused)
      × (lab'.inventory.switches.relay_paused
          ≡ set_if (str_eq action "pause_relay") value lab.inventory.switches.relay_paused)
      × (lab'.shipping.switches.relay_paused
          ≡ set_if (str_eq action "pause_relay") value lab.shipping.switches.relay_paused)
      × (lab'.order.relay_paused
          ≡ set_if (str_eq action "pause_relay") value lab.order.relay_paused)
      × (lab'.orchestrator.relay_paused
          ≡ set_if (str_eq action "pause_relay") value lab.orchestrator.relay_paused)
  pub fails :
      (lab'.payment.fail
        ≡ set_if (str_eq action "fail" && str_eq target "payment") value lab.payment.fail)
      × (lab'.inventory.fail
          ≡ set_if (str_eq action "fail" && str_eq target "inventory") value lab.inventory.fail)
      × (lab'.shipping.fail
          ≡ set_if (str_eq action "fail" && str_eq target "shipping") value lab.shipping.fail)
      × (lab'.inventory.silent
          ≡ set_if (str_eq action "silent" && str_eq target "inventory") value lab.inventory.silent)

abbrev pub press : String → String → Bool → Command
press target action value = record { target = target; action = action; value = flag value }

-- What every process does with a command that it has parsed.
abbrev obeyed : Dict → Processes → Processes
obeyed command lab = record {
  payment = Payment.on_command command lab.payment;
  inventory = Inventory.on_command command lab.inventory;
  shipping = Shipping.on_command command lab.shipping;
  order = Order.on_command command lab.order;
  orchestrator = Lab.on_command command lab.orchestrator;
}

fan_out-parsed :
    (loads : String → Option Json) (raw : String) (command : Dict) (lab : Processes)
    → loads raw ≡ some (obj command)
    → fan_out loads raw lab ≡ obeyed command lab
unfolding fan_out on_msg
fan_out-parsed loads raw command lab h = rw h refl

apart : (a x y : String) → str_eq x y ≡ false → str_eq a x ≡ true → str_eq a y ≡ false
apart a x y ne e = rw ((eq_iff a x).0 e) ne

slow_keeps :
    (v : Json) (s : InventoryState)
    → ((set_slow (int_value (some v)) s).fail ≡ s.fail)
      × ((set_slow (int_value (some v)) s).silent ≡ s.silent)
slow_keeps v s = by_result (int_value (some v))
  where
    by_result : (r : Result ℕ) → ((set_slow r s).fail ≡ s.fail) × ((set_slow r s).silent ≡ s.silent)
    by_result (ok n) = (refl, refl)
    by_result (err e) = (refl, refl)

-- A command with an action that depends on the target.
obeyed-aimed :
    (target action : String) (value : Bool) (lab : Processes)
    → str_eq action "duplicate" ≡ false
    → str_eq action "pause_relay" ≡ false
    → Pressed target action value lab (obeyed (model_dump (press target action value)) lab)
unfolding Payment.on_command Inventory.on_command Shipping.on_command Order.on_command
    Lab.on_command
obeyed-aimed target action value lab d p = record {
  duplicates = (ground arith, ground arith, ground arith, ground arith, ground arith);
  pauses = (ground arith, ground arith, ground arith, ground arith, ground arith);
  fails = (
    ground arith,
    ground (arith, slow_keeps (flag value) lab.inventory, apart action "slow_ms" "fail" refl),
    ground arith,
    ground (
      arith,
      slow_keeps (flag value) lab.inventory,
      apart action "slow_ms" "silent" refl,
      apart action "fail" "silent" refl,
    ),
  );
}

obeyed-Pressed :
    (target action : String) (value : Bool) (lab : Processes)
    → Pressed target action value lab (obeyed (model_dump (press target action value)) lab)
unfolding Payment.on_command Inventory.on_command Shipping.on_command Order.on_command
    Lab.on_command
obeyed-Pressed target action value lab = elim (Bool-cases (str_eq action "duplicate")) [
  | inl e ↦
      subst (λ a. Pressed target a value lab (obeyed (model_dump (press target a value)) lab))
        (sym ((eq_iff action "duplicate").0 e))
        (record {
          duplicates = (refl, refl, refl, refl, refl);
          pauses = (refl, refl, refl, refl, refl);
          fails = (refl, refl, refl, refl);
        })
  | inr e ↦ elim (Bool-cases (str_eq action "pause_relay")) [
    | inl p ↦
        subst (λ a. Pressed target a value lab (obeyed (model_dump (press target a value)) lab))
          (sym ((eq_iff action "pause_relay").0 p))
          (record {
            duplicates = (refl, refl, refl, refl, refl);
            pauses = (refl, refl, refl, refl, refl);
            fails = (refl, refl, refl, refl);
          })
    | inr p ↦ obeyed-aimed target action value lab e p
  ]
]

-- The message `m` has gone out and the reply is `reply`, or the request fails, and `m` has gone out or
-- not.
abbrev pub Sends : {W : Type 0} → (W → List Sent) → Sent → Dict → W → Result Dict × W → Type 0
Sends log m reply w (r, w') =
    ((r ≡ ok reply) × (log w' ≡ log w ++ m ∷ []))
    ⊎ ((e : Error) × (r ≡ err e) × ((log w' ≡ log w) ⊎ (log w' ≡ log w ++ m ∷ [])))

-- A beginning of one message.
beginning :
    (m : Sent) (done rest : List Sent) → m ∷ [] ≡ done ++ rest → (done ≡ []) ⊎ (done ≡ m ∷ [])
beginning m [] rest h = inl refl
beginning m (x ∷ []) rest h = inr (ap (λ l. take 1 l) (sym h))
beginning m (x ∷ y ∷ done) rest h = cc h

module _ {W : Type 0} (log : W → List Sent) (m : Sent) (reply : Dict) (w : W) where
  Delivers-Sends :
      (y : Result ⊤ × W)
      → Delivers log (m ∷ []) w y
      → Sends log m reply w (((λ _. y) >>= λ _. pure reply) w)
  Delivers-Sends (ok _, w') (inl (p, l)) = inl (refl, l)
  Delivers-Sends (ok _, w') (inr (e, done, rest, p, s, l)) = cc
  Delivers-Sends (err f, w') (inl (p, l)) = cc
  Delivers-Sends (err f, w') (inr (e, done, rest, p, s, l)) = inr (
    f,
    refl,
    elim (beginning m done rest s) [
      | inl q ↦ inl (l ∙ ap (λ d. log w ++ d) q ∙ append-nil (log w))
      | inr q ↦ inr (l ∙ ap (λ d. log w ++ d) q)
    ],
  )

-- A button of the dashboard, with a flag for a value: `POST /control` answers with the command that has
-- gone out on the control exchange, or fails and has sent it or not; and the message sets, in the
-- processes it reaches, exactly the flag that the command names: `duplicate` in the four services and
-- `pause_relay` in them and the orchestrator whatever the target, `fail` and `silent` in the target.
-- Opening and closing a connection sends nothing, a call of the channel that raises has sent its message
-- or not, and the parser reads back the printed command.
pub control_presses :
    {W C H : Type 0} (pika : Pika W C H) (close : C → Action W ⊤) (log : W → List Sent)
    (logs : Logs pika log) (closes : (c : C) (w : W) → log (close c w).1 ≡ log w)
    (dumps : Dict → String) (loads : String → Option Json) (target action : String) (value : Bool)
    (lab : Processes) (w : W)
    → loads (dumps (model_dump (press target action value)))
      ≡ some (obj (model_dump (press target action value)))
    → let d = model_dump (press target action value) in
      Sends log
        (command_message dumps d)
        (item "sent" (obj d) empty)
        w
        (control pika close dumps (press target action value) w)
      × Pressed target action value lab (fan_out loads (command_message dumps d).payload lab)
unfolding control
control_presses pika close log logs closes dumps loads target action value lab w parse =
    let d = model_dump (press target action value) in
    (
      Delivers-Sends log (command_message dumps d) (item "sent" (obj d) empty) w
          (publish_command pika close dumps d w)
          (publish_command-Delivers pika close log logs closes dumps d w),
      subst (Pressed target action value lab) (sym (fan_out-parsed loads (dumps d) d lab parse))
          (obeyed-Pressed target action value lab),
    )
