-- ===== src/System/World/Good.antt =====
-- What holds of all five databases at any time.
use event_driven_demo.Base.{
  ℕ, zero, suc, ◌≡◌, ap, subst, ◌∙◌, inl, inr, Bool, some, List, [], ◌∷◌, All, Option-cases, eq_iff,
}
use event_driven_demo.Base.Int.{ℤ}
use event_driven_demo.Pyevents.Effect.{ok, item_num}
use event_driven_demo.Pyevents.Db.{OutboxRow}
use event_driven_demo.Services.Inventory.Stock.{reserve_id, Balanced}
use event_driven_demo.Services.Inventory.Conserved.{IsNamed, handler-Balanced}
use event_driven_demo.Services.Orchestrator.Orders.{AllSound}
use event_driven_demo.Services.Orchestrator.Keep.{handler-AllSound}
use event_driven_demo.Services.Orchestrator.Rounds.{watchdog-AllSound}
use event_driven_demo.System.Typed.{Typed, AllTyped}
use event_driven_demo.System.Typed.Handlers.{
  watchdog-Types, place_order-Types, orchestrator-Types, payment-Types, inventory-Types,
  shipping-Types, order-Types,
}
use event_driven_demo.System.World.{
  World, Service, outbox_of, get_elem?, received, receive, Step, request, delivery, tick, switch,
  step, run,
}

-- The orchestrator's orders live their lives, the stock is all there, and all that is staged is typed.
pub record Good (total : ℤ) (w : World) : Type 0 where
  pub sound : AllSound w.orchestrator
  pub balanced : Balanced total w.inventory
  pub orchestrator : AllTyped w.orchestrator
  pub payment : AllTyped w.payment
  pub inventory : AllTyped w.inventory
  pub shipping : AllTyped w.shipping
  pub order : AllTyped w.order

pub All-elem :
    (P : OutboxRow → Type 0) (n : ℕ) (rs : List OutboxRow) (row : OutboxRow)
    → All P rs
    → get_elem? rs n ≡ some row
    → P row
All-elem P n [] row h e = cc
All-elem P zero (r ∷ rs) row (p, h) e = subst P (some_inj e) p
  where
    some_inj : {x y : OutboxRow} → some x ≡ some y → x ≡ y
    some_inj q = cc
All-elem P (suc n) (r ∷ rs) row (p, h) e = All-elem P n rs row h e

pub staged-Typed :
    {total : ℤ} {w : World} → Good total w → (from : Service) → All Typed (outbox_of from w)
staged-Typed g Service.orchestrator = g.orchestrator
staged-Typed g Service.payment = g.payment
staged-Typed g Service.inventory = g.inventory
staged-Typed g Service.shipping = g.shipping
staged-Typed g Service.order = g.order

-- A message that is staged is named as inventory-service needs it.
Typed-IsNamed :
    (redelivered : Bool) (attempt : ℕ) (row : OutboxRow)
    → Typed row
    → IsNamed (received redelivered attempt row)
Typed-IsNamed redelivered attempt row t rk o order = rw t.identified (
    t.named ((eq_iff row.routing_key "cmd.inventory.reserve").1 rk)
    ∙ ap reserve_id (same_order (rw (item_num, t.ordered) at order)))
  where
    same_order : ok t.order ≡ ok o → t.order ≡ o
    same_order e = cc

module _ (total : ℤ) where
  receive-Good :
      (to : Service) (now : ℕ) (redelivered : Bool) (attempt : ℕ) (row : OutboxRow) (w : World)
      → Good total w
      → Typed row
      → Good total (receive to now (received redelivered attempt row) w).1
  unfolding receive
  receive-Good Service.orchestrator now re k row w g t =
      let msg = received re k row in
      record {
        sound = handler-AllSound now msg w.orchestrator g.sound;
        balanced = g.balanced;
        orchestrator = orchestrator-Types msg now w.orchestrator g.orchestrator;
        payment = g.payment;
        inventory = g.inventory;
        shipping = g.shipping;
        order = g.order;
      }
  receive-Good Service.payment now re k row w g t = record {
    sound = g.sound;
    balanced = g.balanced;
    orchestrator = g.orchestrator;
    payment = payment-Types (received re k row) w.lab.payment w.payment g.payment;
    inventory = g.inventory;
    shipping = g.shipping;
    order = g.order;
  }
  receive-Good Service.inventory now re k row w g t =
      let msg = received re k row in
      record {
        sound = g.sound;
        balanced =
            handler-Balanced total w.lab.inventory msg w.inventory g.balanced
              (Typed-IsNamed re k row t);
        orchestrator = g.orchestrator;
        payment = g.payment;
        inventory = inventory-Types msg w.lab.inventory w.inventory g.inventory;
        shipping = g.shipping;
        order = g.order;
      }
  receive-Good Service.shipping now re k row w g t = record {
    sound = g.sound;
    balanced = g.balanced;
    orchestrator = g.orchestrator;
    payment = g.payment;
    inventory = g.inventory;
    shipping = shipping-Types (received re k row) w.lab.shipping w.shipping g.shipping;
    order = g.order;
  }
  receive-Good Service.order now re k row w g t = record {
    sound = g.sound;
    balanced = g.balanced;
    orchestrator = g.orchestrator;
    payment = g.payment;
    inventory = g.inventory;
    shipping = g.shipping;
    order = order-Types (received re k row) w.order g.order;
  }

  step-Good : (s : Step) (w : World) → Good total w → Good total (step s w)
  unfolding step
  step-Good (request event_id placed_at req) w g = record {
    sound = g.sound;
    balanced = g.balanced;
    orchestrator = g.orchestrator;
    payment = g.payment;
    inventory = g.inventory;
    shipping = g.shipping;
    order = place_order-Types event_id placed_at req w.order g.order;
  }
  step-Good (delivery from to n now attempt re) w g =
      elim (Option-cases (get_elem? (outbox_of from w) n)) [
        | inl e ↦ rw e g
        | inr (row, e) ↦ rw e (
            receive-Good to now re attempt row w g
              (All-elem Typed n (outbox_of from w) row (staged-Typed g from) e))
      ]
  step-Good (tick now timeout_s locked) w g = record {
    sound = watchdog-AllSound now timeout_s locked w.orchestrator g.sound;
    balanced = g.balanced;
    orchestrator = watchdog-Types now timeout_s locked w.orchestrator g.orchestrator;
    payment = g.payment;
    inventory = g.inventory;
    shipping = g.shipping;
    order = g.order;
  }
  step-Good (switch lab) w g = record {
    sound = g.sound;
    balanced = g.balanced;
    orchestrator = g.orchestrator;
    payment = g.payment;
    inventory = g.inventory;
    shipping = g.shipping;
    order = g.order;
  }

  pub run-Good : (ss : List Step) (w : World) → Good total w → Good total (run ss w)
  unfolding run
  run-Good [] w g = g
  run-Good (s ∷ ss) w g = run-Good ss (step s w) (step-Good s w g)
