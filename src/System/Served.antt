-- ===== src/System/Served.antt =====
-- The processes as they start, under the declarations of infra/topology.py: what the orchestrator's and the
-- other services' relays publish is consumed.
use text.Mathlib.Text.{starts_with}
use event_driven_demo.Base.{
  ℕ, ◌≡◌, refl, sym, ap, ◌∙◌, inl, inr, String, Bool, true, some, List, [], ◌∷◌, All, Bool-cases,
}
use event_driven_demo.Pyevents.Consumer.{default_max_attempts}
use event_driven_demo.Services.Orchestrator.Orders.{history}
use event_driven_demo.Services.Orchestrator.Outcome.{Event, run, fresh_db}
use event_driven_demo.Services.Mains.{
  Call, payment_main, inventory_main, shipping_main, orchestrator_main, order_main, with_threads,
  relay_exchanges, subscriptions, consume,
}
use event_driven_demo.Infra.Topology.{Kind, commands}
use event_driven_demo.Infra.Topology.Routes.{Compares, receivers}
use event_driven_demo.Infra.Topology.Retry.{Retries, work_queues-Retries}
use event_driven_demo.System.Routing.{addressee, Reaches, messages_reach}

-- The five services that keep an order.
pub data Process : Type 0 where
  payment inventory shipping order orchestrator : Process

abbrev pub main_of : Process → List Call
main_of payment = payment_main
main_of inventory = inventory_main
main_of shipping = shipping_main
main_of order = order_main
main_of orchestrator = orchestrator_main

-- All calls of a process; its threads start threads once more at most.
abbrev pub calls : Process → List Call
calls p = with_threads 2 (main_of p)

-- What the relay of `from` publishes under the routing key gets to the queue that the process `to`
-- consumes, to nothing else with three attempts, which has its retries, and besides only to the
-- observer's queue.
pub record Served (accepts : Kind → String → String → Bool) (from : Process) (rk : String)
    : Type 0 where
  pub to : Process
  pub exchange : String
  pub queue : String
  pub relayed : relay_exchanges (calls from) ≡ exchange ∷ []
  pub subscribed :
      subscriptions (calls to)
      ≡ record { queue = queue; max_attempts = default_max_attempts; retry = true } ∷ []
  pub received : receivers accepts exchange rk ≡ queue ∷ "observer.q" ∷ []
  pub retried : Retries accepts queue

module _ (accepts : Kind → String → String → Bool) (c : Compares accepts) where
  -- The queue that a routing key names is that of a process.
  by_queue :
      (rk queue : String) (to : Process)
      → subscriptions (calls to)
        ≡ record { queue = queue; max_attempts = default_max_attempts; retry = true } ∷ []
      → Retries accepts queue
      → addressee rk ≡ some queue
      → Reaches accepts rk
      → Served accepts orchestrator rk
  unfolding with_threads consume
  by_queue rk queue to subscribed retried here (q, home, table) = record {
    to = to;
    exchange = commands;
    queue = queue;
    relayed = refl;
    subscribed = subscribed;
    received = table ∙ ap (λ k. k ∷ "observer.q" ∷ []) (same (sym home ∙ here));
    retried = retried;
  }
    where
      same : some q ≡ some queue → q ≡ queue
      same e = cc

  Reaches-Served : (rk : String) → Reaches accepts rk → Served accepts orchestrator rk
  unfolding with_threads consume
  Reaches-Served rk h =
      let (for_order, (for_payment, (for_inventory, (for_shipping, rest)))) =
        work_queues-Retries accepts c in
      elim (Bool-cases (starts_with rk "cmd.payment.")) [
        | inl e ↦ by_queue rk "payment.cmd.q" payment refl for_payment (rw e refl) h
        | inr e ↦ elim (Bool-cases (starts_with rk "cmd.inventory.")) [
          | inl f ↦ by_queue rk "inventory.cmd.q" inventory refl for_inventory (rw (e, f) refl) h
          | inr f ↦ elim (Bool-cases (starts_with rk "cmd.shipping.")) [
            | inl g ↦ by_queue rk "shipping.cmd.q" shipping refl for_shipping (rw (e, f, g) refl) h
            | inr g ↦ elim (Bool-cases (starts_with rk "order.")) [
              | inl k ↦ by_queue rk "order.q" order refl for_order (rw (e, f, g, k) refl) h
              | inr k ↦ let no_one = rw (e, f, g, k) at h.1 in cc no_one
            ]
          ]
        ]
      ]

  All-Served :
      (rks : List String) → All (Reaches accepts) rks → All (Served accepts orchestrator) rks
  All-Served [] h = tt
  All-Served (rk ∷ rks) (r, h) = (Reaches-Served rk r, All-Served rks h)

  -- Whatever has been delivered to the orchestrator and however often its watchdog has run, every
  -- message that it has staged for an order gets, on the exchange of the relay that the orchestrator's
  -- main starts, to the one queue that the main of some service subscribes to, with three attempts and
  -- with the retry and dead letter queues that these need, and besides only to the observer's; with keys
  -- compared as the broker's documentation says.
  pub messages-Served :
      (es : List Event) (j : ℕ) → All (Served accepts orchestrator) (history j (run es fresh_db))
  messages-Served es j = All-Served (history j (run es fresh_db)) (messages_reach accepts c es j)
