-- ===== src/Services/Mains.antt =====
-- How the processes start: `main` of each service, with the threads that it starts. A thread is the list
-- of the calls that it makes until its loop begins; `consume` of libs/pyevents/pyevents/consumer.py,
-- `listen_for_commands` of control.py and `relay_loop` of outbox.py are such threads or parts of them.
use event_driven_demo.Base.{ℕ, zero, suc, String, Bool, true, false, List, [], ◌∷◌, ◌++◌}
use event_driven_demo.Pyevents.Consumer.{default_max_attempts}
use event_driven_demo.Pyevents.Control.Command.{control_exchange}

pub data Thread : Type 0 where
  listener : (service : String) → Thread
  relay : (exchange : String) → Thread
  watchdog_thread order_consumer observer_consumer : Thread

-- A subscription: what `_on_message` goes by.
pub record Subscription : Type 0 where
  pub queue : String
  pub max_attempts : ℕ
  pub retry : Bool

-- The calls; an exclusive queue is named by the broker, and everything else on it is durable.
pub data Call : Type 0 where
  open_db run_schema open_channel own_queue listen start_consuming serve_http : Call
  exchange_declare : (exchange exchange_type : String) → Call
  queue_declare : (queue : String) → Call
  queue_bind : (queue exchange routing_key : String) → Call
  bind_own : (exchange : String) → Call
  basic_qos : (prefetch_count : ℕ) → Call
  basic_consume : Subscription → Call
  start : Thread → Call

-- `consume`; the mains leave its `prefetch` and its `max_attempts` at their defaults.
unfoldable pub consume : (queue : String) (prefetch max_attempts : ℕ) (retry : Bool) → List Call
consume queue prefetch max_attempts retry =
    basic_qos prefetch
    ∷ basic_consume (record { queue = queue; max_attempts = max_attempts; retry = retry })
    ∷ start_consuming
    ∷ []

-- `_run` of `listen_for_commands`: a queue of its own on the control exchange.
abbrev pub listen_for_commands : List Call
listen_for_commands =
    open_channel
    ∷ exchange_declare control_exchange "fanout"
    ∷ own_queue
    ∷ bind_own control_exchange
    ∷ listen
    ∷ start_consuming
    ∷ []

-- `_open_channel`
abbrev pub open_exchange : String → List Call
open_exchange exchange = open_channel ∷ exchange_declare exchange "topic" ∷ []

-- What `relay_loop` does before its loop.
abbrev pub relay_loop : String → List Call
relay_loop exchange = open_db ∷ run_schema ∷ open_exchange exchange

abbrev pub payment_main : List Call
payment_main =
    start (listener "payment")
    ∷ open_db
    ∷ run_schema
    ∷ start (relay "commands")
    ∷ open_channel
    ∷ consume "payment.cmd.q" 1 default_max_attempts true

abbrev pub inventory_main : List Call
inventory_main =
    start (listener "inventory")
    ∷ open_db
    ∷ run_schema
    ∷ start (relay "commands")
    ∷ open_channel
    ∷ consume "inventory.cmd.q" 1 default_max_attempts true

abbrev pub shipping_main : List Call
shipping_main =
    start (listener "shipping")
    ∷ open_db
    ∷ run_schema
    ∷ start (relay "commands")
    ∷ open_channel
    ∷ consume "shipping.cmd.q" 1 default_max_attempts true

abbrev pub orchestrator_main : List Call
orchestrator_main =
    start (listener "orchestrator")
    ∷ open_db
    ∷ run_schema
    ∷ start (relay "commands")
    ∷ start watchdog_thread
    ∷ open_channel
    ∷ consume "orchestrator.q" 1 default_max_attempts true

-- `run_consumer` of order-service
abbrev pub run_order_consumer : List Call
run_order_consumer =
    start (listener "order")
    ∷ open_db
    ∷ run_schema
    ∷ open_channel
    ∷ consume "order.q" 1 default_max_attempts true

abbrev pub order_main : List Call
order_main = start order_consumer ∷ start (relay "orders") ∷ serve_http ∷ []

-- `run_consumer` of the observer
abbrev pub run_observer_consumer : List Call
run_observer_consumer =
    open_channel
    ∷ exchange_declare "orders" "topic"
    ∷ queue_declare "observer.q"
    ∷ queue_bind "observer.q" "orders" "#"
    ∷ consume "observer.q" 1 default_max_attempts false

abbrev pub observer_main : List Call
observer_main = start observer_consumer ∷ serve_http ∷ []

-- What a thread does before its loop.
abbrev pub body : Thread → List Call
body (listener service) = listen_for_commands
body (relay exchange) = relay_loop exchange
body watchdog_thread = open_db ∷ []
body order_consumer = run_order_consumer
body observer_consumer = run_observer_consumer

-- The calls of a thread and of those that it starts, so many levels deep.
unfoldable pub with_threads : ℕ → List Call → List Call
with_threads zero cs = cs
with_threads (suc n) [] = []
with_threads (suc n) (start t ∷ cs) = start t ∷ (with_threads n (body t) ++ with_threads (suc n) cs)
with_threads (suc n) (c ∷ cs) = c ∷ with_threads (suc n) cs

abbrev pub relay_exchanges : List Call → List String
relay_exchanges [] = []
relay_exchanges (start (relay exchange) ∷ cs) = exchange ∷ relay_exchanges cs
relay_exchanges (_ ∷ cs) = relay_exchanges cs

abbrev pub subscriptions : List Call → List Subscription
subscriptions [] = []
subscriptions (basic_consume s ∷ cs) = s ∷ subscriptions cs
subscriptions (_ ∷ cs) = subscriptions cs
