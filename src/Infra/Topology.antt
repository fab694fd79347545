-- ===== src/Infra/Topology.antt =====
-- infra/topology.py: the calls on the channel that declare exchanges, queues and bindings, and what
-- the broker then does with a message. How an exchange compares a key with a binding is given.
pub mod Routes
pub mod Retry
use Prim.Native.String.{◌++◌ as text_append}
use event_driven_demo.Base.{
  ℕ, String, Bool, true, false, Option, none, some, List, [], ◌∷◌, ◌++◌, ◌&&◌, elem, str_eq,
  if◌then◌else◌,
}
use event_driven_demo.Pyevents.Consumer.{dlx}

abbrev pub events : String
events = "orders"

abbrev pub commands : String
commands = "commands"

abbrev pub retry_delay_ms : ℕ
retry_delay_ms = 5000

pub data Kind : Type 0 where
  topic direct : Kind

-- The arguments of a retry queue.
pub record DeadLetter : Type 0 where
  pub message_ttl : ℕ
  pub exchange : String
  pub routing_key : String

-- A call on the channel; everything is durable.
pub data Declaration : Type 0 where
  exchange_declare : (exchange : String) → Kind → Declaration
  queue_declare : (queue : String) → Option DeadLetter → Declaration
  queue_bind : (queue exchange routing_key : String) → Declaration

-- A dict of queues with their bindings, in order.
abbrev pub Queues : Type 0
Queues = List (String × List String)

abbrev pub event_queues : Queues
event_queues = ("order.q", "order.shipped" ∷ "order.cancelled" ∷ []) ∷ []

abbrev pub observer_queues : Queues
observer_queues =
    ("notification.q", "order.placed" ∷ "order.shipped" ∷ "order.cancelled" ∷ [])
    ∷ ("observer.q", "#" ∷ [])
    ∷ []

abbrev pub command_queues : Queues
command_queues =
    ("payment.cmd.q", "cmd.payment.charge" ∷ "cmd.payment.refund" ∷ [])
    ∷ ("inventory.cmd.q", "cmd.inventory.reserve" ∷ "cmd.inventory.release" ∷ [])
    ∷ ("shipping.cmd.q", "cmd.shipping.dispatch" ∷ [])
    ∷ []

abbrev pub orch_reply_bindings : List String
orch_reply_bindings = "reply.#" ∷ []

abbrev pub orch_event_bindings : List String
orch_event_bindings = "order.placed" ∷ []

-- `for rk in bindings: channel.queue_bind(…)`
abbrev pub bind_all : String → String → List String → List Declaration
bind_all queue exchange [] = []
bind_all queue exchange (rk ∷ rks) = queue_bind queue exchange rk ∷ bind_all queue exchange rks

-- `_declare_with_retry`
unfoldable pub declare_with_retry : String → List String → String → List Declaration
declare_with_retry queue bindings exchange =
    let retry_q = text_append queue ".retry" in
    let dlq = text_append queue ".dlq" in
    queue_declare queue none
    ∷ (bind_all queue exchange bindings
        ++ queue_bind queue dlx queue
          ∷ queue_declare retry_q
              (some (record { message_ttl = retry_delay_ms; exchange = dlx; routing_key = queue }))
          ∷ queue_bind retry_q dlx (text_append queue ".retry")
          ∷ queue_declare dlq none
          ∷ queue_bind dlq dlx (text_append queue ".dead")
          ∷ [])

-- The three loops of `declare` over a dict of queues.
abbrev pub declare_events : Queues → List Declaration
declare_events [] = []
declare_events ((queue, bindings) ∷ queues) =
    declare_with_retry queue bindings events
    ++ (bind_all queue commands bindings ++ declare_events queues)

abbrev pub declare_commands : Queues → List Declaration
declare_commands [] = []
declare_commands ((queue, bindings) ∷ queues) =
    declare_with_retry queue bindings commands ++ declare_commands queues

abbrev pub declare_observers : Queues → List Declaration
declare_observers [] = []
declare_observers ((queue, patterns) ∷ queues) =
    queue_declare queue none
    ∷ (bind_all queue events patterns
        ++ ((if str_eq queue "observer.q" then queue_bind queue commands "#" ∷ [] else [])
            ++ declare_observers queues))

unfoldable pub declare : List Declaration
unfolding declare_with_retry
declare =
    exchange_declare events topic
    ∷ exchange_declare commands topic
    ∷ exchange_declare dlx direct
    ∷ (declare_events event_queues
        ++ (declare_commands command_queues
            ++ (declare_with_retry "orchestrator.q" orch_reply_bindings commands
                ++ (bind_all "orchestrator.q" events orch_event_bindings
                    ++ declare_observers observer_queues))))
