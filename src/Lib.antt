-- ===== src/Lib.antt =====
-- Event_Driven_Demo: a small shop of Python services that talk over RabbitMQ, each with a PostgreSQL
-- database of its own. order-service takes an order and stages `order.placed`; the orchestrator keeps a
-- saga for the order, sends commands to payment-, inventory- and shipping-service, reads their replies,
-- and compensates what was done when a step fails or times out; order-service then learns the outcome.
-- Every service handles each event once, in one transaction with the events that it stages in its
-- outbox.
--
-- Files, by the code that they are about:
--   Base.antt and Base/: tests and lists over the native numbers, integers, tables by number (the SQL
--     statements that the code uses on them), Python's text of a number;
--   Pyevents/Json.antt, Pyevents/Effect.antt: message bodies; actions on a database that may raise;
--   Pyevents/Db.antt: libs/pyevents/pyevents/db.py. A connection is the committed database and what its
--     open transaction sees; `process_once` and `handle_once` take the body of their `with` block.
--     Db/Once.antt has what they promise. Schema.antt is `run_script` in several sessions, step by
--     step;
--   Pyevents/Connection.antt: `connect` of libs/pyevents/pyevents/connection.py and `connect_db` of
--     db.py;
--   Pyevents/Publisher.antt: `publish` of libs/pyevents/pyevents/publisher.py, with
--     Publisher/Delivers.antt on what it gets sent. Publisher/Healing.antt is the class `Publisher`,
--     its child modules what it sends and that it gets over a lost connection;
--   Pyevents/Control.antt: the callback of `listen_for_commands` of libs/pyevents/pyevents/control.py,
--     and `publish_command` in Control/Command.antt;
--   Pyevents/Outbox.antt: `stage_event`, `_drain_once` and a turn of `relay_loop` of
--     libs/pyevents/pyevents/outbox.py. Outbox/Rows.antt is about the rows, Outbox/Relay.antt about one
--     turn, Outbox/Drains.antt about as many as it takes, and Outbox/Effects.antt, Resends.antt,
--     Runs.antt and ExactlyOnce.antt about what any turns do to a consumer behind the guard of db.py;
--   Pyevents/Consumer.antt: `_on_message` of libs/pyevents/pyevents/consumer.py, as the list of calls
--     that it makes on the channel or the exception that leaves it. Consumer/Settle.antt is about one
--     delivery (Consumer/Unretried.antt with retries off), Consumer/Life.antt and
--     Consumer/Attempts.antt about all deliveries of one message;
--   Pyevents/Saga.antt: libs/pyevents/pyevents/saga.py;
--   Services/Orchestrator.antt: services/orchestrator/app/__main__.py, with the watchdog in
--     Orchestrator/Timeouts.antt. In Orchestrator/, Machine.antt is the state machine that saga.py's
--     docstring draws; Turns, Steps, Refine and Replies relate the code to its moves; Trace, Orders,
--     Keep, Watchdog, Expired and Rounds carry the invariant of all orders; Outcome.antt has the
--     theorems on runs, Start.antt and Converge.antt the two ends of a saga, Race.antt a reply that the
--     watchdog overtakes, Returns.antt that no message raises; Lab.antt is `_on_command`;
--   Services/Payment.antt, Services/Inventory.antt, Services/Shipping.antt, Services/Order.antt and
--     Services/Control.antt: the other services' `__main__.py`, `api.py` and `consumer.py`, with their
--     theorems in Payment/, Inventory/, Shipping/ and Order/;
--   Services/Mains.antt: the calls with which each service's `__main__.py` starts it and its threads,
--     those of `consume`, `listen_for_commands` and `relay_loop` before their loops among them;
--   Services/Observer/Feed.antt and Services/Observer/Stats.antt: services/observer/app/api.py (the
--     ring buffer, the sockets and what is sent to them) and stats.py (the snapshots);
--     Services/Observer/Control.antt: `POST /control` of api.py; Services/Observer/Kill.antt: `POST
--     /kill`; Services/Observer/Queues.antt: `GET /queues`; Services/Observer/Consumer.antt:
--     consumer.py;
--   Infra/Topology.antt: infra/topology.py, as the list of the calls that declare exchanges, queues and
--     bindings; Topology/Routes.antt is where the broker puts a message under them, Topology/Retry.antt
--     the way of a message that is retried;
--   System/: the parts together. Routing.antt and Replies.antt say which queue a message of the
--     orchestrator, and an answer to it, gets to, Served.antt which process consumes there;
--     Switches.antt and Dashboard.antt are the failure lab in all processes; Contents.antt
--     compares whole messages, with ids and bodies, and Answers.antt, Restored.antt, Journey.antt and
--     Undone.antt follow an order on its way through all services. World.antt
--     is all services with their messages: its steps are requests, deliveries of staged messages,
--     rounds of the watchdog and changes of the switches; World/Good.antt is its invariant,
--     World/Handled.antt and World/Labels.antt what follows; Typed.antt and Typed/ are about the
--     bodies;
--   the files Examples.antt in Pyevents/, Pyevents/Publisher/, Pyevents/Outbox/, Pyevents/Schema/,
--     Services/, Services/Orchestrator/, Services/Order/, Services/Observer/ and System/,
--     Services/Observer/KillExamples.antt and System/JourneyExamples.antt and WorldExamples.antt: the
--     theorems at concrete inputs.
--
-- Conventions. A handler is a function of the message and the connection. An exception is the result
-- `err`, with the state at that point; a guard that ends by an exception rolls back. One statement sees
-- the statements before it in its transaction; a run is a sequence of whole transactions;
-- Orchestrator/Race.antt describes two that overlap, and Pyevents/Schema.antt any number of sessions,
-- statement by statement, with the server's advisory lock as its documentation has it. The observer's
-- coroutines run one at a time. Times are numbers of seconds, `now` is that of the transaction.
-- Amounts, ids and counts of a message are natural numbers, as the schemas of contracts/ have it; the
-- columns that are decremented are integers. A total that is no BIGINT is refused by the INSERT of
-- an order; no other integer is bounded. The fuel is the number of attempts in
-- Connection.antt, as in the code, of deliveries in Consumer/Life.antt, where `max_attempts` is enough,
-- and of turns in Outbox/Drains.antt, where the number of unpublished rows is enough.
--
-- Given from outside: the JSON parser and printer, Python's `int` of a text and the text of a container
-- (in the consumer and the publisher), what pika's connections and channels do (in the publisher and
-- the relay), one attempt to connect and the wait after it, what a WebSocket, the Docker SDK and the
-- broker's management API do, how an exchange compares a routing key with a binding, which of the
-- observer's statements succeed, the rows that another transaction has locked (in the watchdog and the
-- relay), new UUIDs and the clock.
--
-- Not modelled: the columns and first rows of the schema scripts; the range of the BIGINT columns but
-- for an order's total, so that sums and ids are taken to fit, and the transaction that stays aborted
-- after such a total; what two overlapping transactions of the orchestrator do, but for the one case
-- of Orchestrator/Race.antt, so that its runs are whole transactions, one after the other; the
-- interleaving of the observer's coroutines at their awaits, with the RuntimeError of a set that
-- changes under its iteration; the AMQPChannelError, which the relay catches and Publisher does not;
-- the dashboard and the notification-service, which only read and print; and the log lines.
pub mod Base
pub mod Pyevents
pub mod Services
pub mod Infra
pub mod System
