-- ===== src/Pyevents/Examples.antt =====
-- The theorems on libs/pyevents/pyevents/, each at one concrete input.
use event_driven_demo.Base.{
  inl, ◌++◌, ◌==◌, List, ℕ, ◌+◌, ◌≡◌, refl, ◌⊎◌, String, true, false, Option, some, [], ◌∷◌, arith,
}
use event_driven_demo.Pyevents.Json.{Json, obj, empty}
use event_driven_demo.Pyevents.Effect.{
  Result, ok, err, type_error, unicode_decode_error, ⊤, Action, modify,
}
use event_driven_demo.Pyevents.Db.{OutboxRow, Store, idle, HandleUnit, handle_once}
use event_driven_demo.Pyevents.Db.Once.{Atomic, handle_once-Atomic}
use event_driven_demo.Pyevents.Consumer.{Delivery, ack, on_message}
use event_driven_demo.Pyevents.Consumer.Settle.{
  Handled, Republished, on_message_settles, Ending, on_message_ends,
}
use event_driven_demo.Pyevents.Consumer.Life.{failing, life, DiesAfter}
use event_driven_demo.Pyevents.Consumer.Attempts.{persistent_failure}
use event_driven_demo.Pyevents.Publisher.{Sent}
use event_driven_demo.Pyevents.Outbox.{drain_once}
use event_driven_demo.Pyevents.Outbox.Rows.{Distinct}
use event_driven_demo.Pyevents.Outbox.Relay.{messages, Drained, drain_once-Drained}
use event_driven_demo.Pyevents.Outbox.Drains.{Emptied, turns, turns-Emptied}

abbrev counter : Store ℕ
counter = record { tables = 0; processed = []; outbox = []; next_id = 1 }

abbrev count : String → Action (Store ℕ) ⊤
count event_id = modify λ d. record d { tables = d.tables + 1 }

-- Counts, and then raises.
abbrev broken : HandleUnit → Action (Store ℕ) ⊤
broken u d = (err type_error, record d { tables = d.tables + 1 })

handle_once-Atomic_example :
    Atomic "e"
      (λ b. broken (record { first_time = b }))
      (idle counter)
      (handle_once "e" broken (idle counter))
handle_once-Atomic_example = handle_once-Atomic "e" broken (idle counter)

abbrev loads : String → Result (Option Json)
loads raw = ok (some (obj empty))

abbrev int_of : String → Result ℕ
int_of s = err type_error

abbrev repr : Json → String
repr v = ""

abbrev delivery : Delivery
delivery = record {
  routing_key = "order.placed";
  redelivered = false;
  headers = empty;
  message_id = some "id";
  kind = some "order.placed";
  raw = "{}";
}

on_message_settles_example :
    (((ack ∷ []) ≡ ack ∷ []) × Handled loads int_of repr "q" (λ m s. (ok tt, s + 1)) 3 delivery 0 1)
    ⊎ Republished loads int_of repr "q" (λ m s. (ok tt, s + 1)) 3 delivery (ack ∷ [])
unfolding on_message
on_message_settles_example =
    on_message_settles loads int_of repr "q" (λ m s. (ok tt, s + 1)) 3 delivery 0 1 (ack ∷ []) refl

-- Bytes that are no UTF-8.
abbrev undecoded : String → Result (Option Json)
undecoded raw = err unicode_decode_error

on_message_ends_example :
    Ending undecoded int_of repr "q"
      (λ m s. (ok tt, s + 1))
      3
      true
      delivery
      0
      (on_message undecoded int_of repr "q" (λ m s. (ok tt, s + 1)) 3 true delivery 0)
on_message_ends_example =
    on_message_ends undecoded int_of repr "q" (λ m s. (ok tt, s + 1)) 3 true delivery 0

persistent_failure_example :
    DiesAfter 3
      (("order.placed", 1) ∷ ("order.placed", 2) ∷ ("order.placed", 3) ∷ [])
      (life loads int_of repr "q" (failing type_error) 3 3 delivery [])
persistent_failure_example =
    persistent_failure loads int_of repr "q" "order.placed" type_error (λ e. cc) 3 delivery empty
      (omega arith) refl refl refl refl

-- A broker that accepts everything.
abbrev accept : Sent → Action (List Sent) ⊤
accept m ch = (ok tt, ch ++ m ∷ [])

abbrev row : ℕ → String → OutboxRow
row id routing_key = record {
  id = id;
  event_id = routing_key;
  routing_key = routing_key;
  body = empty;
  published = false;
}

abbrev staged : Store ℕ
staged = record {
  tables = 0;
  processed = [];
  outbox = row 1 "a" ∷ row 2 "b" ∷ row 3 "c" ∷ [];
  next_id = 4;
}

staged-Distinct : Distinct staged.outbox
staged-Distinct = (
  ((λ e. omega (arith, e)), ((λ e. omega (arith, e)), tt)),
  (((λ e. omega (arith, e)), tt), (tt, tt)),
)

drain_once-Drained_example :
    Drained
      (λ id. id == 2)
      (λ ch. ch)
      (messages (λ d. "{}") repr true "orders")
      (row 1 "a" ∷ row 3 "c" ∷ [])
      []
      staged
      []
      (drain_once (λ d. "{}") repr accept true "orders" (λ id. id == 2) 50 (idle staged) [])
drain_once-Drained_example =
    drain_once-Drained (λ d. "{}") repr accept true "orders" (λ ch. ch) (λ m ch. inl (refl, refl))
      (λ id. id == 2) 50 staged [] staged-Distinct

turns-Emptied_example :
    Emptied
      (λ id. false)
      (λ ch. ch)
      (messages (λ d. "{}") repr false "orders")
      staged
      []
      (turns (λ d. "{}") repr accept false "orders" (λ ch. (ok tt, ch)) (λ id. false) 2 3 staged [])
turns-Emptied_example =
    turns-Emptied (λ d. "{}") repr accept (λ m ch. refl) false "orders" (λ ch. ch)
      (λ m ch. inl (refl, refl)) (λ ch. (ok tt, ch)) (λ id. false) 1 3 staged [] staged-Distinct
      (omega arith)
