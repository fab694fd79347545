-- ===== src/System/Typed.antt =====
-- What the body of a message has to hold so that its receivers can read it.
pub mod Services
pub mod Handlers
pub mod Orchestrator
use Prim.Native.String.{◌++◌ as text_append}
use event_driven_demo.Base.{
  ℕ, ◌≡◌, refl, sym, ap, ◌∙◌, inl, inr, String, Bool, true, false, Option, none, some, List, [],
  ◌∷◌, ◌++◌, All, All-append, str_eq, if◌then◌else◌, arith, Bool-cases,
}
use event_driven_demo.Base.Text.{str}
use event_driven_demo.Base.Text.Decode.{before, after, read}
use event_driven_demo.Pyevents.Json.{Json, num, string, Dict, empty, item, get}
use event_driven_demo.Pyevents.Effect.{
  Result, ok, err, ⊤, Action, pure, modify, lift, ◌>>=◌, ◌>>◌, item_num, get_num,
}
use event_driven_demo.Pyevents.Db.{OutboxRow, Store}
use event_driven_demo.Pyevents.Outbox.{stage_event}
use event_driven_demo.Services.Inventory.Stock.{reserve_id}

-- The event id stands in the body too; the body names an order; an amount is a number where there is
-- one; an `order.placed` has a total, and the id of any other event tells its routing key and order.
pub record Typed (row : OutboxRow) : Type 0 where
  pub order : ℕ
  pub amount : ℕ
  pub identified : get "event_id" row.body ≡ some (string row.event_id)
  pub ordered : get "order_id" row.body ≡ some (num order)
  pub priced : get_num "amount_cents" 0 row.body ≡ ok amount
  pub totalled :
      str_eq row.routing_key "order.placed" ≡ true
      → (total : ℕ) × (item_num "total_cents" row.body ≡ ok total)
  pub labelled :
      str_eq row.routing_key "order.placed" ≡ false
      → (before row.event_id ≡ row.routing_key) × (read 0 (after row.event_id) ≡ order)
  pub named :
      str_eq row.routing_key "cmd.inventory.reserve" ≡ true → row.event_id ≡ reserve_id order

abbrev pub AllTyped : {S : Type 0} → Store S → Type 0
AllTyped d = All Typed d.outbox

-- An action that stages typed messages only, whether it returns or raises.
abbrev pub Types : {S A : Type 0} → Action (Store S) A → Type 0
Types {S} m = (d : Store S) → AllTyped d → AllTyped (m d).1

module _ {S : Type 0} where
  pub Types-bind :
      {A B : Type 0} (m : Action (Store S) A) (k : A → Action (Store S) B)
      → Types m
      → ((a : A) → Types (k a))
      → Types (m >>= k)
  Types-bind {A} {B} m k h hk d t = by_result (m d) (h d t)
    where
      by_result : (y : Result A × Store S) → AllTyped y.1 → AllTyped (((λ _. y) >>= k) d).1
      by_result (ok a, d') u = hk a d' u
      by_result (err e, d') u = u

  pub Types-if :
      {A : Type 0} (b : Bool) (m n : Action (Store S) A)
      → Types m
      → Types n
      → Types (if b then m else n)
  Types-if true m n h k = h
  Types-if false m n h k = k

  pub stage-Types :
      (event_id routing_key : String) (body : Dict)
      → ((id : ℕ)
          → Typed (record {
            id = id;
            event_id = event_id;
            routing_key = routing_key;
            body = body;
            published = false;
          }))
      → Types {S = S} (stage_event event_id routing_key body)
  unfolding stage_event
  stage-Types event_id routing_key body h d t = All-append Typed d.outbox _ t (h d.next_id, tt)

-- The body of a command or a reply, with no total and no reservation to name.
pub body-Typed :
    (id order_id amount : ℕ) (event_id routing_key : String) (body : Dict)
    → get_num "amount_cents" 0 body ≡ ok amount
    → str_eq routing_key "order.placed" ≡ false
    → (before event_id ≡ routing_key) × (read 0 (after event_id) ≡ order_id)
    → (str_eq routing_key "cmd.inventory.reserve" ≡ true → event_id ≡ reserve_id order_id)
    → Typed (record {
      id = id;
      event_id = event_id;
      routing_key = routing_key;
      body = item "event_id" (string event_id) (item "order_id" (num order_id) body);
      published = false;
    })
body-Typed id order_id amount event_id routing_key body priced other label named = record {
  order = order_id;
  amount = amount;
  identified = refl;
  ordered = refl;
  priced = priced;
  totalled = λ e. cc (e, other);
  labelled = λ _. label;
  named = named;
}
