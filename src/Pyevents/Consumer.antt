-- ===== src/Pyevents/Consumer.antt =====
-- libs/pyevents/pyevents/consumer.py: what the consume loop does with one delivery. The JSON parser
-- (`ok none` for a JSONDecodeError, `err` for another exception), Python's `int` of a text and the text
-- of a container are given as functions.
pub mod Settle
pub mod Life
pub mod Attempts
pub mod Unretried
use Prim.Native.String.{◌++◌ as text_append}
use event_driven_demo.Base.{
  ℕ, zero, suc, ◌+◌, String, Bool, true, false, Option, none, some, List, [], ◌∷◌, str_eq, leb,
  if◌then◌else◌,
}
use event_driven_demo.Base.Text.{str}
use event_driven_demo.Pyevents.Json.{
  Json, null, flag, num, string, arr, obj, Items, nil, cons, Dict, empty, item, get, str_json,
}
use event_driven_demo.Pyevents.Effect.{Result, ok, err, type_error, ⊤}

-- What a handler receives.
pub record Message : Type 0 where
  pub routing_key : String
  pub body : Dict
  pub event_id : String
  pub redelivered : Bool
  pub attempt : ℕ

abbrev pub dlx : String
dlx = "orders.dlx"

abbrev pub default_max_attempts : ℕ
default_max_attempts = 3

abbrev pub retry_count_key : String
retry_count_key = "x-retry-count"

abbrev pub original_rk_key : String
original_rk_key = "x-original-routing-key"

-- A delivery: `method`, `properties` and the raw body. No headers are an empty dict.
pub record Delivery : Type 0 where
  pub routing_key : String
  pub redelivered : Bool
  pub headers : Dict
  pub message_id : Option String
  pub kind : Option String
  pub raw : String

-- What the callback asks of the channel; a republished message is persistent JSON.
pub data Call : Type 0 where
  publish :
      (exchange routing_key raw : String) (message_id kind : Option String) (headers : Dict) → Call
  ack : Call

-- `d[k] = v`
abbrev pub set_item : String → Json → Dict → Dict
set_item k v empty = item k v empty
set_item k v (item j w d) = if str_eq j k then item j v d else item j w (set_item k v d)

abbrev pub is_truthy : Json → Bool
is_truthy null = false
is_truthy (flag b) = b
is_truthy (num zero) = false
is_truthy (num (suc n)) = true
is_truthy (string s) = if str_eq s "" then false else true
is_truthy (arr nil) = false
is_truthy (arr (cons v vs)) = true
is_truthy (obj empty) = false
is_truthy (obj (item k v d)) = true

module _ (loads : String → Result (Option Json)) (int_of : String → Result ℕ)
    (repr : Json → String) where
  abbrev int_value : Option Json → Result ℕ
  int_value (some (num n)) = ok n
  int_value (some (flag true)) = ok 1
  int_value (some (string s)) = int_of s
  int_value _ = ok 0

  -- `_int_header(headers, key)`
  abbrev pub int_header : Dict → String → Result ℕ
  int_header headers key = int_value (get key headers)

  -- `headers.get(…) or method.routing_key`, as a text.
  abbrev original_of : Option Json → String → String
  original_of none rk = rk
  original_of (some v) rk = if is_truthy v then str_json repr v else rk

  abbrev or_empty : Option String → String
  or_empty none = ""
  or_empty (some s) = s

  abbrev event_id_of : Option Json → Option String → String
  event_id_of none message_id = or_empty message_id
  event_id_of (some v) message_id = str_json repr v

  unfoldable pub message_of : Delivery → Dict → ℕ → Message
  message_of d body retry_count = record {
    routing_key = original_of (get original_rk_key d.headers) d.routing_key;
    body = body;
    event_id = event_id_of (get "event_id" body) d.message_id;
    redelivered = d.redelivered;
    attempt = retry_count + 1;
  }

  -- `_republish`
  abbrev republish : String → Delivery → Dict → Call
  republish target_key d headers = publish dlx target_key d.raw d.message_id d.kind headers

  module _ {S : Type 0} (queue : String) (handler : Message → S → Result ⊤ × S) (max_attempts : ℕ)
      (retry : Bool) where
    after_handler : Delivery → ℕ → Result ⊤ → List Call
    after_handler d retry_count (ok _) = ack ∷ []
    after_handler d retry_count (err _) =
        let original = original_of (get original_rk_key d.headers) d.routing_key in
        let headers =
          set_item original_rk_key (string original)
            (set_item retry_count_key (num (retry_count + 1)) d.headers) in
        if retry
        then republish
            (text_append queue (if leb max_attempts (retry_count + 1) then ".dead" else ".retry")) d
            headers
          ∷ ack
          ∷ []
        else ack ∷ []

    handle : Delivery → Dict → Result ℕ → S → Result (List Call) × S
    unfolding message_of after_handler
    handle d body (err e) s = (err e, s)
    handle d body (ok retry_count) s =
        let (r, s') = handler (message_of d body retry_count) s in
        (ok (after_handler d retry_count r), s')

    -- Only a JSONDecodeError, `ok none`, is caught; a body that is no dict has no `get`. Any other
    -- exception of the parser, such as the UnicodeDecodeError, and that of `get` leave the callback.
    parsed : Delivery → Result (Option Json) → S → Result (List Call) × S
    unfolding handle
    parsed d (err e) s = (err e, s)
    parsed d (ok none) s = (
      ok (if retry then republish (text_append queue ".dead") d d.headers ∷ ack ∷ [] else ack ∷ []),
      s,
    )
    parsed d (ok (some (obj body))) s = handle d body (int_header d.headers retry_count_key) s
    parsed d (ok (some v)) s = (err type_error, s)

    -- `_on_message`: the calls on the channel, or the exception that leaves the callback.
    unfoldable pub on_message : Delivery → S → Result (List Call) × S
    unfolding parsed
    on_message d s = parsed d (loads d.raw) s
