-- ===== src/Services/Observer/Queues.antt =====
-- `GET /queues` of services/observer/app/api.py. What the broker's management API answers is given.
use event_driven_demo.Base.{
  ℕ, ◌+◌, ◌≡◌, refl, String, str_eq, if◌then◌else◌, none, some, List, [], ◌∷◌,
}
use event_driven_demo.Pyevents.Json.{
  Json, num, string, arr, obj, Items, nil, cons, Dict, empty, item, get,
}
use event_driven_demo.Pyevents.Effect.{Result, ok, err, key_error, type_error, Action, ◌>>=◌, lift}

-- `q[key]`
abbrev pub item_of : String → Dict → Result Json
item_of k q = elim (get k q) [ none ↦ err key_error | some v ↦ ok v ]

-- `q.get(key, 0)`
abbrev pub get_or_zero : String → Dict → Json
get_or_zero k q = elim (get k q) [ none ↦ num 0 | some v ↦ v ]

-- What is answered for one queue.
abbrev pub queue_row : Json → Result Dict
queue_row (obj q) = elim (item_of "name" q) [
  | err e ↦ err e
  | ok name ↦ ok (
      item "name" name (
        item "ready" (get_or_zero "messages_ready" q) (
          item "unacked" (get_or_zero "messages_unacknowledged" q)
            (item "consumers" (get_or_zero "consumers" q) empty))))
]
queue_row _ = err type_error

-- The comprehension over the queues; it stops at the first exception.
abbrev pub queue_rows : Items → Result (List Dict)
queue_rows nil = ok []
queue_rows (cons q qs) =
    let rest = queue_rows qs in
    elim (queue_row q) [
      | err e ↦ err e
      | ok row ↦ elim rest [ err e ↦ err e | ok rows ↦ ok (row ∷ rows) ]
    ]

-- `for q in resp.json()`: the items of anything but a list, where it has any, are texts.
abbrev rows_of : Json → Result (List Dict)
rows_of (arr qs) = queue_rows qs
rows_of (obj empty) = ok []
rows_of (string s) = if str_eq s "" then ok [] else err type_error
rows_of _ = err type_error

-- `queues`: the request with its `raise_for_status`, and then the rows.
unfoldable pub queues : {W : Type 0} → Action W Json → Action W (List Dict)
queues fetch = fetch >>= λ v. lift (rows_of v)

-- A row has the numbers of its queue, 0 for those that the API leaves out.
queue_example :
    queues {W = ℕ}
      (λ w. (
        ok (
            arr (
              cons
                (obj (item "messages_ready" (num 4) (item "name" (string "order.q") empty)))
                nil)),
        w + 1,
      ))
      0
    ≡ (
      ok (
          item "name"
            (string "order.q")
            (item "ready" (num 4) (item "unacked" (num 0) (item "consumers" (num 0) empty)))
          ∷ []),
      1,
    )
unfolding queues
queue_example = refl

-- A queue without a name ends the request.
nameless_example : queues {W = ℕ} (λ w. (ok (arr (cons (obj empty) nil)), w)) 0 ≡ (err key_error, 0)
unfolding queues
nameless_example = refl
