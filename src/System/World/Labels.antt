-- ===== src/System/World/Labels.antt =====
-- The idempotency guard of libs/pyevents/pyevents/db.py goes by the event id alone: what an id stands for.
use event_driven_demo.Base.{ℕ, ◌≡◌, sym, ap, ◌∙◌, false, some, List, str_eq}
use event_driven_demo.Base.Text.Decode.{before, after, read}
use event_driven_demo.Base.Int.{pos}
use event_driven_demo.Pyevents.Json.{num, get}
use event_driven_demo.Pyevents.Db.{OutboxRow}
use event_driven_demo.System.Switches.{Processes}
use event_driven_demo.System.Typed.{Typed}
use event_driven_demo.System.World.{Service, outbox_of, get_elem?, Step, run}
use event_driven_demo.System.World.Good.{All-elem, staged-Typed, run-Good}
use event_driven_demo.System.World.Handled.{fresh_world, fresh-Good}

-- Whatever orders have been placed, messages delivered, rounds of the watchdog made and switches set,
-- from empty databases: two messages with the same event id, staged by the same service or by two, have
-- the same routing key and are about the same order, unless one of them is an order.placed, whose id is
-- a UUID.
pub same_id :
    (lab : Processes) (ss : List Step) (from from' : Service) (n n' : ℕ) (row row' : OutboxRow)
    → get_elem? (outbox_of from (run ss (fresh_world lab))) n ≡ some row
    → get_elem? (outbox_of from' (run ss (fresh_world lab))) n' ≡ some row'
    → str_eq row.routing_key "order.placed" ≡ false
    → str_eq row'.routing_key "order.placed" ≡ false
    → row.event_id ≡ row'.event_id
    → (row.routing_key ≡ row'.routing_key) × (get "order_id" row.body ≡ get "order_id" row'.body)
same_id lab ss from from' n n' row row' e e' other other' same =
    let w = run ss (fresh_world lab) in
    let g = run-Good (pos 100000) ss (fresh_world lab) (fresh-Good lab) in
    let t = All-elem Typed n (outbox_of from w) row (staged-Typed g from) e in
    let t' = All-elem Typed n' (outbox_of from' w) row' (staged-Typed g from') e' in
    let (key, order) = t.labelled other in
    let (key', order') = t'.labelled other' in
    (
      sym key ∙ ap before same ∙ key',
      t.ordered
          ∙ ap (λ o. some (num o)) (sym order ∙ ap (λ id. read 0 (after id)) same ∙ order')
          ∙ sym t'.ordered,
    )
