-- ===== src/Services/Observer/Stats.antt =====
-- services/observer/app/stats.py: the numbers that the dashboard shows of the services' databases.
pub mod Consumed
use event_driven_demo.Base.{
  ℕ, suc, ◌+◌, Bool, true, false, Option, none, some, String, List, [], ◌∷◌, ◌&&◌, ◌==◌, not,
  length, take, reverse, map, count_if, str_eq, if◌then◌else◌,
}
use event_driven_demo.Base.Int.{ℤ, pos, ◌-ℤ◌, eqb_ℤ}
use event_driven_demo.Base.Table.{Table}
use event_driven_demo.Pyevents.Db.{OutboxRow, Store}
use event_driven_demo.Pyevents.Saga.{
  Orch, Saga, SagaState, LogRow, started, charged, reserved, completed, compensating, cancelling,
  cancelled, state_text,
}
use event_driven_demo.Services.Order.{Orders, OrderRow, Status}
use event_driven_demo.Services.Payment.{Payments}
use event_driven_demo.Services.Inventory.{Inventory, widget}
use event_driven_demo.Services.Inventory.Stock.{lookup}
use event_driven_demo.Services.Shipping.{Shipping}

-- The databases, by the keys of `DSNS`, and the orchestrator's.
pub data Dsn : Type 0 where
  order_db payment_db inventory_db shipping_db orchestrator_db : Dsn

-- The statements that are run on a database.
pub data Sql : Type 0 where
  totals marks waiting_rows states recent_log : Sql

pub record Databases : Type 0 where
  pub order : Orders
  pub payment : Payments
  pub inventory : Inventory
  pub shipping : Shipping
  pub orchestrator : Orch

-- `status = …`
abbrev status_eq : Status → Status → Bool
status_eq Status.pending Status.pending = true
status_eq Status.shipped Status.shipped = true
status_eq Status.cancelled Status.cancelled = true
status_eq _ _ = false

-- … FILTER (WHERE status = …)
abbrev pub has_status : Status → ℕ × OrderRow → Bool
has_status status (o, r) = status_eq r.status status

-- SELECT coalesce(sum(total_cents) FILTER (WHERE …), 0)
abbrev pub sum_cents : (ℕ × OrderRow → Bool) → Table OrderRow → ℕ
sum_cents p [] = 0
sum_cents p (row ∷ t) = (if p row then row.1.total_cents else 0) + sum_cents p t

-- SELECT count(*) FROM outbox WHERE published_at IS NULL
abbrev pub count_unpublished : (S : Type 0) → Store S → ℕ
count_unpublished S d = count_if (λ row. not row.published) d.outbox

-- What `snapshot` returns.
pub record Snapshot : Type 0 where
  pub orders : ℕ
  pub orders_total_cents : ℕ
  pub shipped_orders : ℕ
  pub cancelled_orders : ℕ
  pub shipped_total_cents : ℕ
  pub payment_rows : ℕ
  pub payment_total_cents : ℤ
  pub reservations : ℕ
  pub stock_consumed : ℤ
  pub shipments : ℕ
  pub processed_events : List (Dsn × ℕ)
  pub outbox_pending : List (Dsn × ℕ)
  pub consistent : Bool

abbrev pub or_zero : Option ℕ → ℕ
or_zero none = 0
or_zero (some n) = n

abbrev pub or_zero_ℤ : Option ℤ → ℤ
or_zero_ℤ none = pos 0
or_zero_ℤ (some z) = z

-- `100000 - stock_qty if stock_qty else 0`
abbrev pub consumed : ℤ → ℤ
consumed stock_qty = if eqb_ℤ stock_qty (pos 0) then pos 0 else pos 100000 -ℤ stock_qty

-- The column `qty` of the stock row, where there is a row.
abbrev pub and_then : {A B : Type 0} → Option A → (A → Option B) → Option B
and_then none f = none
and_then (some a) f = f a

-- Which statements succeed: a service may be down, or may not have created its tables yet.
module _ (answers : Dsn → Sql → Bool) where
  -- `_one`
  unfoldable pub one : {A : Type 0} → Dsn → Sql → A → Option A
  one dsn sql row = if answers dsn sql then some row else none

  -- `_all`
  unfoldable pub all : {A : Type 0} → Dsn → Sql → List A → List A
  all dsn sql rows = if answers dsn sql then rows else []

  -- The same count in each of the databases of `DSNS`.
  abbrev pub per_service : Sql → ((S : Type 0) → Store S → ℕ) → Databases → List (Dsn × ℕ)
  per_service sql count db =
      (order_db, or_zero (one order_db sql (count _ db.order)))
      ∷ (payment_db, or_zero (one payment_db sql (count _ db.payment)))
      ∷ (inventory_db, or_zero (one inventory_db sql (count _ db.inventory)))
      ∷ (shipping_db, or_zero (one shipping_db sql (count _ db.shipping)))
      ∷ []

  unfoldable pub snapshot : Databases → Snapshot
  unfolding one
  snapshot db =
      let rows = db.order.tables.orders in
      let orders : Option (Table OrderRow) = one order_db totals rows in
      let payment = one payment_db totals db.payment.tables in
      let inventory = one inventory_db totals db.inventory.tables in
      let shipping = one shipping_db totals db.shipping.tables in
      let count_of : (ℕ × OrderRow → Bool) → ℕ =
        λ p. or_zero (and_then orders (λ t. some (count_if p t))) in
      let sum_of : (ℕ × OrderRow → Bool) → ℕ =
        λ p. or_zero (and_then orders (λ t. some (sum_cents p t))) in
      let shipped = count_of (has_status Status.shipped) in
      let shipped_total = sum_of (has_status Status.shipped) in
      let pay_rows = or_zero (and_then payment (λ t. some (length t.payments))) in
      let pay_total = or_zero_ℤ (and_then payment (λ t. some t.total_charged_cents)) in
      let resv = or_zero (and_then inventory (λ t. some (length t.reservations))) in
      let stock_qty = or_zero_ℤ (and_then inventory (λ t. lookup widget t.stock)) in
      let ship_rows = or_zero (and_then shipping (λ t. some (length t.shipments))) in
      record {
        orders = count_of (λ row. true);
        orders_total_cents = sum_of (λ row. true);
        shipped_orders = shipped;
        cancelled_orders = count_of (has_status Status.cancelled);
        shipped_total_cents = shipped_total;
        payment_rows = pay_rows;
        payment_total_cents = pay_total;
        reservations = resv;
        stock_consumed = consumed stock_qty;
        shipments = ship_rows;
        processed_events = per_service marks (λ S d. length d.processed) db;
        outbox_pending = per_service waiting_rows count_unpublished db;
        consistent =
            ((shipped == pay_rows) && ((pay_rows == resv) && (resv == ship_rows)))
            && eqb_ℤ (pos shipped_total) pay_total;
      }

  -- SELECT state, count(*) … GROUP BY state ORDER BY state, among the given states.
  abbrev group_by : List SagaState → Table Saga → List (String × ℕ)
  group_by [] sagas = []
  group_by (s ∷ ss) sagas =
      let n = count_if (λ row. str_eq (state_text row.1.state) (state_text s)) sagas in
      let rest = group_by ss sagas in if n == 0 then rest else (state_text s, n) ∷ rest

  -- All states, in the order of their names.
  abbrev all_states : List SagaState
  all_states = cancelled ∷ cancelling ∷ charged ∷ compensating ∷ completed ∷ reserved ∷ started ∷ []

  -- `saga_snapshot`: the states, and the last 60 rows of the log, newest first.
  unfoldable pub saga_snapshot : Databases → List (String × ℕ) × List LogRow
  unfolding all
  saga_snapshot db = (
    all orchestrator_db states (group_by all_states db.orchestrator.tables.sagas),
    all orchestrator_db recent_log (take 60 (reverse db.orchestrator.tables.saga_log)),
  )
