-- ===== src/Services/Inventory/Conserved.antt =====
-- No stock is lost: services/inventory-service/app/__main__.py keeps the sum of what is on the shelf and
-- what is reserved, whatever is delivered.
use event_driven_demo.Base.{
  ℕ, ◌≡◌, refl, sym, ap, subst, inl, inr, String, true, false, none, some, List, [], ◌∷◌, arith,
  str_eq, elem, eq_iff, eq_refl, Bool-cases, Option-cases, All,
}
use event_driven_demo.Base.Int.{ℤ, pos, ◌+ℤ◌}
use event_driven_demo.Base.Table.{find}
use event_driven_demo.Pyevents.Effect.{Result, ok, err, item_num}
use event_driven_demo.Pyevents.Db.{idle, once}
use event_driven_demo.Pyevents.Db.Once.{marked, handle_once-Atomic}
use event_driven_demo.Pyevents.Consumer.{Message}
use event_driven_demo.Services.Inventory.{
  run_command, Inventory, InventoryState, widget, work, handler, run_command,
}
use event_driven_demo.Services.Inventory.Stock.{
  lookup, held, reserve_id, Balanced, reserve-Balanced, release-Balanced,
}

-- Every command names its order in its event id, as the orchestrator's `_emit` does.
abbrev pub IsNamed : Message → Type 0
IsNamed msg =
    msg.routing_key ≡ "cmd.inventory.reserve"
    → (o : ℕ) → item_num "order_id" msg.body ≡ ok o
    → msg.event_id ≡ reserve_id o

module _ (total : ℤ) (s : InventoryState) (msg : Message) (d : Inventory)
    (b : Balanced total d) where
  mark-Balanced : Balanced total (marked msg.event_id d)
  mark-Balanced = record {
    level = b.level;
    on_shelf = b.on_shelf;
    conserved = b.conserved;
    keyed = b.keyed;
    known = λ o r e. elem_later (reserve_id o) (b.known o r e);
  }
    where
      elem_later :
          (k : String) → elem k d.processed ≡ true → elem k (msg.event_id ∷ d.processed) ≡ true
      elem_later k h = ground arith

  work-Balanced :
      (o : ℕ)
      → IsNamed msg
      → item_num "order_id" msg.body ≡ ok o
      → elem msg.event_id d.processed ≡ false
      → Balanced total (work s.fail s.silent msg.routing_key o (marked msg.event_id d)).1
  unfolding work
  work-Balanced o named order new =
      elim (Bool-cases (str_eq msg.routing_key "cmd.inventory.reserve")) [
        | inl e ↦
            let id = named ((eq_iff msg.routing_key "cmd.inventory.reserve").0 e) o order in
            rw e (
              reserve-Balanced total o (marked msg.event_id d) mark-Balanced s.fail s.silent
                (fresh id) (done id))
        | inr e ↦ rw e (elim (Bool-cases (str_eq msg.routing_key "cmd.inventory.release")) [
          | inl f ↦ rw f (release-Balanced total o (marked msg.event_id d) mark-Balanced)
          | inr f ↦ rw f mark-Balanced
        ])
      ]
    where
      fresh : msg.event_id ≡ reserve_id o → find o d.tables.reservations ≡ none
      fresh id = elim (Option-cases (find o d.tables.reservations)) [
        | inl absent ↦ absent
        | inr (r, e) ↦ cc (subst (λ k. elem k d.processed ≡ false) id new, b.known o r e)
      ]

      done : msg.event_id ≡ reserve_id o → elem (reserve_id o) (msg.event_id ∷ d.processed) ≡ true
      done id = rw id (rw (eq_refl (reserve_id o)) refl)

  by_order :
      IsNamed msg
      → (r : Result ℕ) → item_num "order_id" msg.body ≡ r
      → Balanced total (run_command s msg r (idle d)).1.committed
  unfolding run_command
  by_order named (err e) order = b
  by_order named (ok o) order =
      elim (handle_once-Atomic msg.event_id (once (work s.fail s.silent msg.routing_key o))
        (idle d)).1 [
          | inl same ↦ subst (Balanced total) (sym same) b
          | inr (new, ran, r) ↦
              subst (Balanced total) (ap (λ p. p.1) ran) (work-Balanced o named order new)
        ]

  pub handler-Balanced : IsNamed msg → Balanced total (handler s msg (idle d)).1.committed
  handler-Balanced named = unfold handler in by_order named (item_num "order_id" msg.body) refl

-- Deliveries one after another, each under the switches of its moment.
unfoldable pub run : List (InventoryState × Message) → Inventory → Inventory
run [] d = d
run ((s, msg) ∷ rest) d = run rest (handler s msg (idle d)).1.committed

run-Balanced :
    (total : ℤ) (ms : List (InventoryState × Message)) (d : Inventory)
    → All (λ m. IsNamed m.1) ms
    → Balanced total d
    → Balanced total (run ms d)
unfolding run
run-Balanced total [] d named b = b
run-Balanced total ((s, msg) ∷ rest) d (n, named) b =
    run-Balanced total rest (handler s msg (idle d)).1.committed named
      (handler-Balanced total s msg d b n)

-- inventory_db as schema.sql makes it.
abbrev pub full_stock : Inventory
full_stock = record {
  tables = record { stock = (widget, pos 100000) ∷ []; reservations = [] };
  processed = [];
  outbox = [];
  next_id = 1;
}

pub full_stock-Balanced : Balanced (pos 100000) full_stock
unfolding ◌+ℤ◌
full_stock-Balanced = record {
  level = pos 100000;
  on_shelf = refl;
  conserved = refl;
  keyed = tt;
  known = λ o r e. cc;
}

-- Stock is conserved: after any deliveries of commands with their proper event ids, in any order, with
-- repeats and under any switches of the failure lab, the units of the article on the shelf and the
-- units reserved are the 100000 of the start together.
pub stock_conserved :
    (ms : List (InventoryState × Message))
    → All (λ m. IsNamed m.1) ms
    → (level : ℤ) × (lookup widget (run ms full_stock).tables.stock ≡ some level)
      × (level +ℤ pos (held (run ms full_stock).tables.reservations) ≡ pos 100000)
stock_conserved ms named =
    let b = run-Balanced (pos 100000) ms full_stock named full_stock-Balanced in
    (b.level, b.on_shelf, b.conserved)
