-- ===== src/Services/Observer/Stats/Consumed.antt =====
-- What `snapshot` of services/observer/app/stats.py says of the stock.
use event_driven_demo.Base.{
  ℕ, ◌≡◌, refl, ap, ◌≢◌, ◌⊎◌, inl, inr, String, Bool, true, false, List, [], ◌∷◌, arith, All,
  length, Bool-cases, Option-cases, ◌==◌, str_eq, if◌then◌else◌,
}
use event_driven_demo.Base.Int.{ℤ, pos, negsuc, pos_part, neg_part, ◌+ℤ◌, eqb_ℤ, int_laws}
use event_driven_demo.Base.Table.{Table, find, insert_new, delete}
use event_driven_demo.Pyevents.Json.{Dict}
use event_driven_demo.Pyevents.Effect.{pure, modify, ◌>>◌}
use event_driven_demo.Pyevents.Db.{idle}
use event_driven_demo.Pyevents.Consumer.{Message}
use event_driven_demo.Services.Inventory.{
  Reservation, Inventory, InventoryState, widget, reply, reserve, release, work, handler, qty_of,
  change_stock,
}
use event_driven_demo.Services.Inventory.Keeps.{handler_keeps}
use event_driven_demo.Services.Inventory.Stock.{held}
use event_driven_demo.Services.Inventory.Conserved.{IsNamed, run, full_stock, stock_conserved}
use event_driven_demo.Services.Observer.Stats.{
  Dsn, Sql, inventory_db, totals, Databases, snapshot, consumed, one,
}

-- Every reservation is of one unit.
abbrev IsOne : ℕ × Reservation → Type 0
IsOne (o, r) = r.qty ≡ 1

abbrev Ones : Inventory → Type 0
Ones d = All IsOne d.tables.reservations

All-delete : (o : ℕ) (t : Table Reservation) → All IsOne t → All IsOne (delete o t)
All-delete o [] h = tt
All-delete o ((j, r) ∷ t) (h, hs) = elim (Bool-cases (j == o)) [
  | inl e ↦ rw e (All-delete o t hs)
  | inr e ↦ rw e (h, All-delete o t hs)
]

All-insert_new :
    (o : ℕ) (r : Reservation) (t : Table Reservation)
    → r.qty ≡ 1
    → All IsOne t
    → All IsOne (insert_new o r t)
All-insert_new o r t h hs = elim (Option-cases (find o t)) [
  | inl e ↦ rw (insert_new, e) (h, hs)
  | inr (q, e) ↦ rw (insert_new, e) hs
]

reserve-Ones :
    (fail silent : Bool) (o : ℕ) (d : Inventory)
    → Ones d
    → Ones (reserve fail silent o widget 1 d).1
unfolding reserve reply
reserve-Ones true silent o d h = h
reserve-Ones false true o d h = All-insert_new o _ d.tables.reservations refl h
reserve-Ones false false o d h = All-insert_new o _ d.tables.reservations refl h

put_back-Ones :
    (nothing : Bool) (f : Inventory → Inventory) (o : ℕ) (extra : Dict) (d : Inventory)
    → (f d).tables.reservations ≡ d.tables.reservations
    → Ones d
    → Ones
        (((if nothing then pure tt else modify f) >> reply o "reply.inventory.released" extra) d).1
unfolding reply
put_back-Ones true f o extra d same h = h
put_back-Ones false f o extra d same h = rw same h

release-Ones : (o : ℕ) (d : Inventory) → Ones d → Ones (release o widget d).1
unfolding release
release-Ones o d h =
    put_back-Ones _
      (λ e. record e {
        tables = record e.tables {
          stock =
              change_stock widget (λ q. q +ℤ pos (qty_of (find o d.tables.reservations)))
                e.tables.stock;
        };
      })
      o _ (record d { tables = record d.tables { reservations = delete o d.tables.reservations } })
      refl (All-delete o d.tables.reservations h)

work-Ones :
    (fail silent : Bool) (cmd : String) (o : ℕ) (d : Inventory)
    → Ones d
    → Ones (work fail silent cmd o d).1
unfolding work
work-Ones fail silent cmd o d h = elim (Bool-cases (str_eq cmd "cmd.inventory.reserve")) [
  | inl e ↦ rw e (reserve-Ones fail silent o d h)
  | inr e ↦ rw e (elim (Bool-cases (str_eq cmd "cmd.inventory.release")) [
    | inl f ↦ rw f (release-Ones o d h)
    | inr f ↦ rw f h
  ])
]

run-Ones : (ms : List (InventoryState × Message)) (d : Inventory) → Ones d → Ones (run ms d)
unfolding run
run-Ones [] d h = h
run-Ones ((s, msg) ∷ rest) d h =
    run-Ones rest (handler s msg (idle d)).1.committed
      (handler_keeps Ones s msg d (λ k. k) (work-Ones s.fail s.silent msg.routing_key) h)

held-Ones : (t : Table Reservation) → All IsOne t → held t ≡ length t
held-Ones [] h = refl
held-Ones ((o, r) ∷ t) (h, hs) = omega (arith, h, held-Ones t hs)

-- What is consumed, of a level on the shelf with `n` units reserved.
abbrev Shows : ℕ → ℤ → Type 0
Shows n z = ((n ≢ 100000) × (z ≡ pos n)) ⊎ ((n ≡ 100000) × (z ≡ pos 0))

is_zero : (z : ℤ) → eqb_ℤ z (pos 0) ≡ true → z ≡ pos 0
is_zero (pos n) e = ap pos (ground arith)
is_zero (negsuc n) e = absurd (ground arith)

not_zero : (z : ℤ) → eqb_ℤ z (pos 0) ≡ false → z ≢ pos 0
not_zero (pos n) e h = absurd (ground arith)
not_zero (negsuc n) e h = cc

consumed-Shows : (level : ℤ) (n : ℕ) → level +ℤ pos n ≡ pos 100000 → Shows n (consumed level)
consumed-Shows level n h =
    let above = ap pos_part h in
    let below = ap neg_part h in
    elim (Bool-cases (eqb_ℤ level (pos 0))) [
      | inl e ↦
          let up = ap pos_part (is_zero level e) in
          let down = ap neg_part (is_zero level e) in
          rw e (inr (omega (int_laws, above, below, up, down), refl))
      | inr e ↦ rw e (
          inl (
            (λ full. not_zero level e (omega (int_laws, above, below, full))),
            omega (int_laws, above, below),
          ))
    ]

-- While the inventory's database answers, after any deliveries of commands with their proper event ids
-- to inventory-service, the snapshot's stock_consumed is the number of reservations, unless the stock
-- is used up: then the reservations are 100000 and stock_consumed is 0.
pub snapshot_consumed :
    (answers : Dsn → Sql → Bool) (db : Databases) (ms : List (InventoryState × Message))
    → answers inventory_db totals ≡ true
    → db.inventory ≡ run ms full_stock
    → All (λ m. IsNamed m.1) ms
    → let snap = snapshot answers db in
      ((snap.reservations ≢ 100000) × (snap.stock_consumed ≡ pos snap.reservations))
      ⊎ ((snap.reservations ≡ 100000) × (snap.stock_consumed ≡ pos 0))
unfolding snapshot one
snapshot_consumed answers db ms up same named =
    let (level, on_shelf, conserved) = stock_conserved ms named in
    let d = run ms full_stock in
    let all : held d.tables.reservations ≡ length d.tables.reservations =
      held-Ones d.tables.reservations (run-Ones ms full_stock tt) in
    rw (up, same, on_shelf)
      (consumed-Shows level (length d.tables.reservations) (rw all at conserved))
