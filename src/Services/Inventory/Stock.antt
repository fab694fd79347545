-- ===== src/Services/Inventory/Stock.antt =====
-- The units of the article that exist, on the shelf or reserved, under the statements of
-- services/inventory-service/app/__main__.py.
use Prim.Native.String.{◌++◌ as text_append}
use event_driven_demo.Base.{
  ℕ, ◌+◌, ◌≡◌, refl, ◌∙◌, ap, subst, inl, inr, String, Bool, true, false, Option, none, some, List,
  [], ◌∷◌, arith, ◌==◌, ==_iff, str_eq, elem, if◌then◌else◌, Bool-cases,
}
use event_driven_demo.Base.Int.{ℤ, pos, ◌+ℤ◌, ◌-ℤ◌, int_laws}
use event_driven_demo.Base.Text.{str}
use event_driven_demo.Base.Table.{
  Table, find, insert_new, delete, IsKeyed, find-delete, find-insert_new, delete_absent,
  insert_new-IsKeyed, delete-IsKeyed,
}
use event_driven_demo.Services.Inventory.{
  Reservation, Inventory, widget, change_stock, qty_of, reserve, release,
}

abbrev pub lookup : String → List (String × ℤ) → Option ℤ
lookup k [] = none
lookup k ((j, q) ∷ rows) = if str_eq j k then some q else lookup k rows

abbrev pub held : Table Reservation → ℕ
held [] = 0
held ((o, r) ∷ t) = r.qty + held t

lookup-change_stock :
    (k : String) (f : ℤ → ℤ) (rows : List (String × ℤ)) (q : ℤ)
    → lookup k rows ≡ some q
    → lookup k (change_stock k f rows) ≡ some (f q)
lookup-change_stock k f [] q h = cc
lookup-change_stock k f ((j, v) ∷ rows) q h = ground (arith, lookup-change_stock k f rows q)

held-delete :
    (o : ℕ) (t : Table Reservation) → IsKeyed t → held (delete o t) + qty_of (find o t) ≡ held t
held-delete o [] k = refl
held-delete o ((j, r) ∷ t) k = elim (Bool-cases (j == o)) [
  | inl e ↦
      let at_o : j ≡ o = ground arith in
      let gone : find o t ≡ none = subst (λ x. find x t ≡ none) at_o k.0 in
      rw (e, delete_absent o t gone) (omega arith)
  | inr e ↦ rw e (omega (arith, held-delete o t k.1))
]

abbrev pub reserve_id : ℕ → String
reserve_id o = text_append "cmd.inventory.reserve" (text_append ":" (str o))

held-insert_new :
    (o : ℕ) (r : Reservation) (t : Table Reservation)
    → find o t ≡ none
    → held (insert_new o r t) ≡ r.qty + held t
held-insert_new o r t h = ground arith

-- `total` units of the article exist; each reserved order has had its command processed.
pub record Balanced (total : ℤ) (d : Inventory) : Type 0 where
  pub level : ℤ
  pub on_shelf : lookup widget d.tables.stock ≡ some level
  pub conserved : level +ℤ pos (held d.tables.reservations) ≡ total
  pub keyed : IsKeyed d.tables.reservations
  pub known :
      (o : ℕ) (r : Reservation)
      → find o d.tables.reservations ≡ some r
      → elem (reserve_id o) d.processed ≡ true

take_one : (l : ℤ) (h : ℕ) → (l -ℤ pos 1) +ℤ pos (1 + h) ≡ l +ℤ pos h
take_one l h = omega int_laws

put_back : (l : ℤ) (h n : ℕ) → (l +ℤ pos n) +ℤ pos h ≡ l +ℤ pos (h + n)
put_back l h n = omega int_laws

-- What `reserve` does to the two tables, when the order has no reservation.
module _ (total : ℤ) (o : ℕ) (d : Inventory) (b : Balanced total d) where
  taken :
      (d' : Inventory)
      → find o d.tables.reservations ≡ none
      → elem (reserve_id o) d.processed ≡ true
      → d'.tables.stock ≡ change_stock widget (λ q. q -ℤ pos 1) d.tables.stock
      → d'.tables.reservations
        ≡ insert_new o (record { sku = widget; qty = 1 }) d.tables.reservations
      → d'.processed ≡ d.processed
      → Balanced total d'
  taken d' absent done es er ep = record {
    level = b.level -ℤ pos 1;
    on_shelf = rw es (lookup-change_stock widget _ d.tables.stock b.level b.on_shelf);
    conserved = rw er (
        rw (held-insert_new o _ d.tables.reservations absent)
          (take_one b.level (held d.tables.reservations) ∙ b.conserved));
    keyed = rw er (insert_new-IsKeyed o _ d.tables.reservations b.keyed);
    known = λ j r e. rw ep (known_after j r (rw (find-insert_new j o _ _ absent) at rw er at e));
  }
    where
      known_after :
          (j : ℕ) (r : Reservation)
          → (if o == j
              then some (record { sku = widget; qty = 1 })
              else find j d.tables.reservations)
            ≡ some r
          → elem (reserve_id j) d.processed ≡ true
      known_after j r e = elim (Bool-cases (o == j)) [
        | inl same ↦
            let at_o : o ≡ j = ground arith in
            subst (λ x. elem (reserve_id x) d.processed ≡ true) at_o done
        | inr other ↦ b.known j r (rw other at e)
      ]

  -- The reservation goes, and its quantity is back on the shelf.
  put_on_shelf :
      (d' : Inventory) (f : ℤ → ℤ)
      → f b.level ≡ b.level +ℤ pos (qty_of (find o d.tables.reservations))
      → lookup widget d'.tables.stock ≡ some (f b.level)
      → d'.tables.reservations ≡ delete o d.tables.reservations
      → d'.processed ≡ d.processed
      → Balanced total d'
  put_on_shelf d' f ef es er ep = record {
    level = f b.level;
    on_shelf = es;
    conserved =
        rw (er, ef)
          (put_back b.level (held (delete o d.tables.reservations))
              (qty_of (find o d.tables.reservations))
            ∙ ap (λ n. b.level +ℤ pos n) (held-delete o d.tables.reservations b.keyed)
            ∙ b.conserved);
    keyed = rw er (delete-IsKeyed o d.tables.reservations b.keyed);
    known = λ j r e. rw ep (b.known j r (still j r (rw find-delete at rw er at e)));
  }
    where
      still :
          (j : ℕ) (r : Reservation)
          → (if o == j then none else find j d.tables.reservations) ≡ some r
          → find j d.tables.reservations ≡ some r
      still j r e = elim (Bool-cases (o == j)) [
        | inl same ↦ cc (rw same at e)
        | inr other ↦ rw other at e
      ]

  pub reserve-Balanced :
      (fail silent : Bool)
      → find o d.tables.reservations ≡ none
      → elem (reserve_id o) d.processed ≡ true
      → Balanced total (reserve fail silent o widget 1 d).1
  unfolding reserve
  reserve-Balanced true silent absent done = record {
    level = b.level;
    on_shelf = b.on_shelf;
    conserved = b.conserved;
    keyed = b.keyed;
    known = b.known;
  }
  reserve-Balanced false true absent done = taken _ absent done refl refl refl
  reserve-Balanced false false absent done = taken _ absent done refl refl refl

  pub release-Balanced : Balanced total (release o widget d).1
  unfolding release
  release-Balanced = elim (Bool-cases (qty_of (find o d.tables.reservations) == 0)) [
    | inl e ↦ rw e (put_on_shelf _ (λ l. l) (nothing e) b.on_shelf refl refl)
    | inr e ↦ rw e (
        put_on_shelf _ (λ l. l +ℤ pos (qty_of (find o d.tables.reservations))) refl
          (lookup-change_stock widget _ d.tables.stock b.level b.on_shelf) refl refl)
  ]
    where
      nothing :
          (qty_of (find o d.tables.reservations) == 0) ≡ true
          → b.level ≡ b.level +ℤ pos (qty_of (find o d.tables.reservations))
      nothing e = rw ((==_iff _ 0).0 e) (omega int_laws)
