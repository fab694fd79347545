-- ===== src/Services/Payment/Ledger.antt =====
-- The ledger of services/payment-service/app/__main__.py against the rows of `payments`.
use Prim.Native.String.{◌++◌ as text_append}
use event_driven_demo.Base.{
  ℕ, ◌+◌, ◌≡◌, refl, subst, inl, inr, String, Bool, true, false, Option, none, some, [], ◌∷◌, arith,
  ◌==◌, elem, if◌then◌else◌, Bool-cases,
}
use event_driven_demo.Base.Int.{ℤ, pos, ◌+ℤ◌, ◌-ℤ◌, int_laws}
use event_driven_demo.Base.Text.{str}
use event_driven_demo.Base.Table.{
  Table, find, insert_new, delete, IsKeyed, find-delete, find-insert_new, delete_absent,
  delete-insert_new, insert_new-IsKeyed, delete-IsKeyed,
}
use event_driven_demo.Pyevents.Effect.{ok, item_num, get_num}
use event_driven_demo.Pyevents.Consumer.{Message}
use event_driven_demo.Services.Payment.{Payments, charge, refund}

abbrev pub charged : Table ℕ → ℕ
charged [] = 0
charged ((o, cents) ∷ t) = cents + charged t

abbrev cents_of : Option ℕ → ℕ
cents_of none = 0
cents_of (some n) = n

charged-delete :
    (o : ℕ) (t : Table ℕ) → IsKeyed t → charged (delete o t) + cents_of (find o t) ≡ charged t
charged-delete o [] k = refl
charged-delete o ((j, n) ∷ t) k = elim (Bool-cases (j == o)) [
  | inl e ↦
      let at_o : j ≡ o = ground arith in
      let gone : find o t ≡ none = subst (λ x. find x t ≡ none) at_o k.0 in
      rw (e, delete_absent o t gone) (omega arith)
  | inr e ↦ rw e (omega (arith, charged-delete o t k.1))
]

charged-insert_new :
    (o n : ℕ) (t : Table ℕ) → find o t ≡ none → charged (insert_new o n t) ≡ n + charged t
charged-insert_new o n t h = ground arith

pub there_and_back : (t : ℤ) (n : ℕ) → t +ℤ pos n -ℤ pos n ≡ t
there_and_back t n = omega int_laws

gone : (o : ℕ) (t : Table ℕ) → find o (delete o t) ≡ none
gone o t = ground (arith, find-delete o o t)

-- A charge and then a refund of the same amount leave the ledger and the payments as they were.
charge_then_refund :
    (o amount : ℕ) (d : Payments)
    → find o d.tables.payments ≡ none
    → (refund o amount (charge false o amount d).1).1.tables ≡ d.tables
unfolding charge refund
charge_then_refund o amount d absent = λ i. record {
  payments = delete-insert_new o amount d.tables.payments absent i;
  total_charged_cents = there_and_back d.tables.total_charged_cents amount i;
}

-- A refund takes its amount off the ledger also where the order was never charged: the payments
-- stay, the ledger falls.
pub refund_uncharged :
    (o amount : ℕ) (d : Payments)
    → find o d.tables.payments ≡ none
    → ((refund o amount d).1.tables.payments ≡ d.tables.payments)
      × ((refund o amount d).1.tables.total_charged_cents
          ≡ d.tables.total_charged_cents -ℤ pos amount)
unfolding refund
refund_uncharged o amount d absent = (delete_absent o d.tables.payments absent, refl)

-- A refund that overtakes its charge leaves the order with a payment.
pub refund_then_charge :
    (o amount : ℕ) (d : Payments)
    → find o d.tables.payments ≡ none
    → let after = (charge false o amount (refund o amount d).1).1.tables in
      (find o after.payments ≡ some amount)
      × (after.total_charged_cents ≡ d.tables.total_charged_cents)
unfolding refund charge
refund_then_charge o amount d absent = (
  rw (find-insert_new o o amount (delete o d.tables.payments) (gone o d.tables.payments))
      (ground arith),
  omega int_laws,
)

abbrev pub charge_id : ℕ → String
charge_id o = text_append "cmd.payment.charge" (text_append ":" (str o))

-- The ledger is the sum of the payments, and each payment's command has been processed.
pub record Booked (d : Payments) : Type 0 where
  pub books : d.tables.total_charged_cents ≡ pos (charged d.tables.payments)
  pub keyed : IsKeyed d.tables.payments
  pub known :
      (o : ℕ) (n : ℕ) → find o d.tables.payments ≡ some n → elem (charge_id o) d.processed ≡ true

-- The command names its order in its event id, and a refund is of a payment that was made.
pub record IsProper (msg : Message) (d : Payments) : Type 0 where
  pub named :
      msg.routing_key ≡ "cmd.payment.charge"
      → (o : ℕ) → item_num "order_id" msg.body ≡ ok o
      → msg.event_id ≡ charge_id o
  pub paid :
      msg.routing_key ≡ "cmd.payment.refund"
      → elem msg.event_id d.processed ≡ false
      → (o n : ℕ) → item_num "order_id" msg.body ≡ ok o
      → get_num "amount_cents" 0 msg.body ≡ ok n
      → find o d.tables.payments ≡ some n

module _ (d : Payments) (b : Booked d) where
  pub charge-Booked :
      (fail : Bool) (o n : ℕ)
      → find o d.tables.payments ≡ none
      → elem (charge_id o) d.processed ≡ true
      → Booked (charge fail o n d).1
  unfolding charge
  charge-Booked true o n absent done = record { books = b.books; keyed = b.keyed; known = b.known }
  charge-Booked false o n absent done = record {
    books = rw (b.books, charged-insert_new o n d.tables.payments absent) (omega int_laws);
    keyed = insert_new-IsKeyed o n d.tables.payments b.keyed;
    known = λ j m e. known_after j m (rw (find-insert_new j o n _ absent) at e);
  }
    where
      known_after :
          (j m : ℕ)
          → (if o == j then some n else find j d.tables.payments) ≡ some m
          → elem (charge_id j) d.processed ≡ true
      known_after j m e = elim (Bool-cases (o == j)) [
        | inl same ↦
            let at_o : o ≡ j = ground arith in
            subst (λ x. elem (charge_id x) d.processed ≡ true) at_o done
        | inr other ↦ b.known j m (rw other at e)
      ]

  pub refund-Booked : (o n : ℕ) → find o d.tables.payments ≡ some n → Booked (refund o n d).1
  unfolding refund
  refund-Booked o n paid = record {
    books = books_after (charged-delete o d.tables.payments b.keyed);
    keyed = delete-IsKeyed o d.tables.payments b.keyed;
    known = λ j m e. b.known j m (still j m (rw find-delete at e));
  }
    where
      books_after :
          charged (delete o d.tables.payments) + cents_of (find o d.tables.payments)
            ≡ charged d.tables.payments
          → d.tables.total_charged_cents -ℤ pos n ≡ pos (charged (delete o d.tables.payments))
      books_after h = rw (b.books, ← h, paid) (omega int_laws)

      still :
          (j m : ℕ)
          → (if o == j then none else find j d.tables.payments) ≡ some m
          → find j d.tables.payments ≡ some m
      still j m e = elim (Bool-cases (o == j)) [
        | inl same ↦ cc (rw same at e)
        | inr other ↦ rw other at e
      ]
