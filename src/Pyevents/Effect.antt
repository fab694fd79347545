-- ===== src/Pyevents/Effect.antt =====
-- Python code that raises and that changes a database: a result, and actions on a state `D`.
use event_driven_demo.Base.{ℕ, ◌≡◌, refl, ◌⊎◌, inl, inr, String, none, some}
use event_driven_demo.Pyevents.Json.{Json, num, Dict, get}

-- The exceptions that the code meets: a missing key, a value of the wrong type, a refused
-- statement, a database that does not answer, a broken broker connection, a `raise RuntimeError`, a
-- failed `assert`, bytes that are no UTF-8.
pub data Error : Type 0 where
  key_error type_error db_error operational_error amqp_error runtime_error assertion_error
        unicode_decode_error :
      Error

pub data Result {ℓ} (A : Type ℓ) : Type ℓ where
  ok : A → Result A
  err : Error → Result A

abbrev pub ⊤ : Type 0
⊤ = Unit

-- What a cursor does to the database, statement by statement; what was done before a raise stays
-- done until the transaction is rolled back.
abbrev pub Action : Type 0 → Type 0 → Type 0
Action D A = D → Result A × D

module _ {D : Type 0} where
  abbrev pub pure : {A : Type 0} → A → Action D A
  pure a d = (ok a, d)

  abbrev pub raise : {A : Type 0} → Error → Action D A
  raise e d = (err e, d)

  abbrev pub modify : (D → D) → Action D ⊤
  modify f d = (ok tt, f d)

  infixl 5 ◌>>=◌ ◌>>◌
  abbrev pub ◌>>=◌ : {A B : Type 0} → Action D A → (A → Action D B) → Action D B
  ◌>>=◌ m f d = let (r, d') = m d in elim r [ ok a ↦ f a d' | err e ↦ raise e d' ]

  abbrev pub ◌>>◌ : {A B : Type 0} → Action D A → Action D B → Action D B
  m >> k = m >>= λ _. k

  abbrev pub lift : {A : Type 0} → Result A → Action D A
  lift r d = (r, d)

-- A value that the code needs as a number.
abbrev pub as_num : Json → Result ℕ
as_num (num n) = ok n
as_num _ = err type_error

-- `body[key]`, for a number: `KeyError` where it is missing.
abbrev pub item_num : String → Dict → Result ℕ
item_num k d = elim (get k d) [ none ↦ err key_error | some v ↦ as_num v ]

-- `body.get(key, default)`, for a number.
abbrev pub get_num : String → ℕ → Dict → Result ℕ
get_num k default d = elim (get k d) [ none ↦ ok default | some v ↦ as_num v ]

pub Result-cases {ℓ} :
    {A : Type ℓ} (r : Result A) → ((a : A) × (r ≡ ok a)) ⊎ ((e : Error) × (r ≡ err e))
Result-cases (ok a) = inl (a, refl)
Result-cases (err e) = inr (e, refl)

-- What follows an action that returns.
pub bind_ok :
    {D A B : Type 0} (m : Action D A) (k : A → Action D B) (d : D) (a : A)
    → (m d).0 ≡ ok a
    → (m >>= k) d ≡ k a (m d).1
bind_ok m k d a h = rw (◌>>=◌, h) refl

-- An action that raises ends what follows it.
pub bind_err :
    {D A B : Type 0} (m : Action D A) (k : A → Action D B) (d : D) (e : Error)
    → (m d).0 ≡ err e
    → (m >>= k) d ≡ (err e, (m d).1)
bind_err m k d e h = rw (◌>>=◌, h) refl
