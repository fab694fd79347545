-- ===== src/Base/Table.antt =====
-- A table with a numeric primary key, as the SQL statements of the services use it: the rows are in
-- no particular order.
use Prim.Native.Nat.{ℕ}
use mathlib.Core.Path.{◌≡◌, refl}
use mathlib.Core.Option.{Option, none, some}
use mathlib.Core.List.{List, [], ◌∷◌}
use native.Mathlib.Omega.{arith}
use event_driven_demo.Base.Tests.{◌==◌, if◌then◌else◌}

abbrev pub Table {ℓ} : Type ℓ → Type ℓ
Table V = List (ℕ × V)

module _ {ℓ} {V : Type ℓ} where
  -- SELECT … WHERE key = k, the first row.
  abbrev pub find : ℕ → Table V → Option V
  find k [] = none
  find k ((j, v) ∷ t) = if j == k then some v else find k t

  -- INSERT … ON CONFLICT (key) DO NOTHING
  abbrev pub insert_new : ℕ → V → Table V → Table V
  insert_new k v t = elim (find k t) [ none ↦ (k, v) ∷ t | some _ ↦ t ]

  -- UPDATE … WHERE key = k
  abbrev pub update : ℕ → (V → V) → Table V → Table V
  update k f [] = []
  update k f ((j, v) ∷ t) = (j, if j == k then f v else v) ∷ update k f t

  -- DELETE … WHERE key = k
  abbrev pub delete : ℕ → Table V → Table V
  delete k [] = []
  delete k ((j, v) ∷ t) = if j == k then delete k t else (j, v) ∷ delete k t

  abbrev pub map_row : (V → V) → Option V → Option V
  map_row f none = none
  map_row f (some v) = some (f v)

  pub find-update :
      (j k : ℕ) (f : V → V) (t : Table V)
      → find j (update k f t) ≡ (if k == j then map_row f (find j t) else find j t)
  find-update j k f [] = ground arith
  find-update j k f ((i, v) ∷ t) = ground (arith, find-update j k f t)

  pub find-delete :
      (j k : ℕ) (t : Table V) → find j (delete k t) ≡ (if k == j then none else find j t)
  find-delete j k [] = ground arith
  find-delete j k ((i, v) ∷ t) = ground (arith, find-delete j k t)

  pub find-insert_new :
      (j k : ℕ) (v : V) (t : Table V)
      → find k t ≡ none
      → find j (insert_new k v t) ≡ (if k == j then some v else find j t)
  find-insert_new j k v t h = ground arith

  -- No key stands in two rows.
  abbrev pub IsKeyed : Table V → Type ℓ
  IsKeyed [] = Unit
  IsKeyed ((k, v) ∷ t) = (find k t ≡ none) × IsKeyed t

  pub delete_absent : (k : ℕ) (t : Table V) → find k t ≡ none → delete k t ≡ t
  delete_absent k [] h = refl
  delete_absent k ((j, v) ∷ t) h = ground (arith, delete_absent k t)

  pub delete-insert_new :
      (k : ℕ) (v : V) (t : Table V) → find k t ≡ none → delete k (insert_new k v t) ≡ t
  delete-insert_new k v t h = ground (arith, delete_absent k t)

  pub insert_new-IsKeyed : (k : ℕ) (v : V) (t : Table V) → IsKeyed t → IsKeyed (insert_new k v t)
  insert_new-IsKeyed k v t h = ground arith

  pub delete-IsKeyed : (k : ℕ) (t : Table V) → IsKeyed t → IsKeyed (delete k t)
  delete-IsKeyed k [] h = tt
  delete-IsKeyed k ((j, v) ∷ t) h = ground (arith, delete-IsKeyed k t h.1, find-delete j k t)

  pub update-IsKeyed : (k : ℕ) (f : V → V) (t : Table V) → IsKeyed t → IsKeyed (update k f t)
  update-IsKeyed k f [] h = tt
  update-IsKeyed k f ((j, v) ∷ t) h =
      (ground (arith, find-update j k f t), update-IsKeyed k f t h.1)
