-- ===== src/Pyevents/Outbox/Rows.antt =====
-- The rows of `outbox` that the relay of libs/pyevents/pyevents/outbox.py takes and marks.
use event_driven_demo.Base.{
  ℕ, zero, suc, ◌≡◌, ◌≢◌, refl, sym, ap, subst, ◌∙◌, inl, inr, Bool, List, [], ◌∷◌, ◌++◌, ◌||◌,
  ◌==◌, if◌then◌else◌, true, false, map, take, arith, All, Bool-cases, ==_ne,
}
use event_driven_demo.Pyevents.Db.{OutboxRow, Store}
use event_driven_demo.Pyevents.Outbox.{unpublished, mark_row, set_published}

abbrev pub drop : {A : Type 0} → ℕ → List A → List A
drop zero xs = xs
drop (suc n) [] = []
drop (suc n) (x ∷ xs) = drop n xs

pub take-drop : {A : Type 0} (n : ℕ) (xs : List A) → xs ≡ take n xs ++ drop n xs
take-drop zero xs = refl
take-drop (suc n) [] = refl
take-drop (suc n) (x ∷ xs) = ap (λ l. x ∷ l) (take-drop n xs)

-- The ids of an outbox are a serial.
abbrev pub Distinct : List OutboxRow → Type 0
Distinct [] = Unit
Distinct (r ∷ rs) = All (λ q. q.id ≢ r.id) rs × Distinct rs

pub mark_row-id : (k : ℕ) (r : OutboxRow) → (mark_row k r).id ≡ r.id
mark_row-id k r = ground arith

pub All-mark :
    (k j : ℕ) (rs : List OutboxRow)
    → All (λ q. q.id ≢ j) rs
    → All (λ q. q.id ≢ j) (map (mark_row k) rs)
All-mark k j [] h = tt
All-mark k j (r ∷ rs) (ne, h) = ((λ e. ne (sym (mark_row-id k r) ∙ e)), All-mark k j rs h)

pub Distinct-mark : (k : ℕ) (rs : List OutboxRow) → Distinct rs → Distinct (map (mark_row k) rs)
Distinct-mark k [] h = tt
Distinct-mark k (r ∷ rs) (h, hs) =
    (rw (mark_row-id k r) (All-mark k r.id rs h), Distinct-mark k rs hs)

pub mark_absent : (k : ℕ) (rs : List OutboxRow) → All (λ q. q.id ≢ k) rs → map (mark_row k) rs ≡ rs
mark_absent k [] h = refl
mark_absent k (r ∷ rs) (ne, h) = rw (==_ne r.id k ne, mark_absent k rs h) refl

abbrev pub mark_rows : {S : Type 0} → List OutboxRow → Store S → Store S
mark_rows [] d = d
mark_rows (r ∷ rs) d = mark_rows rs (set_published r.id d)

pub mark_rows-Distinct :
    {S : Type 0} (rs : List OutboxRow) (d : Store S)
    → Distinct d.outbox
    → Distinct (mark_rows rs d).outbox
mark_rows-Distinct [] d h = h
mark_rows-Distinct (r ∷ rs) d h =
    mark_rows-Distinct rs (set_published r.id d) (Distinct-mark r.id d.outbox h)

module _ (locked : ℕ → Bool) where
  -- Marking the first unpublished row takes it off the unpublished ones.
  pub unpublished-mark :
      (o : List OutboxRow) (r : OutboxRow) (rest : List OutboxRow)
      → Distinct o
      → unpublished locked o ≡ r ∷ rest
      → unpublished locked (map (mark_row r.id) o) ≡ rest
  unpublished-mark [] r rest h e = cc
  unpublished-mark (q ∷ o) r rest (ne, h) e = elim (Bool-cases (q.published || locked q.id)) [
    | inl skipped ↦ ground (arith, unpublished-mark o r rest h (rw skipped at e))
    | inr taken ↦
        let both = rw taken at e in
        let same : q.id ≡ r.id = ground arith in
        let others : unpublished locked o ≡ rest = ground arith in
        let still : unpublished locked (map (mark_row r.id) o) ≡ rest =
          subst (λ k. unpublished locked (map (mark_row k) o) ≡ rest) same
            (rw (mark_absent q.id o ne) others) in
        ground (arith, same, still)
  ]

  pub unpublished-mark_rows :
      {S : Type 0} (rs rest : List OutboxRow) (d : Store S)
      → Distinct d.outbox
      → unpublished locked d.outbox ≡ rs ++ rest
      → unpublished locked (mark_rows rs d).outbox ≡ rest
  unpublished-mark_rows [] rest d h e = e
  unpublished-mark_rows (r ∷ rs) rest d h e =
      unpublished-mark_rows rs rest (set_published r.id d) (Distinct-mark r.id d.outbox h)
        (unpublished-mark d.outbox r (rs ++ rest) h e)

abbrev pub is_one_of : ℕ → List OutboxRow → Bool
is_one_of k [] = false
is_one_of k (r ∷ rs) = (k == r.id) || is_one_of k rs

-- A row after those with the ids of `rs` have been published: nothing else of it changes.
abbrev pub with_mark : List OutboxRow → OutboxRow → OutboxRow
with_mark rs q = if is_one_of q.id rs then record q { published = true } else q

with_mark-mark_row :
    (r q : OutboxRow) (rs : List OutboxRow) → with_mark rs (mark_row r.id q) ≡ with_mark (r ∷ rs) q
with_mark-mark_row r q rs = elim (Bool-cases (q.id == r.id)) [
  | inl e ↦ elim (Bool-cases (is_one_of q.id rs)) [
    | inl f ↦ rw e (rw f refl)
    | inr f ↦ rw e (rw f refl)
  ]
  | inr e ↦ rw e refl
]

map-with_mark :
    (r : OutboxRow) (rs o : List OutboxRow)
    → map (with_mark rs) (map (mark_row r.id) o) ≡ map (with_mark (r ∷ rs)) o
map-with_mark r rs [] = refl
map-with_mark r rs (q ∷ o) = λ i. with_mark-mark_row r q rs i ∷ map-with_mark r rs o i

no_mark : (o : List OutboxRow) → o ≡ map (with_mark []) o
no_mark [] = refl
no_mark (q ∷ o) = ap (λ l. q ∷ l) (no_mark o)

-- Exactly the rows with these ids are marked.
pub mark_rows-with_mark :
    {S : Type 0} (rs : List OutboxRow) (d : Store S)
    → mark_rows rs d ≡ record d { outbox = map (with_mark rs) d.outbox }
mark_rows-with_mark [] d = λ i. record d { outbox = no_mark d.outbox i }
mark_rows-with_mark (r ∷ rs) d =
    mark_rows-with_mark rs (set_published r.id d)
    ∙ (λ i. record d { outbox = map-with_mark r rs d.outbox i })
