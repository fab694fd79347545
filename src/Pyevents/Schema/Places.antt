-- ===== src/Pyevents/Schema/Places.antt =====
-- Where each of several sessions is in `run_script`, libs/pyevents/pyevents/db.py.
use event_driven_demo.Base.{
  eq_iff, ℕ, ◌≡◌, refl, sym, ap, subst, ◌≢◌, inl, inr, String, true, false, Option, none, some,
  List, [], ◌∷◌, ◌++◌, All, ◌==◌, ◌||◌, ==_refl, ==_iff, arith, elem, Bool-cases, if◌then◌else◌,
}
use event_driven_demo.Pyevents.Schema.{
  Statement, commit_work, creates, run_script, returned, killed, Session, Server, own, others,
  is_contended, left_over,
}

-- The row was inserted by the session that holds the lock.
abbrev pub ByHolder : Option ℕ → ℕ × String → Type 0
ByHolder holder row = holder ≡ some row.0

pub others_empty :
    (i : ℕ) (rows : List (ℕ × String)) → All (ByHolder (some i)) rows → others i rows ≡ []
others_empty i [] h = refl
others_empty i ((j, name) ∷ rows) (e, h) =
    let same : j ≡ i = cc in rw (same, ==_refl i) (others_empty i rows h)

pub uncontended :
    (i : ℕ) (name : String) (rows : List (ℕ × String))
    → All (ByHolder (some i)) rows
    → is_contended i name rows ≡ false
uncontended i name [] h = refl
uncontended i name ((j, other) ∷ rows) (e, h) =
    let same : j ≡ i = cc in rw (same, ==_refl i) (uncontended i name rows h)

pub no_rows : (rows : List (ℕ × String)) → All (ByHolder none) rows → rows ≡ []
no_rows [] h = refl
no_rows (row ∷ rows) (e, h) = cc

elem-append_left : (k : String) (xs ys : List String) → elem k xs ≡ true → elem k (xs ++ ys) ≡ true
elem-append_left k [] ys h = cc
elem-append_left k (x ∷ xs) ys h = ground (arith, elem-append_left k xs ys)

pub elem-append_right :
    (k : String) (xs ys : List String) → elem k ys ≡ true → elem k (xs ++ ys) ≡ true
elem-append_right k [] ys h = h
elem-append_right k (x ∷ xs) ys h = ground (arith, elem-append_right k xs ys h)

abbrev pub In : List String → String → Type 0
In names name = elem name names ≡ true

-- Session `i` sees the name.
abbrev pub There : ℕ → List String → List (ℕ × String) → String → Type 0
There i committed inserted name = (elem name committed || elem name (own i inserted)) ≡ true

pub still-There :
    (i : ℕ) (c : List String) (r : List (ℕ × String)) (name n : String)
    → There i c r n
    → There i c ((i, name) ∷ r) n
still-There i c r name n h = rw (==_refl i) (ground (arith, h))

pub now-There :
    (i : ℕ) (c : List String) (r : List (ℕ × String)) (name : String)
    → There i c ((i, name) ∷ r) name
now-There i c r name = let same = (eq_iff name name).1 refl in rw (==_refl i) (ground (arith, same))

pub There-In :
    (i : ℕ) (c : List String) (r : List (ℕ × String)) (n : String)
    → There i c r n
    → In (own i r ++ c) n
There-In i c r n h = elim (Bool-cases (elem n c)) [
  | inl e ↦ elem-append_right n (own i r) c e
  | inr e ↦ elem-append_left n (own i r) c (rw e at h)
]

pub others_keep :
    (i k : ℕ) (rows : List (ℕ × String))
    → (k == i) ≡ false
    → All (ByHolder (some k)) rows
    → others i rows ≡ rows
others_keep i k [] ne h = refl
others_keep i k ((j, name) ∷ rows) ne (e, h) =
    let same : j ≡ k = cc in rw (same, ne) (ap (λ l. (k, name) ∷ l) (others_keep i k rows ne h))

module _ (script : ℕ → List String) where
  -- What is left of a script when the names are still to be created.
  abbrev pub rest_of : List String → List Statement
  rest_of names = creates names ++ commit_work ∷ []

  -- Where a session is in its script, by the lock, the catalog and the names inserted so far.
  module _ (i : ℕ) (holder : Option ℕ) (committed : List String)
      (inserted : List (ℕ × String)) where
    pub data Place (s : Session) : Type 0 where
      waits : holder ≢ some i → s ≡ left_over (run_script (script i)) none → Place s
      inside :
          (done names : List String)
          → holder ≡ some i
          → s ≡ left_over (rest_of names) none
          → script i ≡ done ++ names
          → All (There i committed inserted) done
          → Place s
      inserting :
          (done : List String) (name : String) (names : List String)
          → holder ≡ some i
          → s ≡ left_over (rest_of names) (some name)
          → script i ≡ done ++ (name ∷ names)
          → All (There i committed inserted) done
          → elem name committed ≡ false
          → Place s
      has_returned :
          holder ≢ some i
          → s ≡ record { todo = []; missing = none; status = returned }
          → All (In committed) (script i)
          → Place s
      was_killed :
          holder ≢ some i → s ≡ record { todo = []; missing = none; status = killed } → Place s

  pub record Serial (w : Server) : Type 0 where
    pub rows : All (ByHolder w.lock_holder) w.inserted
    pub places : (i : ℕ) → Place i w.lock_holder w.committed w.inserted (w.sessions i)

  pub All-map :
      {P Q : String → Type 0}
      → ((n : String) → P n → Q n)
      → (ns : List String) → All P ns
      → All Q ns
  All-map f [] h = tt
  All-map f (n ∷ ns) (p, h) = (f n p, All-map f ns h)

  -- A session without the lock stays where it is while names are committed.
  pub keep_idle :
      (j : ℕ) (h h' : Option ℕ) (c c' : List String) (r r' : List (ℕ × String)) (s : Session)
      → h ≢ some j
      → h' ≢ some j
      → ((n : String) → In c n → In c' n)
      → Place j h c r s
      → Place j h' c' r' s
  keep_idle j h h' c c' r r' s ne ne' more (waits off e) = waits ne' e
  keep_idle j h h' c c' r r' s ne ne' more (inside done names mine e split there) = absurd (ne mine)
  keep_idle j h h' c c' r r' s ne ne' more (inserting done name names mine e split there new) =
      absurd (ne mine)
  keep_idle j h h' c c' r r' s ne ne' more (has_returned off e all_in) =
      has_returned ne' e (All-map more (script j) all_in)
  keep_idle j h h' c c' r r' s ne ne' more (was_killed off e) = was_killed ne' e

  -- The session that has moved, and the others.
  pub placed :
      (i : ℕ) (h : Option ℕ) (c : List String) (r : List (ℕ × String)) (s : Session)
      (f : ℕ → Session)
      → Place i h c r s
      → ((j : ℕ) → j ≢ i → Place j h c r (f j))
      → (j : ℕ) → Place j h c r (if j == i then s else f j)
  placed i h c r s f here there j = elim (Bool-cases (j == i)) [
    | inl e ↦
        let same : j ≡ i = (==_iff j i).0 e in rw e (subst (λ k. Place k h c r s) (sym same) here)
    | inr e ↦ rw e (there j (λ same. let yes = (==_iff j i).1 same in cc))
  ]

  pub other : (i j : ℕ) (h : Option ℕ) → h ≡ some i → j ≢ i → h ≢ some j
  other i j h mine ne e = let same : j ≡ i = cc in ne same
