-- ===== src/Infra/Topology/Routes.antt =====
-- Where the broker puts a message under the declarations of infra/topology.py.
use Prim.Native.Char.{code}
use text.Mathlib.Text.{starts_with}
use event_driven_demo.Base.{
  ◌≡◌, refl, inl, inr, String, Bool, true, false, Option, none, List, [], ◌∷◌, ◌&&◌, ◌||◌, not,
  ◌==◌, elem, str_eq, eq_iff, arith, Bool-cases, if◌then◌else◌,
}
use event_driven_demo.Infra.Topology.{
  Kind, topic, direct, DeadLetter, Declaration, exchange_declare, queue_declare, queue_bind,
  declare,
}

abbrev pub has_wildcard : String → Bool
has_wildcard String.[] = false
has_wildcard (String.◌∷◌ c s) = code c == b'#' || (code c == b'*' || has_wildcard s)

-- What the broker's documentation says of the comparison of a binding with a routing key: a direct
-- exchange wants the same text; so does a topic exchange where the binding has no wildcard, and `#`
-- stands for any number of words.
pub record Compares (accepts : Kind → String → String → Bool) : Type 0 where
  pub same : (p k : String) → accepts direct p k ≡ str_eq p k
  pub plain : (p k : String) → has_wildcard p ≡ false → accepts topic p k ≡ str_eq p k
  pub any : (k : String) → accepts topic "#" k ≡ true
  pub replies :
      (k : String) → accepts topic "reply.#" k ≡ (str_eq k "reply" || starts_with k "reply.")

-- The comparison on the bindings that are declared.
abbrev pub compare_keys : Kind → String → String → Bool
compare_keys direct p k = str_eq p k
compare_keys topic p k =
    if str_eq p "#"
    then true
    else if str_eq p "reply.#"
    then str_eq k "reply" || starts_with k "reply."
    else str_eq p k

abbrev pub kind_of : String → List Declaration → Kind
kind_of exchange [] = direct
kind_of exchange (exchange_declare e kind ∷ ds) =
    if str_eq e exchange then kind else kind_of exchange ds
kind_of exchange (_ ∷ ds) = kind_of exchange ds

module _ (accepts : Kind → String → String → Bool) where
  -- The queues that get a copy, each once: those with a binding to the exchange that accepts the key.
  abbrev pub receivers_of : Kind → String → String → List Declaration → List String
  receivers_of kind exchange key [] = []
  receivers_of kind exchange key (queue_bind q e p ∷ ds) =
      let rest = receivers_of kind exchange key ds in
      if str_eq e exchange && (accepts kind p key && not (elem q rest)) then q ∷ rest else rest
  receivers_of kind exchange key (_ ∷ ds) = receivers_of kind exchange key ds

  unfoldable pub receivers : String → String → List String
  unfolding declare
  receivers exchange key = receivers_of (kind_of exchange declare) exchange key declare

-- Some binding ties the queue to the exchange.
abbrev pub is_bound : String → String → List Declaration → Bool
is_bound queue exchange [] = false
is_bound queue exchange (queue_bind q e p ∷ ds) =
    (str_eq e exchange && str_eq q queue) || is_bound queue exchange ds
is_bound queue exchange (_ ∷ ds) = is_bound queue exchange ds

-- A queue without a binding to the exchange gets nothing from it, however keys are compared.
pub receivers_of-unbound :
    (accepts : Kind → String → String → Bool) (kind : Kind) (queue exchange key : String)
    (ds : List Declaration)
    → is_bound queue exchange ds ≡ false
    → elem queue (receivers_of accepts kind exchange key ds) ≡ false
receivers_of-unbound accepts kind queue exchange key [] h = refl
receivers_of-unbound accepts kind queue exchange key (exchange_declare e k ∷ ds) h =
    receivers_of-unbound accepts kind queue exchange key ds h
receivers_of-unbound accepts kind queue exchange key (queue_declare q a ∷ ds) h =
    receivers_of-unbound accepts kind queue exchange key ds h
receivers_of-unbound accepts kind queue exchange key (queue_bind q e p ∷ ds) h =
    ground (arith, receivers_of-unbound accepts kind queue exchange key ds)

abbrev pub dead_letter_of : String → List Declaration → Option DeadLetter
dead_letter_of queue [] = none
dead_letter_of queue (queue_declare q arguments ∷ ds) =
    if str_eq q queue then arguments else dead_letter_of queue ds
dead_letter_of queue (_ ∷ ds) = dead_letter_of queue ds

-- Whether the comparison is that of `compare_keys` at a declaration.
abbrev is_documented : Declaration → Bool
is_documented (queue_bind q e p) = str_eq p "#" || (str_eq p "reply.#" || not (has_wildcard p))
is_documented _ = true

abbrev all_documented : List Declaration → Bool
all_documented [] = true
all_documented (d ∷ ds) = is_documented d && all_documented ds

module _ (accepts : Kind → String → String → Bool) (c : Compares accepts) (key : String) where
  compares :
      (kind : Kind) (p : String)
      → (str_eq p "#" || (str_eq p "reply.#" || not (has_wildcard p))) ≡ true
      → accepts kind p key ≡ compare_keys kind p key
  compares direct p h = c.same p key
  compares topic p h = elim (Bool-cases (str_eq p "#")) [
    | inl e ↦ rw ((eq_iff p "#").0 e) (c.any key)
    | inr e ↦ elim (Bool-cases (str_eq p "reply.#")) [
      | inl f ↦ rw ((eq_iff p "reply.#").0 f) (c.replies key)
      | inr f ↦ rw (e, f) (c.plain p key (ground arith))
    ]
  ]

  receivers_of-compare_keys :
      (kind : Kind) (exchange : String) (ds : List Declaration)
      → all_documented ds ≡ true
      → receivers_of accepts kind exchange key ds ≡ receivers_of compare_keys kind exchange key ds
  receivers_of-compare_keys kind exchange [] h = refl
  receivers_of-compare_keys kind exchange (queue_bind q e p ∷ ds) h =
      rw (compares kind p (ground arith), receivers_of-compare_keys kind exchange ds (ground arith))
        refl
  receivers_of-compare_keys kind exchange (exchange_declare e k ∷ ds) h =
      receivers_of-compare_keys kind exchange ds h
  receivers_of-compare_keys kind exchange (queue_declare q a ∷ ds) h =
      receivers_of-compare_keys kind exchange ds h

  pub receivers-compare_keys :
      (exchange : String) → receivers accepts exchange key ≡ receivers compare_keys exchange key
  unfolding receivers
  receivers-compare_keys exchange =
      receivers_of-compare_keys (kind_of exchange declare) exchange declare refl
