-- ===== src/Base/Text/Decode.antt =====
-- Reading texts of the form `f"{prefix}:{n}{suffix}"`: the prefix and the number can be told.
use Prim.Native.Nat.{ℕ, zero, suc, ◌+◌, ◌-◌, ◌*◌, ◌/◌, ◌%◌, ◌<◌}
use Prim.Native.Char.{Char, code}
use Prim.Native.String.{String, [], ◌∷◌, ◌++◌}
use mathlib.Core.Path.{◌≡◌, refl, ap, subst, ◌∙◌}
use mathlib.Core.Bool.{Bool, true, false, ◌&&◌}
use mathlib.Core.Logic.{inl, inr}
use text.Mathlib.TextLemmas.{nil-append, cons-append, append-nil}
use native.Mathlib.Omega.{arith}
use event_driven_demo.Base.Tests.{ltb, leb, ◌==◌, if◌then◌else◌, Bool-cases}
use event_driven_demo.Base.Text.{digit, str_upto, str}

abbrev pub is_digit : Char → Bool
is_digit c = leb b'0' (code c) && leb (code c) b'9'

-- The number at the beginning of a text, after `acc`.
abbrev pub read : ℕ → String → ℕ
read acc [] = acc
read acc (c ∷ s) =
    let rest = read (acc * 10 + (code c - b'0')) s in if is_digit c then rest else acc

-- What stands before the first colon, and after it.
pub before : String → String
before [] = []
before (c ∷ s) = let rest = before s in if code c == b':' then [] else c ∷ rest

pub after : String → String
after [] = []
after (c ∷ s) = let rest = after s in if code c == b':' then s else rest

abbrev pub has_no_colon : String → Bool
has_no_colon [] = true
has_no_colon (c ∷ s) = let rest = has_no_colon s in if code c == b':' then false else rest

colon : (t : String) → ":" ++ t ≡ ":" ∷ t
colon t = cons-append ":" [] t ∙ ap (λ s. ":" ∷ s) (nil-append t)

before-append : (s t : String) → has_no_colon s ≡ true → before (s ++ (":" ++ t)) ≡ s
unfolding before
before-append [] t h = ap before (nil-append (":" ++ t) ∙ colon t)
before-append (c ∷ s) t h = rw (cons-append c s (":" ++ t)) (ground (arith, before-append s t))

after-append : (s t : String) → has_no_colon s ≡ true → after (s ++ (":" ++ t)) ≡ t
unfolding after
after-append [] t h = ap after (nil-append (":" ++ t) ∙ colon t)
after-append (c ∷ s) t h = rw (cons-append c s (":" ++ t)) (ground (arith, after-append s t))

-- The digits below `limit` are the right characters.
right_up_to : (limit : ℕ) → Bool
right_up_to zero = true
right_up_to (suc limit) = right_up_to limit && code (digit limit) == 48 + limit

right_to_nine : right_up_to 10 ≡ true
unfolding right_up_to digit
right_to_nine = refl

right_below : (limit d : ℕ) → d < limit → right_up_to limit ≡ true → code (digit d) ≡ 48 + d
unfolding right_up_to
right_below zero d below right = absurd (omega (arith, below))
right_below (suc limit) d below right = elim (Bool-cases (d == limit)) [
  | inl e ↦ ground (arith, right, e)
  | inr e ↦ right_below limit d (ground arith) (ground (arith, right))
]

code-digit : (d : ℕ) → d < 10 → code (digit d) ≡ 48 + d
code-digit d below = right_below 10 d below right_to_nine

all_digits : String → Bool
all_digits [] = true
all_digits (c ∷ s) = is_digit c && all_digits s

all_digits-snoc :
    (s : String) (c : Char)
    → all_digits s ≡ true
    → is_digit c ≡ true
    → all_digits (s ++ (c ∷ [])) ≡ true
unfolding all_digits
all_digits-snoc [] c h k = rw (nil-append (c ∷ [])) (ground (arith, k))
all_digits-snoc (b ∷ s) c h k =
    rw (cons-append b s (c ∷ [])) (ground (arith, all_digits-snoc s c, h, k))

is_digit-digit : (d : ℕ) → d < 10 → is_digit (digit d) ≡ true
is_digit-digit d h = ground (arith, code-digit d h, h)

read-append :
    (acc : ℕ) (s t : String) → all_digits s ≡ true → read acc (s ++ t) ≡ read (read acc s) t
unfolding all_digits
read-append acc [] t h = ap (read acc) (nil-append t)
read-append acc (c ∷ s) t h =
    rw (cons-append c s t) (ground (arith, read-append (acc * 10 + (code c - b'0')) s t))

str_upto_digits : (fuel n : ℕ) → all_digits (str_upto fuel n) ≡ true
unfolding str_upto
str_upto_digits zero n = unfold all_digits in refl
str_upto_digits (suc f) n = elim (Bool-cases (ltb n 10)) [
  | inl e ↦ rw e (unfold all_digits in ground (arith, is_digit-digit n))
  | inr e ↦ rw e (
      all_digits-snoc (str_upto f (n / 10)) (digit (n % 10)) (str_upto_digits f (n / 10))
        (is_digit-digit (n % 10) (omega arith)))
]

read_one : (acc d : ℕ) → d < 10 → read acc (digit d ∷ []) ≡ acc * 10 + d
read_one acc d h = ground (arith, is_digit-digit d h, code-digit d h)

read-str_upto : (fuel n : ℕ) → n < fuel → read 0 (str_upto fuel n) ≡ n
unfolding str_upto
read-str_upto zero n h = absurd (omega (arith, h))
read-str_upto (suc f) n h = elim (Bool-cases (ltb n 10)) [
  | inl e ↦ rw e (read_one 0 n (ground arith) ∙ omega arith)
  | inr e ↦ rw e (
      read-append 0 (str_upto f (n / 10)) (digit (n % 10) ∷ []) (str_upto_digits f (n / 10))
      ∙ ap (λ acc. read acc (digit (n % 10) ∷ [])) (read-str_upto f (n / 10) (ground arith))
      ∙ read_one (n / 10) (n % 10) (omega arith)
      ∙ omega arith)
]

-- The number can be read back, and the prefix.
pub read-str : (n : ℕ) (t : String) → read n t ≡ n → read 0 (str n ++ t) ≡ n
unfolding str
read-str n t h =
    read-append 0 (str_upto (suc n) n) t (str_upto_digits (suc n) n)
    ∙ ap (λ acc. read acc t) (read-str_upto (suc n) n (omega arith))
    ∙ h

-- Where the prefix has no colon and the suffix begins with no digit.
pub told :
    (s : String) (n : ℕ) (t : String)
    → has_no_colon s ≡ true
    → read n t ≡ n
    → (before (s ++ (":" ++ (str n ++ t))) ≡ s) × (read 0 (after (s ++ (":" ++ (str n ++ t)))) ≡ n)
told s n t plain stops = (
  before-append s (str n ++ t) plain,
  ap (read 0) (after-append s (str n ++ t) plain) ∙ read-str n t stops,
)

pub told_bare :
    (s : String) (n : ℕ)
    → has_no_colon s ≡ true
    → (before (s ++ (":" ++ str n)) ≡ s) × (read 0 (after (s ++ (":" ++ str n))) ≡ n)
told_bare s n plain =
    subst (λ u. (before (s ++ (":" ++ u)) ≡ s) × (read 0 (after (s ++ (":" ++ u))) ≡ n))
      (append-nil (str n)) (told s n [] plain refl)
