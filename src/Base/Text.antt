-- ===== src/Base/Text.antt =====
-- Python's `str` of an integer, and texts of the form `f"{prefix}:{n}"`.
pub mod Decode
use Prim.Native.Nat.{ℕ, zero, suc, ◌/◌, ◌%◌}
use Prim.Native.Char.{Char}
use Prim.Native.String.{String, [], ◌∷◌, ◌++◌, char_at}
use mathlib.Core.Path.{◌≡◌, refl}
use event_driven_demo.Base.Tests.{ltb, if◌then◌else◌}

-- The decimal digit of a number below ten.
pub digit : ℕ → Char
digit d = char_at "0123456789" d

str_upto : ℕ → ℕ → String
str_upto zero n = []
str_upto (suc fuel) n =
    let rest = str_upto fuel (n / 10) in
    if ltb n 10 then digit n ∷ [] else rest ++ (digit (n % 10) ∷ [])

-- `str(n)`: a number has fewer digits than `n + 1`, so the fuel is enough.
unfoldable pub str : ℕ → String
unfolding str_upto digit
str n = str_upto (suc n) n

str_example : str 1007 ≡ "1007"
unfolding str
str_example = refl
