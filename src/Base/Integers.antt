-- ===== src/Base/Integers.antt =====
-- `str::parse` of Rust's standard library for the unsigned integers below a bound, with its messages.
pub mod RoundTrip
use Prim.Native.Nat.{ℕ, ◌+◌, ◌-◌, ◌*◌}
use mathlib.Core.Bool.{Bool, ◌&&◌}
use mathlib.Core.Logic.{◌⊎◌, inl, inr}
use mathlib.Core.List.{[], ◌∷◌}
use cory.Base.Tests.{ltb, leb, nat_beq, if◌then◌else◌}
use cory.Base.Text.{Text, text}

abbrev pub is_digit : ℕ → Bool
is_digit c = leb 48 c && leb c 57

-- The digits after those that `acc` stands for.
pub parse_digits : ℕ → ℕ → Text → Text ⊎ ℕ
parse_digits bound acc [] = inr acc
parse_digits bound acc (c ∷ s) =
    let rest = parse_digits bound (acc * 10 + (c - 48)) s in
    if is_digit c
    then (if ltb (acc * 10 + (c - 48)) bound
        then rest
        else inl (text "number too large to fit in target type"))
    else inl (text "invalid digit found in string")

-- A sign is taken only where a digit may follow it.
pub parse_signed : ℕ → ℕ → Text → Text ⊎ ℕ
parse_signed bound c [] = parse_digits bound 0 (c ∷ [])
parse_signed bound c (d ∷ s) =
    if nat_beq c 43 then parse_digits bound 0 (d ∷ s) else parse_digits bound 0 (c ∷ d ∷ s)

unfoldable pub parse_unsigned : ℕ → Text → Text ⊎ ℕ
unfolding parse_signed parse_digits
parse_unsigned bound [] = inl (text "cannot parse integer from empty string")
parse_unsigned bound (c ∷ s) = parse_signed bound c s
