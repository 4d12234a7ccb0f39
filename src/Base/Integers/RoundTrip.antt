-- ===== src/Base/Integers/RoundTrip.antt =====
-- Parsing what Rust prints of an unsigned integer.
use Prim.Native.Nat.{ℕ, zero, suc, ◌+◌, ◌-◌, ◌*◌, ◌/◌, ◌%◌, ◌^◌, ◌<◌}
use mathlib.Core.Path.{◌≡◌, refl, ap, ◌∙◌, sym}
use mathlib.Core.Bool.{Bool, true, false}
use mathlib.Core.Logic.{◌⊎◌, inl, inr}
use mathlib.Core.List.{[], ◌∷◌}
use native.Mathlib.Omega.{arith}
use native.Mathlib.Numerals.{unary_clauses}
use cory.Base.Tests.{ltb→lt, ltb, Bool-cases}
use cory.Base.Text.{Text, digits, decimal}
use cory.Base.Integers.{is_digit, parse_digits, parse_signed, parse_unsigned}

parse_digit :
    (bound acc d : ℕ) (tail : Text)
    → d < 10
    → acc * 10 + d < bound
    → parse_digits bound acc ((48 + d) ∷ tail) ≡ parse_digits bound (acc * 10 + d) tail
unfolding parse_digits
parse_digit bound acc d tail small fits =
    let e : (48 + d) - 48 ≡ d = omega arith in rw e (ground arith)

parse_digits-digits :
    (bound fuel n : ℕ) (tail : Text)
    → n < 10 ^ fuel
    → n < bound
    → parse_digits bound 0 (digits fuel n tail) ≡ parse_digits bound n tail
parse_digits-digits bound zero n tail short fits = let e : n ≡ 0 = omega arith in rw e refl
parse_digits-digits bound (suc fuel) n tail short fits = elim (Bool-cases (ltb n 10)) [
  | inl one ↦ rw one (
      parse_digit bound 0 (n % 10) tail (omega arith) (omega (arith, ltb→lt n 10 one))
      ∙ ap (λ k. parse_digits bound k tail) (omega (arith, ltb→lt n 10 one)))
  | inr more ↦
      let wide : 10 ^ suc fuel ≡ 10 * 10 ^ fuel = simp unary_clauses (omega arith) in
      rw more (
        parse_digits-digits bound fuel (n / 10) _ (omega (arith, wide)) (omega arith)
        ∙ parse_digit bound (n / 10) (n % 10) tail (omega arith) (omega arith)
        ∙ ap (λ k. parse_digits bound k tail) (omega arith))
]

abbrev starts_with_digit : Text → Bool
starts_with_digit [] = false
starts_with_digit (c ∷ s) = is_digit c

digit-is_digit : (d : ℕ) → d < 10 → is_digit (48 + d) ≡ true
digit-is_digit d small = ground arith

digits-starts_with_digit :
    (fuel n : ℕ) (tail : Text)
    → starts_with_digit tail ≡ true
    → starts_with_digit (digits fuel n tail) ≡ true
digits-starts_with_digit zero n tail h = h
digits-starts_with_digit (suc fuel) n tail h = elim (Bool-cases (ltb n 10)) [
  | inl one ↦ rw one (digit-is_digit (n % 10) (omega arith))
  | inr more ↦ rw more (
      digits-starts_with_digit fuel (n / 10) ((48 + n % 10) ∷ tail)
        (digit-is_digit (n % 10) (omega arith)))
]

some_digits-starts_with_digit : (fuel n : ℕ) → starts_with_digit (digits (suc fuel) n []) ≡ true
some_digits-starts_with_digit fuel n = elim (Bool-cases (ltb n 10)) [
  | inl one ↦ rw one (digit-is_digit (n % 10) (omega arith))
  | inr more ↦ rw more (
      digits-starts_with_digit fuel (n / 10) ((48 + n % 10) ∷ [])
        (digit-is_digit (n % 10) (omega arith)))
]

-- Nothing that starts with a digit has a sign.
no_sign :
    (bound : ℕ) (s : Text)
    → starts_with_digit s ≡ true
    → parse_unsigned bound s ≡ parse_digits bound 0 s
unfolding parse_unsigned parse_signed
no_sign bound [] h = cc h
no_sign bound (c ∷ []) h = refl
no_sign bound (c ∷ d ∷ s) h = ground arith

nothing_left : (bound n : ℕ) → parse_digits bound n [] ≡ inr n
unfolding parse_digits
nothing_left bound n = refl

parse_unsigned-digits :
    (bound fuel n : ℕ)
    → n < 10 ^ suc fuel
    → n < bound
    → parse_unsigned bound (digits (suc fuel) n []) ≡ inr n
parse_unsigned-digits bound fuel n short fits =
    no_sign bound (digits (suc fuel) n []) (some_digits-starts_with_digit fuel n)
    ∙ parse_digits-digits bound (suc fuel) n [] short fits
    ∙ nothing_left bound n

-- Parsing the decimal digits of a number below 2 ^ 64 returns it, if it is below the bound.
pub parse_unsigned-decimal :
    (bound n : ℕ) → n < 2 ^ 64 → n < bound → parse_unsigned bound (decimal n) ≡ inr n
parse_unsigned-decimal bound n machine fits =
    parse_unsigned-digits bound 19 n (omega (arith, machine)) fits

abbrev number_or_zero : Text ⊎ ℕ → ℕ
number_or_zero (inl message) = 0
number_or_zero (inr n) = n

-- Numbers with the same decimal digits are the same.
pub decimal-injective : (n m : ℕ) → n < 2 ^ 64 → m < 2 ^ 64 → decimal n ≡ decimal m → n ≡ m
decimal-injective n m small small' same = ap number_or_zero (
    sym (parse_unsigned-decimal (2 ^ 64) n small small)
    ∙ ap (parse_unsigned (2 ^ 64)) same
    ∙ parse_unsigned-decimal (2 ^ 64) m small' small')
