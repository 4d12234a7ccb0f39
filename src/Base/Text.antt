-- ===== src/Base/Text.antt =====
-- Rust's String and &str as lists of code points, with the std operations that the program calls.
use Prim.Native.Nat.{ℕ, zero, suc, ◌+◌, ◌/◌, ◌%◌}
use Prim.Native.String.{String}
use Prim.Native.Char.{code}
use mathlib.Core.Path.{◌≡◌}
use mathlib.Core.Bool.{Bool, true, false, ◌&&◌, ◌||◌}
use mathlib.Core.Option.{Option, none, some}
use mathlib.Core.Logic.{◌↔◌}
use mathlib.Core.List.{List, [], ◌∷◌, reverse}
use native.Mathlib.Omega.{arith}
use cory.Base.Tests.{nat_beq, leb, ltb, if◌then◌else◌}
use cory.Base.Equality.{HashKey}

abbrev pub Text : Type 0
Text = List ℕ

-- The code points of a literal.
abbrev pub text : String → Text
text String.[] = []
text (String.◌∷◌ c s) = code c ∷ text s

abbrev pub text_beq : Text → Text → Bool
text_beq [] [] = true
text_beq (a ∷ s) (b ∷ t) = nat_beq a b && text_beq s t
text_beq _ _ = false

pub text_beq_iff : (s t : Text) → (text_beq s t ≡ true) ↔ (s ≡ t)
text_beq_iff [] [] = ground arith
text_beq_iff [] (b ∷ t) = ground arith
text_beq_iff (a ∷ s) [] = ground arith
text_beq_iff (a ∷ s) (b ∷ t) = ground (arith, text_beq_iff s t)

instance abbrev pub text_eq : HashKey Text
text_eq = record { same_key = text_beq; same_key_iff = text_beq_iff }

-- char::is_whitespace, the Unicode property White_Space.
abbrev pub is_whitespace : ℕ → Bool
is_whitespace c =
    leb 9 c && leb c 13
    || nat_beq c 0x20
    || nat_beq c 0x85
    || nat_beq c 0xa0
    || nat_beq c 0x1680
    || leb 0x2000 c && leb c 0x200a
    || nat_beq c 0x2028
    || nat_beq c 0x2029
    || nat_beq c 0x202f
    || nat_beq c 0x205f
    || nat_beq c 0x3000

abbrev pub trim_start : Text → Text
trim_start [] = []
trim_start (c ∷ s) = if is_whitespace c then trim_start s else c ∷ s

-- str::trim
abbrev pub trim : Text → Text
trim s = reverse (trim_start (reverse (trim_start s)))

abbrev pub strip_prefix : Text → Text → Option Text
strip_prefix [] s = some s
strip_prefix (p ∷ ps) [] = none
strip_prefix (p ∷ ps) (c ∷ s) = if nat_beq p c then strip_prefix ps s else none

-- strip_suffix(suffix).unwrap_or(s)
abbrev pub without_suffix : Text → Text → Text
without_suffix suffix s = elim (strip_prefix (reverse suffix) (reverse s)) [
  | none ↦ s
  | some rest ↦ reverse rest
]

-- str::replace for two characters
abbrev pub replace_char : ℕ → ℕ → Text → Text
replace_char old new [] = []
replace_char old new (c ∷ s) = (if nat_beq c old then new else c) ∷ replace_char old new s

abbrev pub is_empty : Text → Bool
is_empty [] = true
is_empty (c ∷ s) = false

-- The order of Rust's strings: that of their bytes, which is that of their code points.
abbrev pub text_ltb : Text → Text → Bool
text_ltb _ [] = false
text_ltb [] (d ∷ t) = true
text_ltb (c ∷ s) (d ∷ t) = ltb c d || nat_beq c d && text_ltb s t

-- The decimal digits of a number below 10 ^ fuel, before `acc`.
abbrev pub digits : ℕ → ℕ → Text → Text
digits zero n acc = acc
digits (suc fuel) n acc =
    let rest = digits fuel (n / 10) ((48 + n % 10) ∷ acc) in
    if ltb n 10 then (48 + n % 10) ∷ acc else rest

-- `Display` of a usize, which is below 2 ^ 64 and so has at most 20 digits.
abbrev pub decimal : ℕ → Text
decimal n = digits 20 n []

abbrev push_char : ℕ → List Text → List Text
push_char c [] = (c ∷ []) ∷ []
push_char c (line ∷ others) = (c ∷ line) ∷ others

abbrev starts_with_feed : Text → Bool
starts_with_feed [] = false
starts_with_feed (c ∷ s) = nat_beq c 10

-- str::lines: the text between line feeds, without a carriage return before the feed.
unfoldable pub lines : Text → List Text
lines [] = []
lines (c ∷ s) =
    let rest = lines s in
    if nat_beq c 10
    then [] ∷ rest
    else if nat_beq c 13 && starts_with_feed s
    then rest
    else push_char c rest

-- The first element of an iterator.
abbrev pub first {ℓ} : {A : Type ℓ} → List A → Option A
first [] = none
first (a ∷ list) = some a

abbrev pub push_first : ℕ → Option (Text × Text) → Option (Text × Text)
push_first c none = none
push_first c (some (before, after)) = some (c ∷ before, after)

-- str::split_once for a character
unfoldable pub split_once : ℕ → Text → Option (Text × Text)
split_once d [] = none
split_once d (c ∷ s) =
    let rest = split_once d s in if nat_beq c d then some ([], s) else push_first c rest

-- str::contains for a text
abbrev has_prefix : Text → Text → Bool
has_prefix p s = elim (strip_prefix p s) [ none ↦ false | some rest ↦ true ]

unfoldable pub contains_text : Text → Text → Bool
contains_text part [] = is_empty part
contains_text part (c ∷ s) = has_prefix part (c ∷ s) || contains_text part s

-- str::to_ascii_lowercase
abbrev pub to_ascii_lowercase : Text → Text
to_ascii_lowercase [] = []
to_ascii_lowercase (c ∷ s) = (if leb 65 c && leb c 90 then c + 32 else c) ∷ to_ascii_lowercase s
