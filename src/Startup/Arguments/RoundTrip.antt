-- ===== src/Startup/Arguments/RoundTrip.antt =====
-- The parsers of the arguments (crates/cory/src/cli.rs) on what Rust prints of a number.
use cory.Base.{ℕ, ◌<◌, ◌^◌, ◌≡◌, refl, ◌⊎◌, inl, inr, arith, nat_beq, if◌then◌else◌}
use cory.Base.Text.{Text, text, decimal}
use cory.Base.Integers.RoundTrip.{parse_unsigned-decimal}
use cory.Startup.Arguments.{parse_nonzero_usize, parse_nonzero_u32}

-- A number from 1 on is taken as it is, and zero is refused.
abbrev pub Accepted : ℕ → Text ⊎ ℕ → Type 0
Accepted n r = r ≡ (if nat_beq n 0 then inl (text "value must be at least 1") else inr n)

-- Parsing the decimal digits of a 64-bit number as a usize argument, or of a 32-bit number as a u32
-- argument, gives the number back, but for zero, which is refused.
pub parse_nonzero-decimal :
    (n m : ℕ)
    → n < 2 ^ 64
    → m < 2 ^ 32
    → Accepted n (parse_nonzero_usize (decimal n)) × Accepted m (parse_nonzero_u32 (decimal m))
unfolding parse_nonzero_usize parse_nonzero_u32
parse_nonzero-decimal n m small small' = (
  rw (parse_unsigned-decimal (2 ^ 64) n small small) refl,
  rw (parse_unsigned-decimal (2 ^ 32) m (omega arith) small') refl,
)
