-- ===== src/Startup/Messages/RoundTrip.antt =====
-- hex_encode (crates/cory/src/main.rs) loses nothing of the bytes.
use cory.Base.{
  ℕ, ◌+◌, ◌-◌, ◌*◌, ◌/◌, ◌%◌, ◌<◌, ◌≡◌, refl, ap₂, List, [], ◌∷◌, All, length, ltb, arith,
  if◌then◌else◌,
}
use cory.Base.Text.{Text}
use cory.Startup.Messages.{hex_digit, hex_encode}

abbrev pub digit_value : ℕ → ℕ
digit_value c = if ltb c 58 then c - 48 else c - 87

-- The bytes that pairs of hexadecimal digits stand for.
abbrev pub hex_decode : Text → List ℕ
hex_decode [] = []
hex_decode (c ∷ []) = []
hex_decode (c ∷ d ∷ s) = (digit_value c * 16 + digit_value d) ∷ hex_decode s

digit_value-hex_digit : (n : ℕ) → n < 16 → digit_value (hex_digit n) ≡ n
digit_value-hex_digit n small = ground arith

decoded_byte :
    (b : ℕ) → b < 256 → digit_value (hex_digit (b / 16)) * 16 + digit_value (hex_digit (b % 16)) ≡ b
decoded_byte b small =
    let high = digit_value-hex_digit (b / 16) (omega arith) in
    let low = digit_value-hex_digit (b % 16) (omega arith) in rw (high, low) (omega arith)

-- The text of bytes has two digits for each of them, and the bytes can be read back from it.
pub hex_encode-RoundTrip :
    (bytes : List ℕ)
    → All (λ b. b < 256) bytes
    → (hex_decode (hex_encode bytes) ≡ bytes)
      × (length (hex_encode bytes) ≡ length bytes + length bytes)
unfolding hex_encode
hex_encode-RoundTrip [] h = (refl, refl)
hex_encode-RoundTrip (b ∷ bytes) h =
    let (same, long) = hex_encode-RoundTrip bytes h.1 in
    (ap₂ (λ c cs. c ∷ cs) (decoded_byte b h.0) same, omega (arith, long))
