-- ===== src/Enrich/Fees.antt =====
-- compute_fee (crates/cory-core/src/enrich.rs) against sums without a bound.
use cory.Base.{
  ℕ, ◌+◌, ◌^◌, ◌<◌, ◌≡◌, refl, Bool, true, ◌&&◌, Option, none, some, List, [], ◌∷◌, arith, ltb,
  if◌then◌else◌, Bool-cases, Option-cases, inl, inr, ◌↔◌,
}
use cory.Types.{Amount, TxInput, TxOutput, TxNode, is_some}
use cory.Enrich.{total_in, total_out, difference, compute_fee}

abbrev pub all_known : List TxInput → Bool
all_known [] = true
all_known (input ∷ inputs) = is_some input.value && all_known inputs

abbrev pub amount_or_zero : Option Amount → Amount
amount_or_zero none = 0
amount_or_zero (some v) = v

abbrev pub sum_in : List TxInput → ℕ
sum_in [] = 0
sum_in (input ∷ inputs) = amount_or_zero input.value + sum_in inputs

abbrev pub sum_out : List TxOutput → ℕ
sum_out [] = 0
sum_out (output ∷ outputs) = output.value + sum_out outputs

total_in-none : (inputs : List TxInput) → total_in none inputs ≡ none
unfolding total_in
total_in-none inputs = refl

total_out-none : (outputs : List TxOutput) → total_out none outputs ≡ none
unfolding total_out
total_out-none outputs = refl

total_in-sum :
    (acc : Amount) (inputs : List TxInput)
    → acc < 2 ^ 64
    → total_in (some acc) inputs ≡ (
        if all_known inputs && ltb (acc + sum_in inputs) (2 ^ 64)
        then some (acc + sum_in inputs)
        else none)
unfolding total_in
total_in-sum acc [] h = ground arith
total_in-sum acc (input ∷ inputs) h = elim (Option-cases input.value) [
  | inl missing ↦ rw missing (total_in-none inputs)
  | inr (v, known) ↦ rw known (elim (Bool-cases (ltb (acc + v) (2 ^ 64))) [
    | inl fits ↦ rw (fits, total_in) (ground (arith, total_in-sum (acc + v) inputs (ground arith)))
    | inr over ↦ rw (over, total_in) (ground (arith, total_in-none inputs))
  ])
]

total_out-sum :
    (acc : Amount) (outputs : List TxOutput)
    → acc < 2 ^ 64
    → total_out (some acc) outputs
      ≡ (if ltb (acc + sum_out outputs) (2 ^ 64) then some (acc + sum_out outputs) else none)
unfolding total_out
total_out-sum acc [] h = ground arith
total_out-sum acc (output ∷ outputs) h = elim (Bool-cases (ltb (acc + output.value) (2 ^ 64))) [
  | inl fits ↦
      rw (fits, total_out)
        (ground (arith, total_out-sum (acc + output.value) outputs (ground arith)))
  | inr over ↦ rw (over, total_out) (ground (arith, total_out-none outputs))
]

-- The fee is known exactly where every input value is known, the sum of the inputs fits a u64 and is
-- not below that of the outputs.
pub record HasFee (tx : TxNode) (fee : Amount) : Type 0 where
  pub known : all_known tx.inputs ≡ true
  pub fits : sum_in tx.inputs < 2 ^ 64
  pub balance : fee + sum_out tx.outputs ≡ sum_in tx.inputs

difference-some :
    (bound i o fee : ℕ) (known : Bool)
    → difference
        (if known && ltb i bound then some i else none)
        (if ltb o bound then some o else none)
      ≡ some fee
    → (known ≡ true) × (i < bound) × (fee + o ≡ i)
difference-some bound i o fee known h = ground arith

some-difference :
    (bound i o fee : ℕ) (known : Bool)
    → known ≡ true
    → i < bound
    → fee + o ≡ i
    → difference
        (if known && ltb i bound then some i else none)
        (if ltb o bound then some o else none)
      ≡ some fee
some-difference bound i o fee known all small e = ground arith

-- compute_fee returns Some(fee) exactly where the value of every input is known, the sum of these
-- values is below 2^64, and the fee and the sum of the outputs make up that sum. So it returns None
-- on a missing value, on an overflow and where the outputs exceed the inputs.
pub compute_fee-HasFee : (tx : TxNode) (fee : Amount) → (compute_fee tx ≡ some fee) ↔ HasFee tx fee
unfolding compute_fee
compute_fee-HasFee tx fee =
    let i = sum_in tx.inputs in
    let o = sum_out tx.outputs in
    let law_in = total_in-sum 0 tx.inputs (omega arith) in
    let law_out = total_out-sum 0 tx.outputs (omega arith) in
    (
      (λ e.
          let (known, fits, balance) =
            difference-some (2 ^ 64) (0 + i) (0 + o) fee (all_known tx.inputs)
              (rw (law_in, law_out) at e) in
          record { known = known; fits = omega arith; balance = omega arith }),
      (λ h.
          rw (law_in, law_out)
            (some-difference (2 ^ 64) (0 + i) (0 + o) fee (all_known tx.inputs) h.known
              (omega (arith, h.fits)) (omega (arith, h.balance)))),
    )
