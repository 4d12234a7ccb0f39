-- ===== src/Enrich.antt =====
-- crates/cory-core/src/enrich.rs: script types, fees, replaceability and locktimes.
-- The tests of the bitcoin crate on a script are a parameter, and so is the quotient of floating-point
-- numbers.
pub mod Fees
pub mod Display
mod Tests
use cory.Base.{
  ℕ, ◌+◌, ◌-◌, ◌^◌, Bool, true, false, ◌||◌, Option, none, some, List, [], ◌∷◌, ltb, leb, nat_beq,
  if◌then◌else◌, ◌==◌,
}
use cory.Base.Text.{text_beq}
use cory.Types.{Amount, Script, ScriptType, TxInput, TxOutput, TxNode}

pub record ScriptTests : Type 0 where
  pub is_p2pk : Script → Bool
  pub is_p2pkh : Script → Bool
  pub is_p2sh : Script → Bool
  pub is_p2wpkh : Script → Bool
  pub is_p2wsh : Script → Bool
  pub is_p2tr : Script → Bool
  pub is_multisig : Script → Bool
  pub is_op_return : Script → Bool

-- The bytes of the script, compared with those of pay-to-anchor.
abbrev pub is_anchor : Script → Bool
is_anchor script = text_beq script (0x51 ∷ 0x02 ∷ 0x4e ∷ 0x73 ∷ [])

unfoldable pub classify_script : ScriptTests → Script → ScriptType
classify_script tests script =
    if tests.is_p2pk script
    then ScriptType.p2pk
    else if tests.is_p2pkh script
    then ScriptType.p2pkh
    else if tests.is_p2sh script
    then ScriptType.p2sh
    else if tests.is_p2wpkh script
    then ScriptType.p2wpkh
    else if tests.is_p2wsh script
    then ScriptType.p2wsh
    else if tests.is_p2tr script
    then ScriptType.p2tr
    else if is_anchor script
    then ScriptType.anchor
    else if tests.is_multisig script
    then ScriptType.bare_multisig
    else if tests.is_op_return script
    then ScriptType.op_return
    else ScriptType.unknown

-- `zero` and `quotient` are 0.0 and the division of numbers converted to f64.
unfoldable pub compute_feerate : {R : Type 0} → R → (ℕ → ℕ → R) → Amount → ℕ → R
compute_feerate zero quotient fee vsize = if nat_beq vsize 0 then zero else quotient fee vsize

-- Amount::checked_add and Amount::checked_sub, on u64 satoshis.
abbrev pub checked_add : Amount → Amount → Option Amount
checked_add a b = if ltb (a + b) (2 ^ 64) then some (a + b) else none

abbrev pub checked_sub : Amount → Amount → Option Amount
checked_sub a b = if leb b a then some (a - b) else none

abbrev pub add_value : Amount → Option Amount → Option Amount
add_value acc none = none
add_value acc (some value) = checked_add acc value

-- The two `try_fold`s.
pub total_in : Option Amount → List TxInput → Option Amount
total_in none inputs = none
total_in (some acc) [] = some acc
total_in (some acc) (input ∷ inputs) = total_in (add_value acc input.value) inputs

pub total_out : Option Amount → List TxOutput → Option Amount
total_out none outputs = none
total_out (some acc) [] = some acc
total_out (some acc) (output ∷ outputs) = total_out (checked_add acc output.value) outputs

abbrev pub difference : Option Amount → Option Amount → Option Amount
difference (some i) (some o) = checked_sub i o
difference _ _ = none

unfoldable pub compute_fee : TxNode → Option Amount
unfolding total_in total_out
compute_fee tx = difference (total_in (some 0) tx.inputs) (total_out (some 0) tx.outputs)

abbrev pub any_below : ℕ → List TxInput → Bool
any_below bound [] = false
any_below bound (input ∷ inputs) = ltb input.sequence bound || any_below bound inputs

unfoldable pub is_rbf_signaling : TxNode → Bool
is_rbf_signaling tx = any_below 0xfffffffe tx.inputs

pub data LocktimeKind : Type 0 where
  disabled block_height timestamp : LocktimeKind

pub record LocktimeInfo : Type 0 where
  pub raw : ℕ
  pub kind : LocktimeKind
  pub active : Bool

unfoldable pub locktime_info : ℕ → Bool → LocktimeInfo
locktime_info locktime has_non_final_sequence =
    if nat_beq locktime 0
    then record { raw = 0; kind = LocktimeKind.disabled; active = false }
    else record {
      raw = locktime;
      kind = if ltb locktime 500000000 then LocktimeKind.block_height else LocktimeKind.timestamp;
      active = has_non_final_sequence;
    }
