-- ===== src/Rpc/Parsing.antt =====
-- crates/cory-core/src/rpc/http_adapter/parsing.rs: transactions and outputs from JSON values.
pub mod Reports
pub mod Readings
pub mod Inputs
use cory.Base.{
  ℕ, suc, ◌-◌, ◌^◌, Bool, true, false, Option, none, some, List, [], ◌∷◌, ◌++◌, ◌⊎◌, inl, inr, ltb,
  if◌then◌else◌,
}
use cory.Base.Text.{Text, text, decimal}
use cory.Error.{ℤ, pos, negsuc, Result, ok, err, invalid_tx_data, ◌>>=◌}
use cory.Types.{Txid, BlockHash, Amount, Script, ScriptType, OutPoint, TxInput, TxOutput, is_some}
use cory.Enrich.{classify_script}
use cory.Rpc.Json.{ValueView, number, string, other, JsonValue, BitcoinTypes}

abbrev pub invalid : {A : Type 0} → Text → Result A
invalid message = err (invalid_tx_data message)

-- `map_err` into InvalidTxData
abbrev pub checked : {A : Type 0} → Text → Text ⊎ A → Result A
checked prefix (inl message) = invalid (prefix ++ message)
checked prefix (inr a) = ok a

-- `ok_or_else` with InvalidTxData
abbrev pub required : {A : Type 0} → Text → Option A → Result A
required message none = invalid message
required message (some a) = ok a

-- Option::and_then and Result::ok
abbrev pub and_then : {A B : Type 0} → Option A → (A → Option B) → Option B
and_then none f = none
and_then (some a) f = f a

abbrev pub ok_of : {A : Type 0} → Result A → Option A
ok_of (ok a) = some a
ok_of (err e) = none

-- `iter().map(f).collect()` into a Result
abbrev pub try_map : {A B : Type 0} → (A → Result B) → List A → Result (List B)
try_map f [] = ok []
try_map f (a ∷ list) = do b ← f a; bs ← try_map f list; ok (b ∷ bs)

-- The integer types that parse_integer is used at.
pub data Integer : Type 0 where
  i32 u32 u64 : Integer

abbrev in_range : Integer → ℤ → Bool
in_range Integer.i32 (pos n) = ltb n (2 ^ 31)
in_range Integer.i32 (negsuc n) = ltb n (2 ^ 31)
in_range Integer.u32 (pos n) = ltb n (2 ^ 32)
in_range Integer.u64 (pos n) = ltb n (2 ^ 64)
in_range _ (negsuc n) = false

-- The bit pattern; only an i32 is ever negative.
abbrev bits : ℤ → ℕ
bits (pos n) = n
bits (negsuc n) = 2 ^ 32 - suc n

abbrev show_integer : ℤ → Text
show_integer (pos n) = decimal n
show_integer (negsuc n) = 45 ∷ decimal (suc n)

pub missing_or_none : Bool → Text → Result (Option ℕ)
missing_or_none true field = invalid (text "missing " ++ field)
missing_or_none false field = ok none

-- T::try_from(n)
pub converted : Integer → Text → ℤ → Result (Option ℕ)
converted T field n =
    if in_range T n
    then ok (some (bits n))
    else invalid (field ++ text " out of range: " ++ show_integer n)

pub with_number : Integer → Bool → Text → Option ℤ → Result (Option ℕ)
with_number T is_required field none = missing_or_none is_required field
with_number T is_required field (some n) = converted T field n

abbrev pos_of : Option ℕ → Option ℤ
pos_of none = none
pos_of (some n) = some (pos n)

module _ {V F : Type 0} (js : JsonValue V F) where
  pub read_number : Bool → V → Option ℤ
  read_number true value = js.as_i64 value
  read_number false value = pos_of (js.as_u64 value)

  unfoldable pub parse_integer : Integer → Bool → Bool → Option V → Text → Result (Option ℕ)
  unfolding missing_or_none converted with_number read_number
  parse_integer T signed is_required none field = missing_or_none is_required field
  parse_integer T signed is_required (some value) field =
      with_number T is_required field (read_number signed value)

  unfoldable pub parse_integer_required : Integer → Bool → Option V → Text → Result ℕ
  unfolding parse_integer
  parse_integer_required T signed value field =
      parse_integer T signed true value field >>= required (text "missing " ++ field)

  abbrev pub join : Option (Option ℕ) → Option ℕ
  join none = none
  join (some n) = n

  unfoldable pub parse_integer_optional : Integer → Bool → Option V → Option ℕ
  unfolding parse_integer
  parse_integer_optional T signed value =
      join (ok_of (parse_integer T signed false value (text "value")))

  module _ (bt : BitcoinTypes F) where
    unfoldable pub parse_txid : Option V → Text → Result Txid
    parse_txid value field = do
      s ← required (text "missing " ++ field) (and_then value js.as_str)
      checked (text "invalid " ++ field ++ text ": ") (bt.parse_txid s)

    pub parse_opt_text : Option Text → Result (Option BlockHash)
    parse_opt_text none = ok none
    parse_opt_text (some s) = do
      hash ← checked (text "invalid blockhash: ") (bt.parse_block_hash s)
      ok (some hash)

    unfoldable pub parse_opt_block_hash : Option V → Result (Option BlockHash)
    unfolding parse_opt_text
    parse_opt_block_hash value = parse_opt_text (and_then value js.as_str)

    unfoldable pub script_from_hex : Text → Result Script
    script_from_hex hex_str =
        checked (text "invalid scriptPubKey hex: ") (bt.script_from_hex hex_str)

    unfoldable pub parse_script_pubkey_from_json : V → Result Script
    unfolding script_from_hex
    parse_script_pubkey_from_json spk = do
      hex_str ←
          required (text "missing hex in scriptPubKey")
            (and_then (js.get (text "hex") spk) js.as_str)
      script_from_hex hex_str

    pub parse_viewed : V → ValueView F → Result Amount
    parse_viewed value (number n) = do
      parsed ← required (text "invalid BTC amount `" ++ js.show value ++ text "`") n
      checked (text "invalid BTC amount `" ++ js.show value ++ text "`: ")
          (bt.amount_of_float parsed)
    parse_viewed value (string s) =
        checked (text "invalid BTC amount `" ++ s ++ text "`: ") (bt.amount_of_text s)
    parse_viewed value other = invalid (text "expected numeric BTC amount, got: " ++ js.show value)

    unfoldable pub parse_btc_amount : V → Result Amount
    unfolding parse_viewed
    parse_btc_amount value = parse_viewed value (js.view value)

    -- The output with this amount and script.
    abbrev pub output_with : Amount → Script → TxOutput
    output_with value script = record {
      value = value;
      script_pub_key = script;
      script_type = classify_script bt.tests script;
    }

    pub parse_present : V → Result (Option TxOutput)
    unfolding parse_btc_amount parse_script_pubkey_from_json
    parse_present raw = do
      response ← checked (text "invalid gettxout result: ") (js.read_tx_out raw)
      value ← parse_btc_amount response.0
      script ← parse_script_pubkey_from_json response.1
      ok (some (output_with value script))

    unfoldable pub parse_gettxout_result : V → Result (Option TxOutput)
    unfolding parse_present
    parse_gettxout_result raw = if js.is_null raw then ok none else parse_present raw

    pub parse_prevout : Bool → V → Result (Option OutPoint)
    unfolding parse_txid parse_integer_required
    parse_prevout true input = ok none
    parse_prevout false input = do
      prev_txid ← parse_txid (js.get (text "txid") input) (text "vin.txid")
      prev_vout ←
          parse_integer_required Integer.u32 false (js.get (text "vout") input) (text "vin.vout")
      ok (some (record { txid = prev_txid; vout = prev_vout }))

    abbrev pub prevout_value : V → Option Amount
    prevout_value input =
        and_then (js.get (text "prevout") input)
          (λ p. and_then (js.get (text "value") p) (λ v. ok_of (parse_btc_amount v)))

    abbrev pub prevout_script : V → Option Script
    prevout_script input = and_then (js.get (text "prevout") input) (λ p.
        and_then (js.get (text "scriptPubKey") p) (λ s.
          and_then (js.get (text "hex") s)
            (λ h. and_then (js.as_str h) (λ hex_str. ok_of (script_from_hex hex_str)))))

    abbrev pub type_of : Option Script → Option ScriptType
    type_of none = none
    type_of (some script) = some (classify_script bt.tests script)

    pub parse_input : V → Result TxInput
    unfolding parse_prevout
    parse_input input = do
      sequence ←
          parse_integer_required Integer.u32 false (js.get (text "sequence") input)
            (text "sequence")
      prevout ← parse_prevout (is_some (js.get (text "coinbase") input)) input
      ok (record {
        prevout = prevout;
        sequence = sequence;
        value = prevout_value input;
        script_type = type_of (prevout_script input);
      })

    unfoldable pub parse_vin : List V → Result (List TxInput)
    unfolding parse_input
    parse_vin vin = try_map parse_input vin

    pub parse_output : V → Result TxOutput
    parse_output output = do
      amount ← required (text "missing value in vout") (js.get (text "value") output)
      value ← parse_btc_amount amount
      spk ← required (text "missing scriptPubKey in vout") (js.get (text "scriptPubKey") output)
      script ← parse_script_pubkey_from_json spk
      ok (output_with value script)

    unfoldable pub parse_vout : List V → Result (List TxOutput)
    unfolding parse_output
    parse_vout vout = try_map parse_output vout
