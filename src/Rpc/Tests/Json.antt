-- ===== src/Rpc/Tests/Json.antt =====
-- A concrete JSON with the transaction 2 of Graph.Mock, as Bitcoin Core reports it.
use cory.Base.{
  ℕ, zero, suc, Bool, true, false, Option, none, some, List, [], ◌∷◌, ◌⊎◌, inl, inr, nat_eq,
}
use cory.Base.Map.{Map, get}
use cory.Base.Text.{Text, text, text_eq}
use cory.Error.{ℤ, pos}
use cory.Types.{Txid}
use cory.Enrich.{ScriptTests}
use cory.Rpc.Json.{
  ValueView, number, string, other, JsonRpcResponse, JsonRpcResponseOwned, JsonValue, BitcoinTypes,
}

-- Objects are known by their numbers, and an array has one object.
pub data J : Type 0 where
  null : J
  num : ℕ → J
  str : Text → J
  flag : Bool → J
  array : ℕ → J
  object : ℕ → J

-- 0 is the transaction 2, 1 its input, 2 its output, 3 a script, 4 the output that it spends.
abbrev pub fields : ℕ → Map Text J
fields zero =
    (text "txid", str (2 ∷ []))
    ∷ (text "version", num 2)
    ∷ (text "locktime", num 0)
    ∷ (text "size", num 100)
    ∷ (text "vsize", num 100)
    ∷ (text "weight", num 400)
    ∷ (text "vin", array 1)
    ∷ (text "vout", array 2)
    ∷ []
fields (suc zero) =
    (text "txid", str (1 ∷ []))
    ∷ (text "vout", num 0)
    ∷ (text "sequence", num 7)
    ∷ (text "prevout", object 4)
    ∷ []
fields (suc (suc zero)) = (text "value", num 4000) ∷ (text "scriptPubKey", object 3) ∷ []
fields (suc (suc (suc zero))) = (text "hex", str []) ∷ []
fields (suc (suc (suc (suc n)))) = (text "value", num 5000) ∷ (text "scriptPubKey", object 3) ∷ []

abbrev pub get_field : Text → J → Option J
get_field key (object n) = get (fields n) key
get_field key _ = none

abbrev pub viewed : J → ValueView ℕ
viewed (num n) = number (some n)
viewed (str s) = string s
viewed _ = other

abbrev pub is_null_value : J → Bool
is_null_value null = true
is_null_value _ = false

abbrev pub text_of : J → Option Text
text_of (str s) = some s
text_of _ = none

abbrev pub u64_of : J → Option ℕ
u64_of (num n) = some n
u64_of _ = none

abbrev pub i64_of : J → Option ℤ
i64_of (num n) = some (pos n)
i64_of _ = none

abbrev pub array_of : J → Option (List J)
array_of (array n) = some (object n ∷ [])
array_of _ = none

abbrev pub tx_out_of : J → Text ⊎ (J × J)
tx_out_of (object n) = inr (num 4000, object 3)
tx_out_of _ = inl []

-- The body is a number, zero for an error, and the ids that are answered by the object before it.
abbrev pub response_of : Text → Text ⊎ JsonRpcResponse J
response_of (suc k ∷ ids) = inr (record { result = some (object k); error = none })
response_of _ = inr (record { result = none; error = some null })

abbrev pub items_with : ℕ → List ℕ → List (JsonRpcResponseOwned J)
items_with k [] = []
items_with k (id ∷ ids) =
    record { id = num id; result = some (object k); error = none } ∷ items_with k ids

abbrev pub items_of : Text → Text ⊎ List (JsonRpcResponseOwned J)
items_of (suc k ∷ ids) = inr (items_with k ids)
items_of _ = inr []

abbrev pub js : JsonValue J ℕ
js = record {
  null = null;
  view = viewed;
  is_null = is_null_value;
  get = get_field;
  as_str = text_of;
  as_u64 = u64_of;
  as_i64 = i64_of;
  as_array = array_of;
  show = λ v. [];
  of_text = str;
  of_number = num;
  of_bool = flag;
  read_error = λ v. none;
  read_tx_out = tx_out_of;
  read_chain_info = λ v. inl [];
  read_response = response_of;
  read_batch = items_of;
}

abbrev pub txid_of : Text → Text ⊎ Txid
txid_of (t ∷ s) = inr t
txid_of [] = inl []

abbrev pub no_script : ScriptTests
no_script = record {
  is_p2pk = λ s. false;
  is_p2pkh = λ s. false;
  is_p2sh = λ s. false;
  is_p2wpkh = λ s. false;
  is_p2wsh = λ s. false;
  is_p2tr = λ s. false;
  is_multisig = λ s. false;
  is_op_return = λ s. false;
}

abbrev pub bt : BitcoinTypes ℕ
bt = record {
  parse_txid = txid_of;
  show_txid = λ t. t ∷ [];
  parse_block_hash = txid_of;
  show_block_hash = λ h. h ∷ [];
  script_from_hex = inr;
  amount_of_float = inr;
  amount_of_text = λ s. inl [];
  tests = no_script;
}
