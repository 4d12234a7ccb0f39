-- ===== src/Rpc/Json.antt =====
-- What crates/cory-core/src/rpc/http_adapter takes from serde_json and from the bitcoin crate. A
-- value of serde_json is a `V`, a floating-point number is an `F`; errors are their messages.
use cory.Base.{ℕ, Bool, Option, List, ◌⊎◌}
use cory.Base.Text.{Text}
use cory.Error.{ℤ}
use cory.Types.{Txid, BlockHash, Amount, Script}
use cory.Enrich.{ScriptTests}
use cory.Rpc.{ChainInfo}

-- What a match on a value sees: a number, by its as_f64, a string, or another value.
pub data ValueView (F : Type 0) : Type 0 where
  number : Option F → ValueView F
  string : Text → ValueView F
  other : ValueView F

-- protocol.rs: JsonRpcRequest and JsonRpcRequestOwned, which borrow and own the same fields.
pub record JsonRpcRequest (V : Type 0) : Type 0 where
  pub jsonrpc : Text
  pub id : ℕ
  pub method : Text
  pub params : List V

-- protocol.rs
pub record JsonRpcResponse (V : Type 0) : Type 0 where
  pub result : Option V
  pub error : Option V

-- protocol.rs
pub record JsonRpcResponseOwned (V : Type 0) : Type 0 where
  pub id : V
  pub result : Option V
  pub error : Option V

-- The methods of serde_json::Value, `json!` of a string, a number and a bool, and the derived
-- deserialisers: of the JsonRpcError in parse_jsonrpc_error as its code and message, of TxOutResponse
-- as its value and script_pubkey.
pub record JsonValue (V F : Type 0) : Type 0 where
  pub null : V
  pub view : V → ValueView F
  pub is_null : V → Bool
  pub get : Text → V → Option V
  pub as_str : V → Option Text
  pub as_u64 : V → Option ℕ
  pub as_i64 : V → Option ℤ
  pub as_array : V → Option (List V)
  pub show : V → Text
  pub of_text : Text → V
  pub of_number : ℕ → V
  pub of_bool : Bool → V
  pub read_error : V → Option (ℤ × Text)
  pub read_tx_out : V → Text ⊎ (V × V)
  pub read_chain_info : V → Text ⊎ ChainInfo
  pub read_response : Text → Text ⊎ JsonRpcResponse V
  pub read_batch : Text → Text ⊎ List (JsonRpcResponseOwned V)

-- The parsers and printers of the bitcoin crate, amounts in the denomination of bitcoins.
pub record BitcoinTypes (F : Type 0) : Type 0 where
  pub parse_txid : Text → Text ⊎ Txid
  pub show_txid : Txid → Text
  pub parse_block_hash : Text → Text ⊎ BlockHash
  pub show_block_hash : BlockHash → Text
  pub script_from_hex : Text → Text ⊎ Script
  pub amount_of_float : F → Text ⊎ Amount
  pub amount_of_text : Text → Text ⊎ Amount
  pub tests : ScriptTests
