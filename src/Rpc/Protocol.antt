-- ===== src/Rpc/Protocol.antt =====
-- crates/cory-core/src/rpc/http_adapter/protocol.rs: errors and ids in JSON-RPC answers.
use cory.Base.{ℕ, ◌^◌, Option, none, some, ◌++◌, ◌⊎◌, inl, inr}
use cory.Base.Text.{Text, text}
use cory.Base.Integers.{parse_unsigned}
use cory.Error.{ℤ, CoreError, rpc, server_error, invalid_response, Result, ok, err}
use cory.Rpc.Json.{JsonValue}

pub error_of : Text → Option (ℤ × Text) → CoreError
error_of shown (some (code, message)) = rpc (server_error code message)
error_of shown none = rpc (invalid_response (text "non-standard JSON-RPC error: " ++ shown))

pub id_of_text : Text ⊎ ℕ → Result ℕ
id_of_text (inr n) = ok n
id_of_text (inl message) =
    err (rpc (invalid_response (text "invalid batch response id string: " ++ message)))

pub id_of : Text → Option ℕ → Option Text → Result ℕ
unfolding id_of_text
id_of shown (some n) s = ok n
id_of shown none (some s) = id_of_text (parse_unsigned (2 ^ 64) s)
id_of shown none none = err (rpc (invalid_response (text "invalid batch response id: " ++ shown)))

module _ {V F : Type 0} (js : JsonValue V F) where
  unfoldable pub parse_jsonrpc_error : V → CoreError
  unfolding error_of
  parse_jsonrpc_error e = error_of (js.show e) (js.read_error e)

  unfoldable pub parse_batch_id : V → Result ℕ
  unfolding id_of
  parse_batch_id id = id_of (js.show id) (js.as_u64 id) (js.as_str id)
