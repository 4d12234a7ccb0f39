-- ===== src/Rpc/Client/Methods.antt =====
-- crates/cory-core/src/rpc/http_adapter/client.rs: the methods of BitcoinRpc, and the errors of
-- getrawtransaction.
use cory.Base.{ℕ, Bool, false, true, ◌&&◌, ◌||◌, List, [], ◌∷◌, Option, nat_beq, if◌then◌else◌}
use cory.Base.Text.{Text, text, contains_text, to_ascii_lowercase}
use cory.Error.{
  ℤ, pos, negsuc, RpcError, CoreError, Result, ok, err, rpc, server_error, tx_not_found,
}
use cory.Types.{Txid, OutPoint, TxOutput, TxNode}
use cory.Rpc.{BitcoinRpc, ChainInfo, call_each}
use cory.Rpc.Json.{JsonValue, BitcoinTypes}
use cory.Rpc.Parsing.{checked, try_map, parse_gettxout_result}
use cory.Rpc.Client.{
  Network, HttpRpcClient, ClientState, Call, lift, ◌>>=◌, rpc_call, rpc_batch_chunked,
}
use cory.Rpc.Client.Transactions.{parse_tx_node_from_raw}

-- is_tx_not_found_server_error
pub is_tx_not_found_server_error : ℤ → Text → Bool
is_tx_not_found_server_error (negsuc n) message =
    let msg = to_ascii_lowercase message in
    nat_beq n 4
    && (contains_text (text "not found") msg
        || contains_text (text "no such mempool or blockchain transaction") msg)
is_tx_not_found_server_error (pos n) message = false

unfoldable pub normalize_getrawtransaction_error : Txid → CoreError → CoreError
unfolding is_tx_not_found_server_error contains_text
normalize_getrawtransaction_error txid (CoreError.rpc (RpcError.server_error code message)) =
    if is_tx_not_found_server_error code message
    then tx_not_found txid
    else rpc (server_error code message)
normalize_getrawtransaction_error txid other = other

abbrev pub map_error : {S A : Type 0} → (CoreError → CoreError) → Result A × S → Result A × S
map_error f (ok a, s) = (ok a, s)
map_error f (err e, s) = (err (f e), s)

-- The calls, as a method with its parameters.
module _ {V F : Type 0} (js : JsonValue V F) (bt : BitcoinTypes F) where
  abbrev pub getrawtransaction : Txid → Text × List V
  getrawtransaction txid =
      (text "getrawtransaction", js.of_text (bt.show_txid txid) ∷ js.of_number 1 ∷ [])

  abbrev pub gettxout : Txid → ℕ → Text × List V
  gettxout txid vout =
      (text "gettxout", js.of_text (bt.show_txid txid) ∷ js.of_number vout ∷ js.of_bool true ∷ [])

  abbrev pub raw_calls : List Txid → List (Text × List V)
  raw_calls [] = []
  raw_calls (txid ∷ txids) = getrawtransaction txid ∷ raw_calls txids

  abbrev pub out_calls : List OutPoint → List (Text × List V)
  out_calls [] = []
  out_calls (outpoint ∷ outpoints) = gettxout outpoint.txid outpoint.vout ∷ out_calls outpoints

module _ {V F C N : Type 0} (js : JsonValue V F) (bt : BitcoinTypes F) (net : Network V C N)
    (client : HttpRpcClient) where
  abbrev State : Type 0
  State = ClientState C N

  abbrev call_with : Text × List V → Call State V
  call_with (method, params) = rpc_call js net client method params

  unfoldable pub get_transaction : Txid → Call State TxNode
  get_transaction txid = do
    raw ← λ s.
        map_error (normalize_getrawtransaction_error txid)
          (call_with (getrawtransaction js bt txid) s)
    parse_tx_node_from_raw js bt net client raw

  unfoldable pub nodes_of : List Txid → Result (List V) → Call State (List TxNode)
  nodes_of txids (ok raw_results) = call_each (parse_tx_node_from_raw js bt net client) raw_results
  nodes_of txids (err batch_error) = call_each get_transaction txids

  unfoldable pub get_transactions : List Txid → Call State (List TxNode)
  unfolding nodes_of
  get_transactions [] s = (ok [], s)
  get_transactions (txid ∷ txids) s =
      let (r, s') = rpc_batch_chunked js net client (raw_calls js bt (txid ∷ txids)) s in
      nodes_of (txid ∷ txids) r s'

  unfoldable pub get_tx_out : Txid → ℕ → Call State (Option TxOutput)
  get_tx_out txid vout = do
    raw ← call_with (gettxout js bt txid vout)
    lift (parse_gettxout_result js bt raw)

  unfoldable pub get_tx_outs : List OutPoint → Call State (List (Option TxOutput))
  get_tx_outs [] = lift (ok [])
  get_tx_outs (outpoint ∷ outpoints) = do
    raw_results ← rpc_batch_chunked js net client (out_calls js bt (outpoint ∷ outpoints))
    lift (try_map (parse_gettxout_result js bt) raw_results)

  unfoldable pub get_blockchain_info : Call State ChainInfo
  get_blockchain_info = do
    raw ← rpc_call js net client (text "getblockchaininfo") []
    lift (checked (text "invalid getblockchaininfo result: ") (js.read_chain_info raw))

  -- impl BitcoinRpc for HttpRpcClient
  abbrev pub http_rpc : BitcoinRpc State
  http_rpc = record {
    get_transaction = get_transaction;
    get_transactions = get_transactions;
    get_tx_out = get_tx_out;
    get_tx_outs = get_tx_outs;
    get_blockchain_info = get_blockchain_info;
  }
