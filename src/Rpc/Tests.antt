-- ===== src/Rpc/Tests.antt =====
-- The client (crates/cory-core/src/rpc/http_adapter) on a concrete node.
mod Json
mod Reported
mod Server
use cory.Base.{◌≡◌, refl, Option, some, none, List, [], ◌∷◌, Each, arith, length}
use cory.Error.{Result, ok, err}
use cory.Types.{Txid, OutPoint, TxOutput, TxNode}
use cory.Graph.Chain.{FaithfulAt, AnswersOut}
use cory.Graph.Mock.{output_of}
use cory.Graph.Mock.Honest.{fixed_chain}
use cory.Enrich.{classify_script}
use cory.Rpc.{call_each}
use cory.Rpc.Parsing.{
  parse_txid, parse_integer_required, parse_integer_optional, parse_opt_block_hash, parse_vin,
  parse_vout, parse_gettxout_result, parse_btc_amount, parse_script_pubkey_from_json,
  script_from_hex,
}
use cory.Rpc.Protocol.{parse_batch_id, parse_jsonrpc_error}
use cory.Rpc.Client.{rpc_call, rpc_batch, rpc_batch_chunked, ◌>>=◌}
use cory.Rpc.Client.Transactions.{parse_tx_node_from_raw, get_block_height}
use cory.Rpc.Client.Methods.{get_transactions, get_transaction, get_tx_outs}
use cory.Rpc.Client.Truth.{get_transactions-FaithfulAt, get_tx_outs-AnswersOut}
use cory.Rpc.Tests.Json.{js, bt}
use cory.Rpc.Tests.Server.{net, client, client_start, server-IsServer}

abbrev nodes_in : Result (List TxNode) → List TxNode
nodes_in (ok nodes) = nodes
nodes_in (err e) = []

-- Two batches: three requests, in chunks of two.
abbrev twos : List Txid
twos = 2 ∷ 2 ∷ 2 ∷ []

abbrev fetched : List TxNode
fetched = nodes_in (get_transactions js bt net client twos client_start).0

fetched_all : (get_transactions js bt net client twos client_start).0 ≡ ok fetched
unfolding get_transactions rpc_batch_chunked rpc_batch call_each ◌>>=◌ parse_tx_node_from_raw
    parse_txid parse_integer_required parse_integer_optional parse_opt_block_hash parse_vin
    parse_vout parse_batch_id parse_btc_amount parse_script_pubkey_from_json
fetched_all = refl

get_transactions-FaithfulAt_example : Each (FaithfulAt fixed_chain) twos fetched
get_transactions-FaithfulAt_example =
    get_transactions-FaithfulAt js bt net client fixed_chain server-IsServer twos client_start
      fetched (omega arith) (omega arith) fetched_all

abbrev output : OutPoint
output = record { txid = 2; vout = 0 }

answered :
    (get_tx_outs js bt net client (output ∷ output ∷ []) client_start).0
    ≡ ok (some (output_of 4000) ∷ some (output_of 4000) ∷ [])
unfolding get_tx_outs rpc_batch_chunked rpc_batch call_each ◌>>=◌ parse_gettxout_result
    parse_batch_id classify_script
answered = refl

get_tx_outs-AnswersOut_example :
    Each
      (AnswersOut fixed_chain)
      (output ∷ output ∷ [])
      (some (output_of 4000) ∷ some (output_of 4000) ∷ [])
get_tx_outs-AnswersOut_example =
    get_tx_outs-AnswersOut js bt net client fixed_chain server-IsServer (output ∷ output ∷ [])
      client_start (some (output_of 4000) ∷ some (output_of 4000) ∷ []) (omega arith) (omega arith)
      answered
