-- ===== src/Rpc/Mock.antt =====
-- crates/cory-core/src/rpc/mock.rs: the node of the unit tests, and its builder.
use cory.Base.{ℕ, Option, none, some, [], false, nat_eq, get_elem?}
use cory.Base.Map.{Map, get, insert}
use cory.Base.Text.{text}
use cory.Error.{tx_not_found, Result, ok, err}
use cory.Types.{Txid, TxNode, TxOutput}
use cory.Rpc.{BitcoinRpc, ChainInfo, get_transactions_default, get_tx_outs_default}

pub record MockRpc : Type 0 where
  pub transactions : Map Txid TxNode
  pub chain_info : ChainInfo

-- It has the same fields as the mock.
pub record MockRpcBuilder : Type 0 where
  pub transactions : Map Txid TxNode
  pub chain_info : ChainInfo

abbrev pub builder : MockRpcBuilder
builder = record {
  transactions = [];
  chain_info = record { chain = text "regtest"; blocks = 100; best_block_hash = 0; pruned = false };
}

abbrev pub with_tx : TxNode → MockRpcBuilder → MockRpcBuilder
with_tx tx b = record b { transactions = insert tx.txid tx b.transactions }

abbrev pub with_chain_info : ChainInfo → MockRpcBuilder → MockRpcBuilder
with_chain_info info b = record b { chain_info = info }

abbrev pub build : MockRpcBuilder → MockRpc
build b = record { transactions = b.transactions; chain_info = b.chain_info }

abbrev pub tx_or_not_found : Txid → Option TxNode → Result TxNode
tx_or_not_found txid none = err (tx_not_found txid)
tx_or_not_found txid (some tx) = ok tx

abbrev pub output_in : ℕ → Option TxNode → Option TxOutput
output_in vout none = none
output_in vout (some tx) = get_elem? tx.outputs vout

-- impl BitcoinRpc for MockRpc; the mock has no state of its own.
module _ (m : MockRpc) where
  abbrev mock_transaction : Txid → Unit {0} → Result TxNode × Unit {0}
  mock_transaction txid u = (tx_or_not_found txid (get m.transactions txid), u)

  abbrev mock_tx_out : Txid → ℕ → Unit {0} → Result (Option TxOutput) × Unit {0}
  mock_tx_out txid vout u = (ok (output_in vout (get m.transactions txid)), u)

  abbrev pub mock_rpc : BitcoinRpc (Unit {0})
  mock_rpc = record {
    get_transaction = mock_transaction;
    get_transactions = get_transactions_default mock_transaction;
    get_tx_out = mock_tx_out;
    get_tx_outs = get_tx_outs_default mock_tx_out;
    get_blockchain_info = λ u. (ok m.chain_info, u);
  }
