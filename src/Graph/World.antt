-- ===== src/Graph/World.antt =====
-- What the functions of crates/cory-core/src/graph.rs share: the cache and the RPC node. The tasks
-- that `try_join_all` runs are modelled one after another, in the order of their list, which is
-- what a semaphore with one permit (`concurrency` 1) does.
use cory.Base.{ℕ, Option, List}
use cory.Error.{Result}
use cory.Exec.{Exec, done}
use cory.Types.{Txid, TxNode, TxOutput, OutPoint}
use cory.Cache.{QuickCache, Cache, get_tx, insert_tx, get_prevout, insert_prevout}
use cory.Rpc.{BitcoinRpc}

pub record Services (T P R : Type 0) : Type 0 where
  pub txs : QuickCache Txid TxNode T
  pub outs : QuickCache (Txid × ℕ) TxOutput P
  pub rpc : BitcoinRpc R

pub record World (T P R : Type 0) : Type 0 where
  pub cache : Cache T P
  pub node : R

module _ {T P R : Type 0} (sv : Services T P R) where
  -- cache.get_tx(txid).await
  unfoldable pub cached_tx : Txid → Exec (World T P R) (Option TxNode)
  unfolding get_tx
  cached_tx txid w =
      let (found, c) = get_tx sv.txs sv.outs txid w.cache in (done found, record w { cache = c })

  -- cache.insert_tx(txid, node).await
  unfoldable pub cache_tx : Txid → TxNode → Exec (World T P R) (Unit {0})
  unfolding insert_tx
  cache_tx txid node w = (done tt, record w { cache = insert_tx sv.txs sv.outs txid node w.cache })

  -- cache.get_prevout(&outpoint.txid, outpoint.vout).await
  unfoldable pub cached_prevout : OutPoint → Exec (World T P R) (Option TxOutput)
  unfolding get_prevout
  cached_prevout op w =
      let (found, c) = get_prevout sv.txs sv.outs op.txid op.vout w.cache in
      (done found, record w { cache = c })

  -- cache.insert_prevout(outpoint.txid, outpoint.vout, info).await
  unfoldable pub cache_prevout : OutPoint → TxOutput → Exec (World T P R) (Unit {0})
  unfolding insert_prevout
  cache_prevout op info w =
      (done tt, record w { cache = insert_prevout sv.txs sv.outs op.txid op.vout info w.cache })

  -- rpc.get_transactions(txids).await
  unfoldable pub rpc_transactions : List Txid → Exec (World T P R) (Result (List TxNode))
  rpc_transactions txids w =
      let (r, n) = sv.rpc.get_transactions txids w.node in (done r, record w { node = n })

  -- rpc.get_tx_outs(outpoints).await
  unfoldable pub rpc_tx_outs : List OutPoint → Exec (World T P R) (Result (List (Option TxOutput)))
  rpc_tx_outs outpoints w =
      let (r, n) = sv.rpc.get_tx_outs outpoints w.node in (done r, record w { node = n })
