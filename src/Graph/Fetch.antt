-- ===== src/Graph/Fetch.antt =====
-- crates/cory-core/src/graph.rs, fetch_and_convert_many: one level of transactions, from the cache
-- or from the node.
pub mod Truth
pub mod Total
pub mod Ends
pub mod Slots
use cory.Base.{ℕ, suc, Option, none, some, List, [], ◌∷◌, set}
use cory.Exec.{Exec, pure, lift, panic, ◌>>=◌, ◌>>◌}
use cory.Types.{Txid, TxNode}
use cory.Graph.World.{Services, World, cached_tx, cache_tx, rpc_transactions}
use cory.Graph.Prevouts.{enrich_tx_node}

-- `ordered`, `missing_positions` and `missing_txids` after the loop over the txids.
pub record Lookups : Type 0 where
  pub ordered : List (Option TxNode)
  pub missing_positions : List ℕ
  pub missing_txids : List Txid

pub note_lookup : ℕ → Txid → Option TxNode → Lookups → Lookups
note_lookup idx txid (some cached) l = record l { ordered = some cached ∷ l.ordered }
note_lookup idx txid none l = record {
  ordered = none ∷ l.ordered;
  missing_positions = idx ∷ l.missing_positions;
  missing_txids = txid ∷ l.missing_txids;
}

-- The loop over the missing positions zipped with the enriched transactions.
pub write_positions : List ℕ → List TxNode → List (Option TxNode) → List (Option TxNode)
write_positions [] enriched ordered = ordered
write_positions (p ∷ positions) [] ordered = ordered
write_positions (p ∷ positions) (node ∷ enriched) ordered =
    write_positions positions enriched (set ordered p (some node))

module _ {T P R : Type 0} (sv : Services T P R) where
  abbrev Action : Type 0 → Type 0
  Action = Exec (World T P R)

  -- The lookups from the index `idx` on.
  pub look_up_all : ℕ → List Txid → Action Lookups
  look_up_all idx [] = pure (record { ordered = []; missing_positions = []; missing_txids = [] })
  look_up_all idx (txid ∷ txids) = do
    found ← cached_tx sv txid
    others ← look_up_all (suc idx) txids
    pure (note_lookup idx txid found others)

  pub enrich_unless_cached : TxNode → Option TxNode → Action TxNode
  enrich_unless_cached tx (some cached) = pure cached
  enrich_unless_cached tx none = do
    tx_node ← enrich_tx_node sv tx
    cache_tx sv tx.txid tx_node
    pure tx_node

  pub enrich_and_cache_tx : TxNode → Action TxNode
  enrich_and_cache_tx tx = do cached ← cached_tx sv tx.txid; enrich_unless_cached tx cached

  -- `try_join_all` of the tasks, one after another.
  pub enrich_all : List TxNode → Action (List TxNode)
  enrich_all [] = pure []
  enrich_all (tx ∷ txs) = do
    node ← enrich_and_cache_tx tx
    nodes ← enrich_all txs
    pure (node ∷ nodes)

  pub fetch_missing : Lookups → List Txid → Action (List (Option TxNode))
  fetch_missing l [] = pure l.ordered
  fetch_missing l (t ∷ missing) = do
    answer ← rpc_transactions sv (t ∷ missing)
    fetched ← lift answer
    enriched ← enrich_all fetched
    pure (write_positions l.missing_positions enriched l.ordered)

  -- `expect("all positions are filled from cache or RPC")`
  pub expect_all : List (Option TxNode) → Action (List TxNode)
  expect_all [] = pure []
  expect_all (none ∷ ordered) = λ w. (panic, w)
  expect_all (some node ∷ ordered) = do nodes ← expect_all ordered; pure (node ∷ nodes)

  unfoldable pub fetch_and_convert_many : List Txid → Action (List TxNode)
  unfolding note_lookup write_positions look_up_all enrich_unless_cached enrich_and_cache_tx
      enrich_all fetch_missing expect_all cached_tx cache_tx rpc_transactions enrich_tx_node
  fetch_and_convert_many txids = do
    l ← look_up_all 0 txids
    ordered ← fetch_missing l l.missing_txids
    expect_all ordered
