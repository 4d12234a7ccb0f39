-- ===== src/Graph/Fetch/Ends.antt =====
-- fetch_and_convert_many (crates/cory-core/src/graph.rs) ends whatever the node and the caches do.
use cory.Base.{ℕ, suc, Option, none, some, List, [], ◌∷◌}
use cory.Exec.{Ends, Ends-pure, Ends-lift, Ends-then}
use cory.Types.{Txid, TxNode}
use cory.Graph.World.{Services}
use cory.Graph.Fetch.{
  Lookups, note_lookup, write_positions, look_up_all, enrich_unless_cached, enrich_and_cache_tx,
  enrich_all, fetch_missing, expect_all, fetch_and_convert_many,
}
use cory.Graph.Prevouts.Ends.{
  cached_tx-Ends, cache_tx-Ends, rpc_transactions-Ends, enrich_tx_node-Ends,
}

module _ {T P R : Type 0} (sv : Services T P R) where
  enrich_unless_cached-Ends :
      (tx : TxNode) (found : Option TxNode) → Ends (enrich_unless_cached sv tx found)
  unfolding enrich_unless_cached
  enrich_unless_cached-Ends tx (some cached) = Ends-pure cached
  enrich_unless_cached-Ends tx none =
      Ends-then (enrich_tx_node-Ends sv tx)
        (λ node. Ends-then (cache_tx-Ends sv tx.txid node) (λ _. Ends-pure node))

  enrich_all-Ends : (txs : List TxNode) → Ends (enrich_all sv txs)
  unfolding enrich_all enrich_and_cache_tx
  enrich_all-Ends [] = Ends-pure []
  enrich_all-Ends (tx ∷ txs) =
      Ends-then
        (Ends-then (cached_tx-Ends sv tx.txid) (λ found. enrich_unless_cached-Ends tx found))
        (λ node. Ends-then (enrich_all-Ends txs) (λ nodes. Ends-pure (node ∷ nodes)))

  look_up_all-Ends : (idx : ℕ) (ts : List Txid) → Ends (look_up_all sv idx ts)
  unfolding look_up_all
  look_up_all-Ends idx [] =
      Ends-pure (record { ordered = []; missing_positions = []; missing_txids = [] })
  look_up_all-Ends idx (t ∷ ts) = Ends-then (cached_tx-Ends sv t) (λ found.
      Ends-then (look_up_all-Ends (suc idx) ts) (λ l. Ends-pure (note_lookup idx t found l)))

  fetch_missing-Ends : (l : Lookups) (ts : List Txid) → Ends (fetch_missing sv l ts)
  unfolding fetch_missing
  fetch_missing-Ends l [] = Ends-pure l.ordered
  fetch_missing-Ends l (t ∷ ts) = Ends-then (rpc_transactions-Ends sv (t ∷ ts)) (λ answer.
      Ends-then (Ends-lift answer) (λ fetched.
        Ends-then (enrich_all-Ends fetched)
          (λ enriched. Ends-pure (write_positions l.missing_positions enriched l.ordered))))

  expect_all-Ends : (slots : List (Option TxNode)) → Ends (expect_all sv slots)
  unfolding expect_all
  expect_all-Ends [] = Ends-pure []
  expect_all-Ends (none ∷ slots) = record { ends = λ w. tt }
  expect_all-Ends (some n ∷ slots) =
      Ends-then (expect_all-Ends slots) (λ nodes. Ends-pure (n ∷ nodes))

  pub fetch_and_convert_many-Ends : (ts : List Txid) → Ends (fetch_and_convert_many sv ts)
  unfolding fetch_and_convert_many
  fetch_and_convert_many-Ends ts =
      Ends-then (look_up_all-Ends 0 ts)
        (λ l. Ends-then (fetch_missing-Ends l l.missing_txids) (λ slots. expect_all-Ends slots))
