-- ===== src/Graph/Tests.antt =====
-- build_ancestry (crates/cory-core/src/graph.rs) on a chain of three transactions.
use cory.Base.{◌≡◌, refl, length, true, false, ℕ, List, [], ◌∷◌, All, nat_eq, Each}
use cory.Base.Map.{Map, get}
use cory.Error.{ok}
use cory.Exec.{Outcome, done, ◌>>=◌}
use cory.Types.{Txid, TxNode, TxOutput, default_limits, AncestryGraph, is_coinbase}
use cory.Rpc.{get_transactions_default, get_tx_outs_default, get_transactions_default-Each}
use cory.Rpc.Mock.{builder, build, mock_rpc}
use cory.Graph.Mock.Registered.{with_txs, build-IsHonest}
use cory.Graph.World.{World}
use cory.Graph.Chain.{CacheFaithful, IsHonest}
use cory.Graph.Bfs.Edges.{IsEdgeOf}
use cory.Graph.Bfs.Closed.{IsComplete}
use cory.Graph.Backfill.Truth.{NodesFaithful}
use cory.Graph.Mock.{mock, tx, input_of, output_of, chain}
use cory.Graph.Mock.Honest.{
  fixed_services, fixed_world, fixed_chain, fixed_rpc-IsHonest, fixed_world-CacheFaithful,
}
use cory.Graph.Build.{build_ancestry}
use cory.Graph.Build.Limits.{WithinLimits, build_ancestry-WithinLimits}
use cory.Graph.Build.Edges.{build_ancestry-IsEdgeOf, build_ancestry-IsComplete}
use cory.Graph.Build.Ends.{ReturnsOrFails, build_ancestry-ReturnsOrFails}
use cory.Graph.Build.Truth.{
  HasValues, build_ancestry-NodesFaithful, build_ancestry-HasValues, build_ancestry-CacheFaithful,
}

abbrev no_graph : AncestryGraph
no_graph = record {
  nodes = [];
  edges = [];
  root_txid = 0;
  truncated = true;
  stats = record { node_count = 0; edge_count = 0; max_depth_reached = 0 };
}

abbrev graph_of : Outcome AncestryGraph → AncestryGraph
graph_of (done g) = g
graph_of _ = no_graph

abbrev result : Outcome AncestryGraph × World (Map Txid TxNode) (Map (Txid × ℕ) TxOutput) (Unit {0})
result = build_ancestry fixed_services 3 default_limits fixed_world

abbrev graph : AncestryGraph
graph = graph_of result.0

three_node_chain : length graph.nodes ≡ 3
unfolding build_ancestry ◌>>=◌ get_transactions_default get_tx_outs_default is_coinbase
three_node_chain = refl

two_edges : length graph.edges ≡ 2
unfolding build_ancestry ◌>>=◌ get_transactions_default get_tx_outs_default is_coinbase
two_edges = refl

returned : build_ancestry fixed_services 3 default_limits fixed_world ≡ (done graph, result.1)
unfolding build_ancestry ◌>>=◌ get_transactions_default get_tx_outs_default is_coinbase
returned = refl

not_truncated : graph.truncated ≡ false
unfolding build_ancestry ◌>>=◌ get_transactions_default get_tx_outs_default is_coinbase
not_truncated = refl

build_ancestry-WithinLimits_example : WithinLimits 3 default_limits graph
build_ancestry-WithinLimits_example =
    build_ancestry-WithinLimits fixed_services 3 default_limits fixed_world result.1 graph returned

build_ancestry-IsEdgeOf_example : All (IsEdgeOf graph.nodes) graph.edges
build_ancestry-IsEdgeOf_example =
    build_ancestry-IsEdgeOf fixed_services 3 default_limits fixed_world result.1 graph returned

build_ancestry-IsComplete_example : IsComplete 3 graph.nodes graph.edges
build_ancestry-IsComplete_example =
    build_ancestry-IsComplete fixed_services 3 default_limits fixed_world result.1 graph returned
      not_truncated

build_ancestry-ReturnsOrFails_example : ReturnsOrFails fixed_services result.0
build_ancestry-ReturnsOrFails_example =
    build_ancestry-ReturnsOrFails fixed_services 3 default_limits fixed_world

build_ancestry-NodesFaithful_example : NodesFaithful fixed_chain graph.nodes
build_ancestry-NodesFaithful_example =
    build_ancestry-NodesFaithful fixed_chain fixed_services fixed_rpc-IsHonest 3 default_limits
      fixed_world result.1 graph fixed_world-CacheFaithful returned

build_ancestry-HasValues_example : HasValues fixed_chain graph.nodes
build_ancestry-HasValues_example =
    build_ancestry-HasValues fixed_chain fixed_services fixed_rpc-IsHonest 3 default_limits
      fixed_world result.1 graph fixed_world-CacheFaithful returned

build_ancestry-CacheFaithful_example : CacheFaithful fixed_chain fixed_services result.1
build_ancestry-CacheFaithful_example =
    build_ancestry-CacheFaithful fixed_chain fixed_services fixed_rpc-IsHonest 3 default_limits
      fixed_world result.1 graph fixed_world-CacheFaithful returned

abbrev two_txs : List TxNode
two_txs =
    tx 3 (input_of 2 0 ∷ []) (output_of 3000 ∷ [])
    ∷ tx 2 (input_of 1 0 ∷ []) (output_of 4000 ∷ [])
    ∷ []

two_answers : (get_transactions_default mock.get_transaction (3 ∷ 2 ∷ []) chain).0 ≡ ok two_txs
unfolding get_transactions_default
two_answers = refl

get_transactions_default-Each_example :
    Each
      (λ txid node. (s : Map Txid TxNode) × ((mock.get_transaction txid s).0 ≡ ok node))
      (3 ∷ 2 ∷ [])
      two_txs
get_transactions_default-Each_example =
    get_transactions_default-Each mock.get_transaction (3 ∷ 2 ∷ []) chain two_txs two_answers

abbrev registered : List TxNode
registered = tx 2 (input_of 1 0 ∷ []) (output_of 4000 ∷ []) ∷ tx 1 [] (output_of 5000 ∷ []) ∷ []

build-IsHonest_example :
    IsHonest
      (get (build (with_txs registered builder)).transactions)
      (mock_rpc (build (with_txs registered builder)))
build-IsHonest_example = build-IsHonest registered (((refl, refl), tt), (tt, tt))
