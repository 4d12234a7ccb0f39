-- ===== src/Graph/Build.antt =====
-- crates/cory-core/src/graph.rs, build_ancestry: search, then backfill.
pub mod Search
pub mod Truth
pub mod Limits
pub mod Edges
pub mod Ends
use cory.Base.{length}
use cory.Exec.{Exec, pure, ◌>>=◌}
use cory.Types.{Txid, GraphLimits, AncestryGraph}
use cory.Graph.World.{Services, World}
use cory.Graph.Fetch.{fetch_and_convert_many}
use cory.Graph.Bfs.{Bfs, search_ancestry}
use cory.Graph.Backfill.{backfill_inputs_from_graph}

-- The graph from the variables of the loop.
pub finish : Txid → Bfs → AncestryGraph
finish root s = record {
  nodes = backfill_inputs_from_graph s.nodes;
  edges = s.edges;
  root_txid = root;
  truncated = s.truncated;
  stats = record {
    node_count = length (backfill_inputs_from_graph s.nodes);
    edge_count = length s.edges;
    max_depth_reached = s.max_depth_reached;
  };
}

unfoldable pub build_ancestry :
    {T P R : Type 0} → Services T P R → Txid → GraphLimits → Exec (World T P R) AncestryGraph
unfolding finish search_ancestry fetch_and_convert_many backfill_inputs_from_graph
build_ancestry sv root lim = do
  s ← search_ancestry (fetch_and_convert_many sv) lim root
  pure (finish root s)
