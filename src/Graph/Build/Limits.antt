-- ===== src/Graph/Build/Limits.antt =====
-- build_ancestry (crates/cory-core/src/graph.rs): the limits on the graph, and its statistics.
use cory.Base.{◌≤◌, ◌≡◌, refl, subst, [], arith, length}
use cory.Exec.{done}
use cory.Types.{Txid, GraphLimits, AncestryGraph}
use cory.Graph.World.{Services, World}
use cory.Graph.Bfs.{Bfs}
use cory.Graph.Bfs.Limits.{Bounded, Bounded-start, Bounded-offer, Bounded-node}
use cory.Graph.Backfill.{funding_outputs, backfill_inputs_from_graph}
use cory.Graph.Backfill.Keeps.{length-backfill_nodes}
use cory.Graph.Bfs.Rooted.{IsReached}
use cory.Graph.Build.Edges.{IsRooted, build_ancestry-IsRooted, build_ancestry-IsReached}
use cory.Graph.Build.{finish, build_ancestry}
use cory.Graph.Build.Search.{searched, search_rule_any}

-- The limits hold, and the nodes and the edges are counted.
pub record Counted (root : Txid) (lim : GraphLimits) (g : AncestryGraph) : Type 0 where
  pub few_nodes : length g.nodes ≤ lim.max_nodes
  pub few_edges : length g.edges ≤ lim.max_edges
  pub shallow : g.stats.max_depth_reached ≤ lim.max_depth
  pub nodes_counted : g.stats.node_count ≡ length g.nodes
  pub edges_counted : g.stats.edge_count ≡ length g.edges
  pub same_root : g.root_txid ≡ root

-- The depth in the statistics is right as well: each node lies at the end of at most so many edges
-- from the root, and one lies at the end of exactly so many, unless there are none.
pub record WithinLimits (root : Txid) (lim : GraphLimits) (g : AncestryGraph) : Type 0 where
  pub counted : Counted root lim g
  pub rooted : IsRooted root g
  pub reached : IsReached root g.nodes g.edges g.stats.max_depth_reached

finish-Counted :
    (root : Txid) (lim : GraphLimits) (s : Bfs)
    → Bounded lim s []
    → Counted root lim (finish root s)
unfolding finish backfill_inputs_from_graph
finish-Counted root lim s b = record {
  few_nodes = omega (arith, b.room, length-backfill_nodes (funding_outputs s.nodes) s.nodes);
  few_edges = b.edge_room;
  shallow = b.deepest;
  nodes_counted = refl;
  edges_counted = refl;
  same_root = refl;
}

-- A graph that build_ancestry returns has at most max_nodes nodes and max_edges edges and the
-- root asked for, and its statistics are right: they count its nodes and its edges, and
-- max_depth_reached is at most max_depth, each node lies at the end of a walk of at most so many
-- edges from the root, and, unless it is zero, a node lies at the end of a walk of exactly so
-- many. This holds whatever the cache and the node answer.
pub build_ancestry-WithinLimits :
    {T P R : Type 0} (sv : Services T P R) (root : Txid) (lim : GraphLimits) (w w' : World T P R)
    (g : AncestryGraph)
    → build_ancestry sv root lim w ≡ (done g, w')
    → WithinLimits root lim g
build_ancestry-WithinLimits sv root lim w w' g returned =
    let (s, h) = searched sv root lim w w' g returned in
    let (b, _) =
      search_rule_any sv root lim w w' g returned (Bounded lim) (Bounded-offer lim)
        (Bounded-node lim) (Bounded-start lim root) s h in
    record {
      counted = subst (Counted root lim) h.graph (finish-Counted root lim s b);
      rooted = build_ancestry-IsRooted sv root lim w w' g returned;
      reached = build_ancestry-IsReached sv root lim w w' g returned;
    }
