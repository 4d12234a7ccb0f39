-- ===== src/Graph/Bfs/Limits.antt =====
-- The limits on the graph that build_ancestry returns (crates/cory-core/src/graph.rs).
use cory.Base.{ℕ, ◌+◌, ◌≤◌, [], ◌∷◌, arith, length, All, All-append, length-append, nat_eq}
use cory.Base.Map.{length-insert}
use cory.Types.{Txid, GraphLimits}
use cory.Graph.Bfs.{
  Bfs, Queue, Verdict, verdict, advance, insert_node, add_edges, note_depth, start,
}
use cory.Graph.Bfs.Rules.{KeepsOffer, KeepsNode, View, view}
use cory.Graph.Bfs.Pushes.{push_edges-SameBut, length-push_edges}

pub record Bounded (lim : GraphLimits) (s : Bfs) (f : Queue) : Type 0 where
  pub room : length s.nodes + length f ≤ lim.max_nodes
  pub edge_room : length s.edges ≤ lim.max_edges
  pub deepest : s.max_depth_reached ≤ lim.max_depth
  pub shallow : All (λ p. p.1 ≤ lim.max_depth) f

pub Bounded-start : (lim : GraphLimits) (root : Txid) → Bounded lim (start root) []
Bounded-start lim root = omega arith

module _ (lim : GraphLimits) where
  Bounded-advance :
      (s : Bfs) (f : Queue) (t : Txid) (d : ℕ) (rest : Queue) (v : Verdict)
      → View lim s f t d v
      → Bounded lim s f
      → Bounded lim (advance v t d rest s f).0 (advance v t d rest s f).1
  unfolding advance
  Bounded-advance s f t d rest Verdict.accept (View.accept new room depth few) b = record {
    room = omega (arith, b.room, length-append f ((t, d) ∷ []));
    edge_room = b.edge_room;
    deepest = b.deepest;
    shallow =
        All-append (λ (p : Txid × ℕ). p.1 ≤ lim.max_depth) f ((t, d) ∷ []) b.shallow (depth, tt);
  }
  Bounded-advance s f t d rest v w b = record {
    room = b.room;
    edge_room = b.edge_room;
    deepest = b.deepest;
    shallow = b.shallow;
  }

  pub Bounded-offer : KeepsOffer lim (Bounded lim)
  Bounded-offer s f t d rest e b =
      Bounded-advance s f t d rest (verdict lim s f t d) (view lim s f t d) b

  pub Bounded-node : KeepsNode lim (Bounded lim)
  unfolding insert_node add_edges note_depth
  Bounded-node s t d f node b =
      let noted = note_depth d s in
      ground (
        arith,
        length-insert t node s.nodes,
        length-push_edges t d 0 node.inputs noted,
        push_edges-SameBut t d 0 node.inputs noted,
      )
