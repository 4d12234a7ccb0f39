-- ===== src/Graph/Build/Edges.antt =====
-- build_ancestry (crates/cory-core/src/graph.rs): the edges of the graph, and the transactions that
-- they lead to.
use cory.Base.{
  ℕ, ◌≤◌, ◌≡◌, refl, sym, ◌∙◌, subst, ap, true, false, List, [], All, All-mono, get_elem?, nat_eq,
  inl, inr, Option-cases, contains,
}
use cory.Base.Map.{Map, contains_key}
use cory.Exec.{done}
use cory.Types.{Txid, TxInput, TxNode, OutPoint, AncestryEdge, GraphLimits, AncestryGraph}
use cory.Graph.World.{Services, World}
use cory.Graph.Bfs.{Bfs, Queue}
use cory.Graph.Bfs.Edges.{SpendsAt, IsEdgeOf, Sound, Sound-start, Sound-offer, Sound-node}
use cory.Graph.Bfs.Tracking.{Tracked, Tracked-start, Tracked-offer, Tracked-node}
use cory.Graph.Bfs.Closed.{
  Closed, Closed-start, Closed-offer, Closed-node, IsComplete, Closed-IsComplete,
}
use cory.Graph.Bfs.Rooted.{Walk, IsReached, Rooted, Rooted-start, Rooted-offer, Rooted-node}
use cory.Graph.Backfill.{
  Outputs, funding_outputs, backfill_from, backfill_nodes, backfill_inputs_from_graph,
}
use cory.Graph.Backfill.Keeps.{
  keys-backfill_nodes, backfilled, backfilled_at, get-backfill_nodes, get-backfilled,
  prevout-backfill_from, backfilled_input, get_elem?-backfill_inputs,
}
use cory.Graph.Build.{finish, build_ancestry}
use cory.Graph.Build.Search.{searched, search_rule_any}

-- The backfill changes neither the keys nor what the inputs spend.
SpendsAt-backfilled :
    (outs : Map Txid Outputs) (node : TxNode) (idx : ℕ) (op : OutPoint)
    → SpendsAt node idx op
    → SpendsAt (backfilled outs node) idx op
SpendsAt-backfilled outs node idx op h = record {
  input = backfill_from outs h.input h.input.value h.input.prevout;
  there = get_elem?-backfill_inputs outs node.inputs idx ∙ ap (backfilled_input outs) h.there;
  prevout = prevout-backfill_from outs h.input h.input.value h.input.prevout ∙ h.prevout;
}

backfilled-SpendsAt :
    (outs : Map Txid Outputs) (node : TxNode) (idx : ℕ) (op : OutPoint)
    → SpendsAt (backfilled outs node) idx op
    → SpendsAt node idx op
backfilled-SpendsAt outs node idx op h =
    let law = get_elem?-backfill_inputs outs node.inputs idx in
    elim (Option-cases (get_elem? node.inputs idx)) [
      | inl beyond ↦ cc (h.there, law, ap (backfilled_input outs) beyond)
      | inr (old, there) ↦
          let same : h.input ≡ backfill_from outs old old.value old.prevout =
            cc (h.there, law, ap (backfilled_input outs) there) in
          record {
            input = old;
            there = there;
            prevout =
                sym (prevout-backfill_from outs old old.value old.prevout)
                ∙ ap (λ (i : TxInput). i.prevout) (sym same)
                ∙ h.prevout;
          }
    ]

IsEdgeOf-backfill_nodes :
    (outs : Map Txid Outputs) (m : Map Txid TxNode) (e : AncestryEdge)
    → IsEdgeOf m e
    → IsEdgeOf (backfill_nodes outs m) e
IsEdgeOf-backfill_nodes outs m e h = record {
  node = backfilled outs h.node;
  idx = h.idx;
  outpoint = h.outpoint;
  spender = get-backfill_nodes outs m e.spending_txid ∙ ap (backfilled_at outs) h.spender;
  spends = SpendsAt-backfilled outs h.node h.idx h.outpoint h.spends;
  is_edge = h.is_edge;
}

IsComplete-backfill_nodes :
    (outs : Map Txid Outputs) (root : Txid) (m : Map Txid TxNode) (es : List AncestryEdge)
    → IsComplete root m es
    → IsComplete root (backfill_nodes outs m) es
IsComplete-backfill_nodes outs root m es c =
    let same = keys-backfill_nodes outs m in
    record {
      has_root = rw same c.has_root;
      has_edges = λ t node idx op found spends.
          let (old, was, filled) = get-backfilled outs m t node found in
          let spent =
            backfilled-SpendsAt outs old idx op (subst (λ n. SpendsAt n idx op) filled spends) in
          let (e, known) = c.has_edges t old idx op was spent in (e, rw same known);
    }

-- Every node of the graph lies at the end of at most `max_depth_reached` edges from the root.
abbrev pub IsRooted : Txid → AncestryGraph → Type 0
IsRooted root g =
    (t : Txid)
    → contains_key g.nodes t ≡ true
    → (d : ℕ) × (d ≤ g.stats.max_depth_reached) × Walk root g.edges d t

module _ (root : Txid) (s : Bfs) where
  finish-IsEdgeOf : All (IsEdgeOf s.nodes) s.edges → All (IsEdgeOf (finish root s).nodes) s.edges
  unfolding finish backfill_inputs_from_graph
  finish-IsEdgeOf h =
      let outs = funding_outputs s.nodes in
      All-mono (IsEdgeOf s.nodes) (IsEdgeOf (backfill_nodes outs s.nodes)) s.edges
        (IsEdgeOf-backfill_nodes outs s.nodes) h

  finish-edges : (finish root s).edges ≡ s.edges
  unfolding finish
  finish-edges = refl

  finish-truncated : (finish root s).truncated ≡ s.truncated
  unfolding finish
  finish-truncated = refl

  finish-IsComplete :
      IsComplete root s.nodes s.edges → IsComplete root (finish root s).nodes s.edges
  unfolding finish backfill_inputs_from_graph
  finish-IsComplete c = IsComplete-backfill_nodes (funding_outputs s.nodes) root s.nodes s.edges c

  finish-IsReached :
      IsReached root s.nodes s.edges s.max_depth_reached
      → IsReached root
          (finish root s).nodes
          (finish root s).edges
          (finish root s).stats.max_depth_reached
  unfolding finish backfill_inputs_from_graph
  finish-IsReached (inl none_yet) = inl none_yet
  finish-IsReached (inr (t, known, w)) =
      let same = keys-backfill_nodes (funding_outputs s.nodes) s.nodes in
      inr (t, subst (λ ks. contains ks t ≡ true) (sym same) known, w)

  finish-IsRooted : Rooted root s [] → IsRooted root (finish root s)
  unfolding finish backfill_inputs_from_graph
  finish-IsRooted h t known = h.nodes t (
      subst (λ ks. contains ks t ≡ true) (keys-backfill_nodes (funding_outputs s.nodes) s.nodes)
        known)

module _ {T P R : Type 0} (sv : Services T P R) (root : Txid) (lim : GraphLimits)
    (w w' : World T P R) (g : AncestryGraph)
    (returned : build_ancestry sv root lim w ≡ (done g, w')) where
  -- Each edge of a graph that build_ancestry returns stands for an input of a node of the graph: the
  -- input of the spending transaction at some index (the edge has it as a u32) spends the output that
  -- the edge names. This holds whatever the cache and the node answer.
  pub build_ancestry-IsEdgeOf : All (IsEdgeOf g.nodes) g.edges
  build_ancestry-IsEdgeOf =
      let (s, h) = searched sv root lim w w' g returned in
      let (sound, _) =
        search_rule_any sv root lim w w' g returned Sound (Sound-offer lim) (Sound-node lim)
          (Sound-start root) s h in
      subst (λ (k : AncestryGraph). All (IsEdgeOf k.nodes) k.edges) h.graph
        (subst (All (IsEdgeOf (finish root s).nodes)) (sym (finish-edges root s))
          (finish-IsEdgeOf root s sound.edges))

  abbrev Whole : Bfs → Queue → Type 0
  Whole s f = Tracked s f × Closed root s f

  -- Where a graph that build_ancestry returns is not marked truncated, nothing is missing: it has the
  -- root, and for each input of each of its nodes that spends an output it has the edge and the
  -- transaction spent. This holds whatever the cache and the node answer.
  pub build_ancestry-IsComplete : g.truncated ≡ false → IsComplete root g.nodes g.edges
  build_ancestry-IsComplete full =
      let (s, h) = searched sv root lim w w' g returned in
      let ((tracked, closed), ended) =
        search_rule_any sv root lim w w' g returned Whole
          (λ s f t d r e p.
            (Tracked-offer lim s f t d r e p.0, Closed-offer root lim s f t d r e p.1))
          (λ s t d f n p. (Tracked-node lim s t d f n p.0, Closed-node root lim s t d f n p.1))
          (Tracked-start root, Closed-start root) s h in
      let not : s.truncated ≡ false =
        sym (finish-truncated root s) ∙ ap (λ (k : AncestryGraph). k.truncated) h.graph ∙ full in
      elim ended [
        | inl empty ↦
            subst (λ (k : AncestryGraph). IsComplete root k.nodes k.edges) h.graph
              (subst (IsComplete root (finish root s).nodes) (sym (finish-edges root s))
                (finish-IsComplete root s (Closed-IsComplete root s not empty tracked closed)))
        | inr cut ↦ cc (not, cut)
      ]

  pub build_ancestry-IsRooted : IsRooted root g
  build_ancestry-IsRooted =
      let (s, h) = searched sv root lim w w' g returned in
      let (rooted, _) =
        search_rule_any sv root lim w w' g returned (Rooted root) (Rooted-offer root lim)
          (Rooted-node root lim) (Rooted-start root) s h in
      subst (IsRooted root) h.graph (finish-IsRooted root s rooted)

  -- The depth in the statistics is that of a node at the end of so many edges, or zero.
  pub build_ancestry-IsReached : IsReached root g.nodes g.edges g.stats.max_depth_reached
  build_ancestry-IsReached =
      let (s, h) = searched sv root lim w w' g returned in
      let (rooted, _) =
        search_rule_any sv root lim w w' g returned (Rooted root) (Rooted-offer root lim)
          (Rooted-node root lim) (Rooted-start root) s h in
      subst (λ (k : AncestryGraph). IsReached root k.nodes k.edges k.stats.max_depth_reached)
        h.graph (finish-IsReached root s rooted.reached)
