-- ===== src/Graph/Build/Truth.antt =====
-- build_ancestry (crates/cory-core/src/graph.rs) against the chain: where the node is honest and the
-- caches are true, so is the graph.
use cory.Base.{
  ℕ, ◌≡◌, sym, subst, true, some, arith, get_elem?, nat_eq, inl, inr, Bool-cases, ◌==◌, ==_iff,
  contains,
}
use cory.Base.Map.{Map, get, insert, get-insert, contains_key, get-contains_key}
use cory.Exec.{done}
use cory.Types.{Txid, TxInput, TxOutput, TxNode, OutPoint, GraphLimits, AncestryGraph}
use cory.Graph.World.{Services, World}
use cory.Graph.Chain.{Chain, funding_output, FaithfulAt, IsHonest, CacheFaithful}
use cory.Graph.Fetch.{fetch_and_convert_many}
use cory.Graph.Fetch.Truth.{fetch_and_convert_many-Faithful}
use cory.Graph.Bfs.{Bfs, Queue, verdict}
use cory.Graph.Bfs.Rules.{KeepsOffer, KeepsGood}
use cory.Graph.Bfs.Pushes.{nodes-insert_node}
use cory.Graph.Bfs.Progress.{nodes-advance}
use cory.Graph.Bfs.Keeps.{search_keeps}
use cory.Graph.Backfill.{funding_outputs, backfill_inputs_from_graph}
use cory.Graph.Backfill.Keeps.{keys-backfill_nodes}
use cory.Graph.Backfill.Truth.{NodesFaithful, backfill_nodes-Faithful, backfill_nodes-values}
use cory.Graph.Build.{finish, build_ancestry}
use cory.Graph.Build.Search.{searched, search_rule}

abbrev Known : Chain → Bfs → Queue → Type 0
Known chain s f = NodesFaithful chain s.nodes

Known-offer : (chain : Chain) (lim : GraphLimits) → KeepsOffer lim (Known chain)
Known-offer chain lim s f t d rest e h =
    subst (NodesFaithful chain) (sym (nodes-advance (verdict lim s f t d) t d rest s f)) h

NodesFaithful-insert :
    (chain : Chain) (m : Map Txid TxNode) (t : Txid) (node : TxNode)
    → FaithfulAt chain t node
    → NodesFaithful chain m
    → NodesFaithful chain (insert t node m)
NodesFaithful-insert chain m t node f h u n found =
    let law = get-insert t u node m in
    elim (Bool-cases (t == u)) [
      | inl same ↦
          let is_u : t ≡ u = (==_iff t u).0 same in
          let is_n : node ≡ n = ground arith in
          subst (FaithfulAt chain u) is_n (subst (λ x. FaithfulAt chain x node) is_u f)
      | inr other ↦ h u n (ground arith)
    ]

Known-node : (chain : Chain) (lim : GraphLimits) → KeepsGood lim (Known chain) (FaithfulAt chain)
Known-node chain lim s t d f node good h =
    subst (NodesFaithful chain) (sym (nodes-insert_node lim t d node s))
      (NodesFaithful-insert chain s.nodes t node good h)

module _ (chain : Chain) (root : Txid) (s : Bfs) (h : NodesFaithful chain s.nodes) where
  finish-Faithful : NodesFaithful chain (finish root s).nodes
  unfolding finish backfill_inputs_from_graph
  finish-Faithful = backfill_nodes-Faithful chain s.nodes h

-- Where a transaction of the graph spends an output of a transaction of the graph, its input has the
-- value that the output has in the chain.
abbrev pub HasValues : Chain → Map Txid TxNode → Type 0
HasValues chain nodes =
    (t : Txid) (node : TxNode) (idx : ℕ) (input : TxInput) (op : OutPoint) (o : TxOutput)
    → get nodes t ≡ some node
    → get_elem? node.inputs idx ≡ some input
    → input.prevout ≡ some op
    → contains_key nodes op.txid ≡ true
    → funding_output chain op ≡ some o
    → input.value ≡ some o.value

finish-values :
    (chain : Chain) (root : Txid) (s : Bfs)
    → NodesFaithful chain s.nodes
    → HasValues chain (finish root s).nodes
unfolding finish backfill_inputs_from_graph
finish-values chain root s h t node idx input op o found at spends known funded =
    let same = keys-backfill_nodes (funding_outputs s.nodes) s.nodes in
    let (parent, has) =
      get-contains_key s.nodes op.txid (subst (λ ks. contains ks op.txid ≡ true) same known) in
    backfill_nodes-values chain s.nodes h t node idx input op parent o found at spends has funded

module _ {T P R : Type 0} (chain : Chain) (sv : Services T P R) (honest : IsHonest chain sv.rpc)
    (root : Txid) (lim : GraphLimits) (w w' : World T P R) (g : AncestryGraph)
    (caches : CacheFaithful chain sv w)
    (returned : build_ancestry sv root lim w ≡ (done g, w')) where
  search-NodesFaithful : (s : Bfs) × (finish root s ≡ g) × NodesFaithful chain s.nodes
  search-NodesFaithful =
      let (s, h) = searched sv root lim w w' g returned in
      let (known, _) =
        search_rule sv root lim w w' g returned (CacheFaithful chain sv) (FaithfulAt chain)
          (fetch_and_convert_many-Faithful chain sv honest) (Known chain) (Known-offer chain lim)
          (Known-node chain lim) caches (λ t node found. cc found) s h in
      (s, h.graph, known)

  -- Where the node answers truthfully and the caches hold the truth, each node of a graph that
  -- build_ancestry returns shows the transaction of its key: its outputs, what its inputs spend, and,
  -- where an input has a value or a script type, those of the output that it spends.
  pub build_ancestry-NodesFaithful : NodesFaithful chain g.nodes
  build_ancestry-NodesFaithful =
      let (s, is_g, known) = search-NodesFaithful in
      subst (λ (k : AncestryGraph). NodesFaithful chain k.nodes) is_g
        (finish-Faithful chain root s known)

  -- Where the node answers truthfully and the caches hold the truth, each input in a graph that
  -- build_ancestry returns has the value of the output that it spends, if the graph has the
  -- transaction of that output.
  pub build_ancestry-HasValues : HasValues chain g.nodes
  build_ancestry-HasValues =
      let (s, is_g, known) = search-NodesFaithful in
      subst (λ (k : AncestryGraph). HasValues chain k.nodes) is_g (finish-values chain root s known)

  -- Where the node answers truthfully and the caches are true before, a call of build_ancestry
  -- that returns leaves them true.
  pub build_ancestry-CacheFaithful : CacheFaithful chain sv w'
  build_ancestry-CacheFaithful =
      let (s, h) = searched sv root lim w w' g returned in
      subst (CacheFaithful chain sv) h.world (
        search_keeps (CacheFaithful chain sv) (FaithfulAt chain) (fetch_and_convert_many sv) lim
          (fetch_and_convert_many-Faithful chain sv honest) root w caches)
