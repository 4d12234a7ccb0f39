-- ===== src/Graph/Bfs/Edges.antt =====
-- The edges of the graph that build_ancestry returns (crates/cory-core/src/graph.rs).
use cory.Base.{
  ℕ, suc, ◌+◌, ◌%◌, ◌^◌, ◌≡◌, refl, Option, none, some, false, List, [], ◌∷◌, arith, All,
  All-append, All-mono, get_elem?, nat_eq,
}
use cory.Base.Map.{Map, get, insert, contains_key, get-insert, contains_key-get}
use cory.Types.{Txid, TxInput, TxNode, OutPoint, AncestryEdge, GraphLimits}
use cory.Graph.Bfs.{
  Bfs, Queue, Verdict, verdict, advance, as_u32, edge, push_edge, push_edges, note_depth,
  insert_node, start,
}
use cory.Graph.Bfs.Rules.{KeepsOffer, KeepsNode}
use cory.Graph.Bfs.Pushes.{nodes-insert_node, Added, coinbase, too_many, pushed, add_edges-Added}
use cory.Graph.Bfs.Tracking.{Tracked, Tracked-offer, Tracked-node, Tracked-start}

-- The input at `idx` of a transaction spends `outpoint`.
pub record SpendsAt (node : TxNode) (idx : ℕ) (outpoint : OutPoint) : Type 0 where
  pub input : TxInput
  pub there : get_elem? node.inputs idx ≡ some input
  pub prevout : input.prevout ≡ some outpoint

-- An edge stands for an input of a node of the graph.
pub record IsEdgeOf (nodes : Map Txid TxNode) (e : AncestryEdge) : Type 0 where
  pub node : TxNode
  pub idx : ℕ
  pub outpoint : OutPoint
  pub spender : get nodes e.spending_txid ≡ some node
  pub spends : SpendsAt node idx outpoint
  pub is_edge :
      (e.input_index ≡ idx % 2 ^ 32)
      × (e.funding_txid ≡ outpoint.txid)
      × (e.funding_vout ≡ outpoint.vout)

-- The inputs from `idx` on.
abbrev pub Suffix : TxNode → ℕ → List TxInput → Type 0
Suffix node idx inputs =
    (j : ℕ) (input : TxInput)
    → get_elem? inputs j ≡ some input
    → get_elem? node.inputs (j + idx) ≡ some input

pub Suffix-all : (node : TxNode) → Suffix node 0 node.inputs
Suffix-all node j input h = let e : j + 0 ≡ j = omega arith in rw e h

pub Suffix-head :
    (node : TxNode) (idx : ℕ) (input : TxInput) (inputs : List TxInput)
    → Suffix node idx (input ∷ inputs)
    → get_elem? node.inputs idx ≡ some input
Suffix-head node idx input inputs h =
    let e : 0 + idx ≡ idx = omega arith in rw e at (h 0 input refl)

pub Suffix-tail :
    (node : TxNode) (idx : ℕ) (input : TxInput) (inputs : List TxInput)
    → Suffix node idx (input ∷ inputs)
    → Suffix node (suc idx) inputs
Suffix-tail node idx input inputs h j i e =
    let same : j + suc idx ≡ suc j + idx = omega arith in rw same (h (suc j) i e)

-- What holds of the edges before holds of them after, if it holds of each edge of an input.
module _ {ℓ} (P : AncestryEdge → Type ℓ) (txid : Txid) (d : ℕ) (node : TxNode)
    (new : (idx : ℕ) (outpoint : OutPoint)
      → SpendsAt node idx outpoint
      → P (edge txid idx outpoint)) where
  push_edge-All :
      (idx : ℕ) (input : TxInput) (prevout : Option OutPoint) (s : Bfs)
      → get_elem? node.inputs idx ≡ some input
      → input.prevout ≡ prevout
      → All P s.edges
      → All P (push_edge txid d idx prevout s).edges
  unfolding push_edge
  push_edge-All idx input none s at e h = h
  push_edge-All idx input (some op) s at e h =
      All-append P s.edges (edge txid idx op ∷ []) h
        (new idx op (record { input = input; there = at; prevout = e }), tt)

  pub push_edges-All :
      (idx : ℕ) (inputs : List TxInput) (s : Bfs)
      → Suffix node idx inputs
      → All P s.edges
      → All P (push_edges txid d idx inputs s).edges
  unfolding push_edges
  push_edges-All idx [] s at h = h
  push_edges-All idx (input ∷ inputs) s at h =
      push_edges-All (suc idx) inputs (push_edge txid d idx input.prevout s)
        (Suffix-tail node idx input inputs at)
        (push_edge-All idx input input.prevout s (Suffix-head node idx input inputs at) refl h)

  pub Added-All :
      (lim : GraphLimits) (s : Bfs) (s' : Bfs)
      → Added lim txid d node s s'
      → All P s.edges
      → All P s'.edges
  Added-All lim s _ (coinbase c) h = h
  Added-All lim s _ too_many h = h
  Added-All lim s _ (pushed fits) h = push_edges-All 0 node.inputs s (Suffix-all node) h

IsEdgeOf-insert :
    (m : Map Txid TxNode) (t : Txid) (node : TxNode) (e : AncestryEdge)
    → contains_key m t ≡ false
    → IsEdgeOf m e
    → IsEdgeOf (insert t node m) e
IsEdgeOf-insert m t node e new h = record {
  node = h.node;
  idx = h.idx;
  outpoint = h.outpoint;
  spender = ground (
    arith,
    get-insert t e.spending_txid node m,
    contains_key-get m e.spending_txid h.node h.spender,
  );
  spends = h.spends;
  is_edge = h.is_edge;
}

pub record Sound (s : Bfs) (f : Queue) : Type 0 where
  pub tracked : Tracked s f
  pub edges : All (IsEdgeOf s.nodes) s.edges

pub Sound-start : (root : Txid) → Sound (start root) []
Sound-start root = record { tracked = Tracked-start root; edges = tt }

-- The drain touches neither the nodes nor the edges.
edges-advance :
    (v : Verdict) (t : Txid) (d : ℕ) (rest : Queue) (s : Bfs) (f : Queue)
    → All (IsEdgeOf s.nodes) s.edges
    → All (IsEdgeOf (advance v t d rest s f).0.nodes) (advance v t d rest s f).0.edges
unfolding advance
edges-advance Verdict.seen t d rest s f h = h
edges-advance _ t d rest s f h = h

module _ (lim : GraphLimits) where
  pub Sound-offer : KeepsOffer lim Sound
  Sound-offer s f t d rest e h = record {
    tracked = Tracked-offer lim s f t d rest e h.tracked;
    edges = edges-advance (verdict lim s f t d) t d rest s f h.edges;
  }

  Sound-add :
      (s : Bfs) (t : Txid) (d : ℕ) (node : TxNode) (s' : Bfs)
      → contains_key s.nodes t ≡ false
      → Added lim t d node s s'
      → All (IsEdgeOf s.nodes) s.edges
      → All (IsEdgeOf (insert t node s.nodes)) s'.edges
  Sound-add s t d node s' new a h =
      let m = insert t node s.nodes in
      let written : get m t ≡ some node = ground (arith, get-insert t t node s.nodes) in
      Added-All (IsEdgeOf m) t d node
        (λ idx op at. record {
          node = node;
          idx = idx;
          outpoint = op;
          spender = (unfold edge in written);
          spends = at;
          is_edge = (unfold edge as_u32 in (refl, refl, refl));
        })
        lim s s' a
        (All-mono (IsEdgeOf s.nodes) (IsEdgeOf m) s.edges
          (λ e. IsEdgeOf-insert s.nodes t node e new) h)

  pub Sound-node : KeepsNode lim Sound
  unfolding insert_node note_depth
  Sound-node s t d f node h = record {
    tracked = Tracked-node lim s t d f node h.tracked;
    edges = rw (nodes-insert_node lim t d node s) (
        Sound-add (note_depth d s) t d node _ h.tracked.fresh.0
          (add_edges-Added lim t d node (note_depth d s)) h.edges);
  }
