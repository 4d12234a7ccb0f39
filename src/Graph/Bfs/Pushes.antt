-- ===== src/Graph/Bfs/Pushes.antt =====
-- The loop over the inputs of one transaction in build_ancestry (crates/cory-core/src/graph.rs):
-- what it adds, and what it leaves alone.
use cory.Base.{
  ℕ, suc, ◌+◌, ◌≡◌, refl, some, none, Option, List, [], ◌∷◌, arith, length, length-append, nat_eq,
  ◌≤◌, true, ltb, Bool-cases, inl, inr,
}
use cory.Base.Map.{insert}
use cory.Types.{Txid, TxInput, TxNode, OutPoint, GraphLimits, is_coinbase}
use cory.Graph.Bfs.{
  Bfs, push_edge, push_edges, candidate_edge_count, edge, add_edges, note_depth, insert_node,
}

-- `t` has the variables of `s` that the loop over the inputs does not write.
pub record SameBut (s t : Bfs) : Type 0 where
  pub nodes : t.nodes ≡ s.nodes
  pub visited : t.visited ≡ s.visited
  pub truncated : t.truncated ≡ s.truncated
  pub deepest : t.max_depth_reached ≡ s.max_depth_reached

push_edge-SameBut :
    (txid : Txid) (d idx : ℕ) (input : TxInput) (s : Bfs)
    → SameBut s (push_edge txid d idx input.prevout s)
unfolding push_edge
push_edge-SameBut txid d idx input s = ground arith

pub push_edges-SameBut :
    (txid : Txid) (d idx : ℕ) (inputs : List TxInput) (s : Bfs)
    → SameBut s (push_edges txid d idx inputs s)
unfolding push_edges
push_edges-SameBut txid d idx [] s = ground arith
push_edges-SameBut txid d idx (input ∷ inputs) s =
    let next = push_edge txid d idx input.prevout s in
    ground
      (arith, push_edge-SameBut txid d idx input s, push_edges-SameBut txid d (suc idx) inputs next)

length-push_edge :
    (txid : Txid) (d idx : ℕ) (input : TxInput) (prevout : Option OutPoint) (s : Bfs)
    → input.prevout ≡ prevout
    → length (push_edge txid d idx prevout s).edges
      ≡ length s.edges + candidate_edge_count (input ∷ [])
unfolding push_edge candidate_edge_count
length-push_edge txid d idx input none s e = rw e (omega arith)
length-push_edge txid d idx input (some outpoint) s e =
    rw e (omega (arith, length-append s.edges (edge txid idx outpoint ∷ [])))

pub length-push_edges :
    (txid : Txid) (d idx : ℕ) (inputs : List TxInput) (s : Bfs)
    → length (push_edges txid d idx inputs s).edges ≡ length s.edges + candidate_edge_count inputs
unfolding push_edges candidate_edge_count
length-push_edges txid d idx [] s = omega arith
length-push_edges txid d idx (input ∷ inputs) s =
    let next = push_edge txid d idx input.prevout s in
    let one = length-push_edge txid d idx input input.prevout s refl in
    ground (arith, one, length-push_edges txid d (suc idx) inputs next)

-- One fetched node: the loop body writes it under its txid and leaves `visited` alone.
module _ (lim : GraphLimits) (txid : Txid) (d : ℕ) (node : TxNode) (s : Bfs) where
  pub nodes-insert_node :
      (insert_node txid node (add_edges lim txid d node (note_depth d s))).nodes
      ≡ insert txid node s.nodes
  unfolding insert_node add_edges note_depth
  nodes-insert_node = ground (arith, push_edges-SameBut txid d 0 node.inputs (note_depth d s))

  pub visited-insert_node :
      (insert_node txid node (add_edges lim txid d node (note_depth d s))).visited ≡ s.visited
  unfolding insert_node add_edges note_depth
  visited-insert_node = ground (arith, push_edges-SameBut txid d 0 node.inputs (note_depth d s))

-- The three ways of a fetched node: a coinbase, over the edge limit, or with its edges.
pub data Added (lim : GraphLimits) (txid : Txid) (d : ℕ) (node : TxNode) (s : Bfs)
    : Bfs → Type 0 where
  coinbase : is_coinbase node ≡ true → Added lim txid d node s s
  too_many : Added lim txid d node s (record s { truncated = true })
  pushed :
      length s.edges + candidate_edge_count node.inputs ≤ lim.max_edges
      → Added lim txid d node s (push_edges txid d 0 node.inputs s)

pub add_edges-Added :
    (lim : GraphLimits) (txid : Txid) (d : ℕ) (node : TxNode) (s : Bfs)
    → Added lim txid d node s (add_edges lim txid d node s)
unfolding add_edges
add_edges-Added lim txid d node s = elim (Bool-cases (is_coinbase node)) [
  | inl c ↦ rw c (coinbase c)
  | inr n ↦
      let count = length s.edges + candidate_edge_count node.inputs in
      elim (Bool-cases (ltb lim.max_edges count)) [
        | inl over ↦ rw (n, over) too_many
        | inr fits ↦ rw (n, fits) (pushed (ground arith))
      ]
]
