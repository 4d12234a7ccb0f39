-- ===== src/Graph/Bfs.antt =====
-- crates/cory-core/src/graph.rs, build_ancestry: the breadth-first loop over a function that
-- fetches the transactions of one level. The proofs are in the modules below.
pub mod Rules
pub mod Pushes
pub mod Limits
pub mod Tracking
pub mod Progress
pub mod Edges
pub mod Closed
pub mod Rooted
pub mod Keeps
use cory.Base.{
  ℕ, zero, suc, ◌+◌, ◌%◌, ◌^◌, Bool, true, false, Option, none, some, List, [], ◌∷◌, ◌++◌, ltb, leb,
  if◌then◌else◌, length, contains, nat_eq,
}
use cory.Base.Map.{Map, insert}
use cory.Exec.{Exec, pure, ◌>>=◌, out_of_fuel}
use cory.Types.{Txid, TxInput, TxNode, OutPoint, AncestryEdge, GraphLimits, is_coinbase, is_some}

abbrev pub Queue : Type 0
Queue = List (Txid × ℕ)

-- The mutable variables of the loop.
pub record Bfs : Type 0 where
  pub nodes : Map Txid TxNode
  pub edges : List AncestryEdge
  pub visited : List Txid
  pub truncated : Bool
  pub max_depth_reached : ℕ
  pub queue : Queue

abbrev pub start : Txid → Bfs
start root = record {
  nodes = [];
  edges = [];
  visited = [];
  truncated = false;
  max_depth_reached = 0;
  queue = (root, 0) ∷ [];
}

-- What the tests on one popped (txid, depth) decide: `continue`, `break`, or on to the frontier.
pub data Verdict : Type 0 where
  seen node_limit too_deep edge_limit accept : Verdict

pub verdict : GraphLimits → Bfs → Queue → Txid → ℕ → Verdict
verdict lim s frontier txid depth =
    if contains s.visited txid
    then seen
    else if leb lim.max_nodes (length s.nodes + length frontier)
    then node_limit
    else if ltb lim.max_depth depth
    then too_deep
    else if leb lim.max_edges (length s.edges)
    then edge_limit
    else accept

-- The state and the frontier after the verdict, with `rest` left in the queue.
pub advance : Verdict → Txid → ℕ → Queue → Bfs → Queue → Bfs × Queue
advance seen txid depth rest s frontier = (record s { queue = rest }, frontier)
advance node_limit txid depth rest s frontier =
    (record s { queue = rest; truncated = true }, frontier)
advance too_deep txid depth rest s frontier =
    (record s { queue = rest; truncated = true }, frontier)
advance edge_limit txid depth rest s frontier =
    (record s { queue = rest; truncated = true }, frontier)
advance accept txid depth rest s frontier =
    (record s { queue = rest; visited = txid ∷ s.visited }, frontier ++ (txid, depth) ∷ [])

pub stops : Verdict → Bool
stops node_limit = true
stops edge_limit = true
stops _ = false

-- `while let Some((txid, depth)) = queue.pop_front()`, called with `s.queue` for the list.
pub drain : GraphLimits → Queue → Bfs → Queue → Bfs × Queue
drain lim [] s frontier = (s, frontier)
drain lim ((txid, depth) ∷ rest) s frontier =
    let v = verdict lim s frontier txid depth in
    let (s', frontier') = advance v txid depth rest s frontier in
    elim (stops v) [ true ↦ (s', frontier') | false ↦ drain lim rest s' frontier' ]

-- `idx as u32`
pub as_u32 : ℕ → ℕ
as_u32 n = n % 2 ^ 32

-- The edge of the input at `idx` of `txid`, which spends `outpoint`.
pub edge : Txid → ℕ → OutPoint → AncestryEdge
edge txid idx outpoint = record {
  spending_txid = txid;
  input_index = as_u32 idx;
  funding_txid = outpoint.txid;
  funding_vout = outpoint.vout;
}

pub candidate_edge_count : List TxInput → ℕ
candidate_edge_count [] = 0
candidate_edge_count (input ∷ inputs) =
    if is_some input.prevout then suc (candidate_edge_count inputs) else candidate_edge_count inputs

pub push_edge : Txid → ℕ → ℕ → Option OutPoint → Bfs → Bfs
push_edge txid depth idx none s = s
push_edge txid depth idx (some outpoint) s = record s {
  edges = s.edges ++ edge txid idx outpoint ∷ [];
  queue =
      if contains s.visited outpoint.txid
      then s.queue
      else s.queue ++ (outpoint.txid, suc depth) ∷ [];
}

-- `for (idx, input) in tx_node.inputs.iter().enumerate()`, from the index `idx` on.
pub push_edges : Txid → ℕ → ℕ → List TxInput → Bfs → Bfs
push_edges txid depth idx [] s = s
push_edges txid depth idx (input ∷ inputs) s =
    push_edges txid depth (suc idx) inputs (push_edge txid depth idx input.prevout s)

pub note_depth : ℕ → Bfs → Bfs
note_depth depth s = record s {
  max_depth_reached = if ltb s.max_depth_reached depth then depth else s.max_depth_reached;
}

pub add_edges : GraphLimits → Txid → ℕ → TxNode → Bfs → Bfs
add_edges lim txid depth node s =
    if is_coinbase node
    then s
    else if ltb lim.max_edges (length s.edges + candidate_edge_count node.inputs)
    then record s { truncated = true }
    else push_edges txid depth 0 node.inputs s

pub insert_node : Txid → TxNode → Bfs → Bfs
insert_node txid node s = record s { nodes = insert txid node s.nodes }

-- The loop over the frontier zipped with the fetched nodes.
pub process : GraphLimits → Queue → List TxNode → Bfs → Bfs
process lim [] fetched s = s
process lim (f ∷ frontier) [] s = s
process lim ((txid, depth) ∷ frontier) (node ∷ fetched) s =
    process lim frontier fetched
      (insert_node txid node (add_edges lim txid depth node (note_depth depth s)))

abbrev pub txids : Queue → List Txid
txids [] = []
txids ((txid, depth) ∷ q) = txid ∷ txids q

module _ {W : Type 0} (fetch : List Txid → Exec W (List TxNode)) (lim : GraphLimits) where
  -- One level: fetch its transactions in one call, then process them.
  pub level : Queue → Bfs → Exec W Bfs
  level frontier s = do fetched ← fetch (txids frontier); pure (process lim frontier fetched s)

  -- The round behind its drain: `k` is the rest of the loop, and an empty frontier ends it.
  pub expand : (Bfs → Exec W Bfs) → Bfs → Queue → Exec W Bfs
  expand k s [] = pure s
  expand k s (f ∷ frontier) = level (f ∷ frontier) s >>= k

  -- `while !queue.is_empty()`
  pub loop : ℕ → Bfs → Exec W Bfs
  loop zero s = elim s.queue [ [] ↦ pure s | _ ∷ _ ↦ λ w. (out_of_fuel, w) ]
  loop (suc fuel) s = elim s.queue [
    | [] ↦ pure s
    | _ ∷ _ ↦ let (s', frontier) = drain lim s.queue s [] in expand (loop fuel) s' frontier
  ]

  -- Every round but the last adds a node, so `max_nodes` rounds and one are enough.
  unfoldable pub search_ancestry : Txid → Exec W Bfs
  unfolding loop expand level drain verdict advance stops process insert_node add_edges note_depth
      push_edges push_edge edge as_u32 candidate_edge_count
  search_ancestry root = loop (suc lim.max_nodes) (start root)
