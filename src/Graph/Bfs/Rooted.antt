-- ===== src/Graph/Bfs/Rooted.antt =====
-- build_ancestry (crates/cory-core/src/graph.rs) only collects ancestors of the root.
use cory.Base.{
  sym, ◌∙◌, ap, ◌⊎◌, ltb, ℕ, zero, suc, ◌≤◌, ◌≡◌, refl, Bool-cases, Option, none, some, true, inl,
  inr, List, [], ◌∷◌, ◌++◌, Memᴰ, arith, contains, nat_eq, ◌==◌, ==_iff, subst, All, All-mono,
  All-append,
}
use mathlib.Core.List.Memᴰ
use cory.Base.Map.{Map, insert, contains_key, contains_key-insert}
use cory.Types.{Txid, TxInput, TxNode, OutPoint, AncestryEdge, GraphLimits}
use cory.Graph.Bfs.{
  Bfs, Queue, Verdict, verdict, advance, edge, push_edge, push_edges, note_depth, insert_node,
  start, add_edges,
}
use cory.Graph.Bfs.Rules.{KeepsOffer, KeepsNode}
use cory.Graph.Bfs.Pushes.{push_edges-SameBut, Added, coinbase, too_many, pushed, add_edges-Added}

-- A transaction at the end of `n` edges from the root, each from a spender to what it spends.
pub data Walk (root : Txid) (edges : List AncestryEdge) : ℕ → Txid → Type 0 where
  here : Walk root edges zero root
  step :
      {n : ℕ} {t u : Txid}
      → Walk root edges n t
      → (e : AncestryEdge) → Memᴰ e edges
      → e.spending_txid ≡ t
      → e.funding_txid ≡ u
      → Walk root edges (suc n) u

Walk-mono :
    {root : Txid} {es es' : List AncestryEdge} {n : ℕ} {t : Txid}
    → ((e : AncestryEdge) → Memᴰ e es → Memᴰ e es')
    → Walk root es n t
    → Walk root es' n t
Walk-mono f here = here
Walk-mono f (step w e m p q) = step (Walk-mono f w) e (f e m) p q

abbrev pub Walks : Txid → List AncestryEdge → Queue → Type 0
Walks root es = All (λ p. Walk root es p.1 p.0)

Walks-mono :
    (root : Txid) (es es' : List AncestryEdge) (q : Queue)
    → ((e : AncestryEdge) → Memᴰ e es → Memᴰ e es')
    → Walks root es q
    → Walks root es' q
Walks-mono root es es' q f h =
    All-mono (λ (p : Txid × ℕ). Walk root es p.1 p.0) (λ (p : Txid × ℕ). Walk root es' p.1 p.0) q
      (λ p w. Walk-mono f w) h

-- The depth is that of a node, at the end of as many edges from the root, or none is there yet.
abbrev pub IsReached : Txid → Map Txid TxNode → List AncestryEdge → ℕ → Type 0
IsReached root nodes es d =
    (d ≡ 0) ⊎ ((t : Txid) × (contains_key nodes t ≡ true) × Walk root es d t)

-- Every node lies at most `max_depth_reached` edges from the root, and one lies so far.
pub record Rooted (root : Txid) (s : Bfs) (f : Queue) : Type 0 where
  pub queue : Walks root s.edges s.queue
  pub frontier : Walks root s.edges f
  pub nodes :
      (t : Txid)
      → contains_key s.nodes t ≡ true
      → (d : ℕ) × (d ≤ s.max_depth_reached) × Walk root s.edges d t
  pub reached : IsReached root s.nodes s.edges s.max_depth_reached

pub Rooted-start : (root : Txid) → Rooted root (start root) []
Rooted-start root = record {
  queue = (here, tt);
  frontier = tt;
  nodes = λ t h. cc h;
  reached = inl refl;
}

note_depth_reaches : (d : ℕ) (s : Bfs) → d ≤ (note_depth d s).max_depth_reached
unfolding note_depth
note_depth_reaches d s = ground arith

note_depth_grows : (d : ℕ) (s : Bfs) → s.max_depth_reached ≤ (note_depth d s).max_depth_reached
unfolding note_depth
note_depth_grows d s = ground arith

module _ (root : Txid) where
  -- What the loop over the inputs keeps: the edges grow, and the queue stays in reach.
  record Extends (s s' : Bfs) : Type 0 where
    edges : (e : AncestryEdge) → Memᴰ e s.edges → Memᴰ e s'.edges
    queue : Walks root s'.edges s'.queue

  edge_step :
      (es : List AncestryEdge) (txid : Txid) (idx d : ℕ) (op : OutPoint)
      → Walk root es d txid
      → Memᴰ (edge txid idx op) es
      → Walk root es (suc d) op.txid
  unfolding edge
  edge_step es txid idx d op w m = step w (edge txid idx op) m refl refl

  push_edge-Extends :
      (txid : Txid) (d idx : ℕ) (prevout : Option OutPoint) (s : Bfs)
      → Walk root s.edges d txid
      → Walks root s.edges s.queue
      → Extends s (push_edge txid d idx prevout s)
  unfolding push_edge
  push_edge-Extends txid d idx none s w h = record { edges = λ e m. m; queue = h }
  push_edge-Extends txid d idx (some op) s w h =
      let es = s.edges ++ edge txid idx op ∷ [] in
      let grow : (e : AncestryEdge) → Memᴰ e s.edges → Memᴰ e es = λ e m. Memᴰ.append_left _ m in
      let old = Walks-mono root s.edges es s.queue grow h in
      let last : Memᴰ (edge txid idx op) es = Memᴰ.append_right s.edges (Memᴰ.head refl) in
      record {
        edges = grow;
        queue = elim (Bool-cases (contains s.visited op.txid)) [
          | inl seen ↦ rw seen old
          | inr new ↦ rw new (
              All-append (λ (p : Txid × ℕ). Walk root es p.1 p.0) s.queue ((op.txid, suc d) ∷ [])
                old (edge_step es txid idx d op (Walk-mono grow w) last, tt))
        ];
      }

  push_edges-Extends :
      (txid : Txid) (d idx : ℕ) (inputs : List TxInput) (s : Bfs)
      → Walk root s.edges d txid
      → Walks root s.edges s.queue
      → Extends s (push_edges txid d idx inputs s)
  unfolding push_edges
  push_edges-Extends txid d idx [] s w h = record { edges = λ e m. m; queue = h }
  push_edges-Extends txid d idx (input ∷ inputs) s w h =
      let next = push_edge txid d idx input.prevout s in
      let first = push_edge-Extends txid d idx input.prevout s w h in
      let others =
        push_edges-Extends txid d (suc idx) inputs next (Walk-mono first.edges w) first.queue in
      record { edges = λ e m. others.edges e (first.edges e m); queue = others.queue }

  module _ (lim : GraphLimits) where
    Rooted-advance :
        (v : Verdict) (s : Bfs) (f : Queue) (t : Txid) (d : ℕ) (rest : Queue)
        → Walk root s.edges d t
        → Walks root s.edges rest
        → Rooted root s f
        → Rooted root (advance v t d rest s f).0 (advance v t d rest s f).1
    unfolding advance
    Rooted-advance Verdict.accept s f t d rest w r h = record {
      queue = r;
      frontier =
          All-append (λ (p : Txid × ℕ). Walk root s.edges p.1 p.0) f ((t, d) ∷ []) h.frontier
            (w, tt);
      nodes = h.nodes;
      reached = h.reached;
    }
    Rooted-advance _ s f t d rest w r h = record {
      queue = r;
      frontier = h.frontier;
      nodes = h.nodes;
      reached = h.reached;
    }

    pub Rooted-offer : KeepsOffer lim (Rooted root)
    Rooted-offer s f t d rest e h =
        let q = subst (Walks root s.edges) e h.queue in
        Rooted-advance (verdict lim s f t d) s f t d rest q.0 q.1 h

    Added-Extends :
        (s : Bfs) (t : Txid) (d : ℕ) (node : TxNode) (s' : Bfs)
        → Added lim t d node s s'
        → Walk root s.edges d t
        → Walks root s.edges s.queue
        → Extends s s' × (s'.max_depth_reached ≡ s.max_depth_reached) × (s'.nodes ≡ s.nodes)
    Added-Extends s t d node _ (coinbase c) w h =
        (record { edges = λ e m. m; queue = h }, refl, refl)
    Added-Extends s t d node _ too_many w h = (record { edges = λ e m. m; queue = h }, refl, refl)
    Added-Extends s t d node _ (pushed fits) w h =
        let same = push_edges-SameBut t d 0 node.inputs s in
        (push_edges-Extends t d 0 node.inputs s w h, same.deepest, same.nodes)

    -- The node that is inserted is the deepest one, or one that was there still is.
    IsReached-node :
        (s s' : Bfs) (t : Txid) (d : ℕ) (node : TxNode)
        → Walk root s'.edges d t
        → ((e : AncestryEdge) → Memᴰ e s.edges → Memᴰ e s'.edges)
        → s'.max_depth_reached ≡ (note_depth d s).max_depth_reached
        → s'.nodes ≡ s.nodes
        → IsReached root s.nodes s.edges s.max_depth_reached
        → IsReached root (insert t node s'.nodes) s'.edges s'.max_depth_reached
    unfolding note_depth
    IsReached-node s s' t d node w grow deepest nodes h =
        elim (Bool-cases (ltb s.max_depth_reached d)) [
          | inl deeper ↦
              let is : d ≡ s'.max_depth_reached = sym (deepest ∙ (rw deeper refl)) in
              inr (
                t,
                ground (arith, contains_key-insert t t node s'.nodes, ==_iff t t),
                subst (λ n. Walk root s'.edges n t) is w,
              )
          | inr not_deeper ↦
              let is : s.max_depth_reached ≡ s'.max_depth_reached =
                sym (deepest ∙ (rw not_deeper refl)) in
              elim h [
                | inl none_yet ↦ inl (sym is ∙ none_yet)
                | inr (u, known, v) ↦ inr (
                  u,
                  ground (
                    arith,
                    contains_key-insert t u node s'.nodes,
                    ap (λ m. contains_key m u) nodes,
                    known,
                  ),
                  subst (λ n. Walk root s'.edges n u) is (Walk-mono grow v),
                )
              ]
        ]

    pub Rooted-node : KeepsNode lim (Rooted root)
    unfolding insert_node note_depth
    Rooted-node s t d f node h =
        let noted = note_depth d s in
        let s' = add_edges lim t d node noted in
        let (x, deepest, nodes) =
          Added-Extends noted t d node s' (add_edges-Added lim t d node noted) h.frontier.0
            h.queue in
        record {
          queue = x.queue;
          frontier = Walks-mono root s.edges s'.edges f x.edges h.frontier.1;
          reached =
              IsReached-node s s' t d node (Walk-mono x.edges h.frontier.0) x.edges deepest nodes
                h.reached;
          nodes = λ u known. elim (Bool-cases (t == u)) [
            | inl same ↦ (
              d,
              (omega (arith, deepest, note_depth_reaches d s)),
              subst (Walk root s'.edges d) ((==_iff t u).0 same) (Walk-mono x.edges h.frontier.0),
            )
            | inr other ↦
                let law = contains_key-insert t u node s'.nodes in
                let old : contains_key s.nodes u ≡ true = rw (← nodes) (ground arith) in
                let (d', below, w) = h.nodes u old in
                (d', (omega (arith, below, deepest, note_depth_grows d s)), Walk-mono x.edges w)
          ];
        }
