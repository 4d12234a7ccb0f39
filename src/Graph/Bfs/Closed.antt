-- ===== src/Graph/Bfs/Closed.antt =====
-- When build_ancestry (crates/cory-core/src/graph.rs) is not truncated, nothing is missing.
use cory.Base.{
  ℕ, zero, suc, ◌+◌, ◌≡◌, refl, Bool-cases, Option, none, some, true, false, Bool, ◌||◌, inl, inr,
  List, [], ◌∷◌, Memᴰ, arith, contains, get_elem?, nat_eq, ◌==◌, ==_iff, subst, ap,
}
use mathlib.Core.List.Memᴰ
use cory.Base.Map.{Map, get, insert, get-insert, contains_key}
use cory.Types.{Txid, TxInput, TxNode, OutPoint, AncestryEdge, GraphLimits, is_coinbase-prevout}
use cory.Graph.Bfs.{
  Bfs, Queue, Verdict, verdict, advance, edge, push_edge, push_edges, note_depth, insert_node,
  start, txids, add_edges,
}
use cory.Graph.Bfs.Rules.{KeepsOffer, KeepsNode, View, view}
use cory.Graph.Bfs.Pushes.{push_edges-SameBut, Added, coinbase, too_many, pushed, add_edges-Added}
use cory.Graph.Bfs.Tracking.{Tracked, contains-txids-concat}
use cory.Graph.Bfs.Edges.{SpendsAt}

-- The transaction is in the graph, in the frontier or still in the queue.
abbrev pub waiting : Bfs → Txid → Bool
waiting s u = contains s.visited u || contains (txids s.queue) u

pub record Linked (s : Bfs) (t : Txid) (idx : ℕ) (op : OutPoint) : Type 0 where
  pub has_edge : Memᴰ (edge t idx op) s.edges
  pub waits : waiting s op.txid ≡ true

record Grows (s s' : Bfs) : Type 0 where
  edges : (e : AncestryEdge) → Memᴰ e s.edges → Memᴰ e s'.edges
  waits : (u : Txid) → waiting s u ≡ true → waiting s' u ≡ true

Linked-Grows :
    {s s' : Bfs} {t : Txid} {idx : ℕ} {op : OutPoint}
    → Grows s s'
    → Linked s t idx op
    → Linked s' t idx op
Linked-Grows g l = record { has_edge = g.edges _ l.has_edge; waits = g.waits _ l.waits }

push_edge-Grows :
    (txid : Txid) (d idx : ℕ) (prevout : Option OutPoint) (s : Bfs)
    → Grows s (push_edge txid d idx prevout s)
unfolding push_edge
push_edge-Grows txid d idx none s = record { edges = λ e m. m; waits = λ u h. h }
push_edge-Grows txid d idx (some op) s = record {
  edges = λ e m. Memᴰ.append_left _ m;
  waits = λ u h. ground (arith, contains-txids-concat s.queue op.txid u (suc d));
}

push_edge-Linked :
    (txid : Txid) (d idx : ℕ) (op : OutPoint) (s : Bfs)
    → Linked (push_edge txid d idx (some op) s) txid idx op
unfolding push_edge
push_edge-Linked txid d idx op s = record {
  has_edge = Memᴰ.append_right s.edges (Memᴰ.head refl);
  waits = ground (arith, contains-txids-concat s.queue op.txid op.txid (suc d));
}

push_edges-Grows :
    (txid : Txid) (d idx : ℕ) (inputs : List TxInput) (s : Bfs)
    → Grows s (push_edges txid d idx inputs s)
unfolding push_edges
push_edges-Grows txid d idx [] s = record { edges = λ e m. m; waits = λ u h. h }
push_edges-Grows txid d idx (input ∷ inputs) s =
    let first = push_edge-Grows txid d idx input.prevout s in
    let others = push_edges-Grows txid d (suc idx) inputs (push_edge txid d idx input.prevout s) in
    record {
      edges = λ e m. others.edges e (first.edges e m);
      waits = λ u h. others.waits u (first.waits u h);
    }

-- Each input that spends an output, `j` places on, has its edge, and what it spends waits.
push_edges-Linked :
    (txid : Txid) (d idx : ℕ) (inputs : List TxInput) (s : Bfs) (j : ℕ) (input : TxInput)
    (op : OutPoint)
    → get_elem? inputs j ≡ some input
    → input.prevout ≡ some op
    → Linked (push_edges txid d idx inputs s) txid (j + idx) op
unfolding push_edges
push_edges-Linked txid d idx [] s j input op at spends = cc
push_edges-Linked txid d idx (first ∷ inputs) s zero input op at spends =
    let same : first ≡ input = cc at in
    let here = push_edge-Linked txid d idx op s in
    let e : 0 + idx ≡ idx = omega arith in
    rw e (
      Linked-Grows (push_edges-Grows txid d (suc idx) inputs (push_edge txid d idx first.prevout s))
        (rw (same, spends) here))
push_edges-Linked txid d idx (first ∷ inputs) s (suc j) input op at spends =
    let e : suc j + idx ≡ j + suc idx = omega arith in
    rw e (
      push_edges-Linked txid d (suc idx) inputs (push_edge txid d idx first.prevout s) j input op at
        spends)

pub record Closed (root : Txid) (s : Bfs) (f : Queue) : Type 0 where
  pub root_waits : s.truncated ≡ false → waiting s root ≡ true
  pub links :
      s.truncated ≡ false
      → (t : Txid) (node : TxNode) (idx : ℕ) (op : OutPoint) → get s.nodes t ≡ some node
      → SpendsAt node idx op
      → Linked s t idx op

pub Closed-start : (root : Txid) → Closed root (start root) []
Closed-start root = record {
  root_waits = λ _. ground arith;
  links = λ _ t node idx op found spends. cc found;
}

module _ (root : Txid) (lim : GraphLimits) where
  Closed-Grows :
      (s s' : Bfs) (f f' : Queue)
      → (s'.truncated ≡ false → s.truncated ≡ false)
      → s'.nodes ≡ s.nodes
      → Grows s s'
      → Closed root s f
      → Closed root s' f'
  Closed-Grows s s' f f' kept same g h = record {
    root_waits = λ e. g.waits root (h.root_waits (kept e));
    links = λ e t node idx op found spends.
        Linked-Grows g (h.links (kept e) t node idx op (rw same at found) spends);
  }

  Closed-advance :
      (s : Bfs) (f : Queue) (t : Txid) (d : ℕ) (rest : Queue) (v : Verdict)
      → View lim s f t d v
      → s.queue ≡ (t, d) ∷ rest
      → Closed root s f
      → Closed root (advance v t d rest s f).0 (advance v t d rest s f).1
  unfolding advance
  Closed-advance s f t d rest Verdict.seen (View.seen old) q h =
      Closed-Grows s _ f f (λ e. e) refl
        (record { edges = λ e m. m; waits = λ u w. ground (arith, ap txids q) }) h
  Closed-advance s f t d rest Verdict.accept (View.accept new room depth few) q h =
      Closed-Grows s _ f _ (λ e. e) refl
        (record { edges = λ e m. m; waits = λ u w. ground (arith, ap txids q) }) h
  Closed-advance s f t d rest _ w q h = record {
    root_waits = λ e. cc;
    links = λ e t' node idx op found spends. cc;
  }

  pub Closed-offer : KeepsOffer lim (Closed root)
  Closed-offer s f t d rest e h =
      Closed-advance s f t d rest (verdict lim s f t d) (view lim s f t d) e h

  -- What the loop body adds for a fetched node, when it does not truncate.
  record Expands (t : Txid) (node : TxNode) (s s' : Bfs) : Type 0 where
    grows : Grows s s'
    same : s'.nodes ≡ s.nodes
    kept : s'.truncated ≡ false → s.truncated ≡ false
    linked :
        s'.truncated ≡ false → (idx : ℕ) (op : OutPoint) → SpendsAt node idx op → Linked s' t idx op

  Added-Expands :
      (s : Bfs) (t : Txid) (d : ℕ) (node : TxNode) (s' : Bfs)
      → Added lim t d node s s'
      → Expands t node s s'
  Added-Expands s t d node _ (coinbase c) = record {
    grows = record { edges = λ e m. m; waits = λ u w. w };
    same = refl;
    kept = λ e. e;
    linked = λ e idx op spends.
        let no_prevout = is_coinbase-prevout node idx spends.input c spends.there in
        cc (no_prevout, spends.prevout);
  }
  Added-Expands s t d node _ too_many = record {
    grows = record { edges = λ e m. m; waits = λ u w. w };
    same = refl;
    kept = λ e. cc;
    linked = λ e idx op spends. cc;
  }
  Added-Expands s t d node _ (pushed fits) =
      let same = push_edges-SameBut t d 0 node.inputs s in
      record {
        grows = push_edges-Grows t d 0 node.inputs s;
        same = same.nodes;
        kept = λ e. cc;
        linked = λ e idx op spends.
            let at : idx + 0 ≡ idx = omega arith in
            rw at at (
              push_edges-Linked t d 0 node.inputs s idx spends.input op spends.there
                spends.prevout);
      }

  Linked-insert :
      (s s' : Bfs) (t : Txid) (node : TxNode) (f : Queue)
      → Expands t node s s'
      → Closed root s f
      → s'.truncated ≡ false
      → (u : Txid) (node' : TxNode) (idx : ℕ) (op : OutPoint)
      → get (insert t node s'.nodes) u ≡ some node'
      → SpendsAt node' idx op
      → Linked s' u idx op
  Linked-insert s s' t node f x h e u node' idx op found spends =
      let law = get-insert t u node s'.nodes in
      elim (Bool-cases (t == u)) [
        | inl same ↦
            let is_t : t ≡ u = (==_iff t u).0 same in
            let is_node : node' ≡ node = ground arith in
            subst (λ v. Linked s' v idx op) is_t
              (x.linked e idx op (subst (λ n. SpendsAt n idx op) is_node spends))
        | inr other ↦
            let old : get s.nodes u ≡ some node' = rw (← x.same) (ground arith) in
            Linked-Grows x.grows (h.links (x.kept e) u node' idx op old spends)
      ]

  pub Closed-node : KeepsNode lim (Closed root)
  unfolding insert_node note_depth
  Closed-node s t d f node h =
      let noted = note_depth d s in
      let s' = add_edges lim t d node noted in
      let x = Added-Expands noted t d node s' (add_edges-Added lim t d node noted) in
      let before : Closed root noted f = record {
        root_waits = h.root_waits;
        links = λ e u n i o a b.
            Linked-Grows (record { edges = λ e m. m; waits = λ u w. w }) (h.links e u n i o a b);
      } in
      record {
        root_waits = λ e. x.grows.waits root (before.root_waits (x.kept e));
        links = λ e u node' idx op found spends.
            Linked-Grows (record { edges = λ e m. m; waits = λ u w. w })
              (Linked-insert noted s' t node f x before e u node' idx op found spends);
      }

-- At the end of a search that has not been truncated the queue is empty: what a node spends is a
-- node, and the root is one.
pub record IsComplete (root : Txid) (nodes : Map Txid TxNode) (edges : List AncestryEdge)
    : Type 0 where
  pub has_root : contains_key nodes root ≡ true
  pub has_edges :
      (t : Txid) (node : TxNode) (idx : ℕ) (op : OutPoint)
      → get nodes t ≡ some node
      → SpendsAt node idx op
      → Memᴰ (edge t idx op) edges × (contains_key nodes op.txid ≡ true)

pub Closed-IsComplete :
    (root : Txid) (s : Bfs)
    → s.truncated ≡ false
    → s.queue ≡ []
    → Tracked s []
    → Closed root s []
    → IsComplete root s.nodes s.edges
Closed-IsComplete root s e empty tracked h =
    let in_graph : (u : Txid) → waiting s u ≡ true → contains_key s.nodes u ≡ true =
      λ u w. ground (arith, tracked.known u, ap txids empty) in
    record {
      has_root = in_graph root (h.root_waits e);
      has_edges = λ t node idx op found spends.
          let l = h.links e t node idx op found spends in (l.has_edge, in_graph op.txid l.waits);
    }
