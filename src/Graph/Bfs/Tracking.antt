-- ===== src/Graph/Bfs/Tracking.antt =====
-- build_ancestry (crates/cory-core/src/graph.rs): `visited` holds the nodes and the frontier, each
-- transaction once.
use cory.Base.{
  ℕ, ◌+◌, ◌≡◌, refl, false, ◌||◌, List, [], ◌∷◌, ◌++◌, arith, length, contains, nat_eq, ◌==◌, Each,
}
use cory.Base.Map.{Map, insert, contains_key, contains_key-insert, length-insert}
use cory.Types.{Txid, TxNode, GraphLimits}
use cory.Graph.Bfs.{Bfs, Queue, Verdict, verdict, advance, txids, start, process}
use cory.Graph.Bfs.Rules.{KeepsOffer, KeepsNode, KeepsGood, View, view, process_rule}
use cory.Graph.Bfs.Pushes.{nodes-insert_node, visited-insert_node}

abbrev pub Fresh : Map Txid TxNode → Queue → Type 0
Fresh m [] = Unit
Fresh m ((t, d) ∷ f) = (contains_key m t ≡ false) × (contains (txids f) t ≡ false) × Fresh m f

pub contains-txids-concat :
    (f : Queue) (t u : Txid) (d : ℕ)
    → contains (txids (f ++ (t, d) ∷ [])) u ≡ (contains (txids f) u || t == u)
contains-txids-concat [] t u d = ground arith
contains-txids-concat ((v, d') ∷ f) t u d = ground (arith, contains-txids-concat f t u d)

Fresh-concat :
    (m : Map Txid TxNode) (f : Queue) (t : Txid) (d : ℕ)
    → contains_key m t ≡ false
    → contains (txids f) t ≡ false
    → Fresh m f
    → Fresh m (f ++ (t, d) ∷ [])
Fresh-concat m [] t d new other h = (new, refl, tt)
Fresh-concat m ((u, d') ∷ f) t d new other h = (
  h.0,
  ground (arith, contains-txids-concat f t u d),
  Fresh-concat m f t d new (ground arith) h.2,
)

Fresh-insert :
    (m : Map Txid TxNode) (f : Queue) (t : Txid) (node : TxNode)
    → contains (txids f) t ≡ false
    → Fresh m f
    → Fresh (insert t node m) f
Fresh-insert m [] t node other h = tt
Fresh-insert m ((u, d) ∷ f) t node other h = (
  ground (arith, contains_key-insert t u node m),
  h.1,
  Fresh-insert m f t node (ground arith) h.2,
)

pub record Tracked (s : Bfs) (f : Queue) : Type 0 where
  pub known : (t : Txid) → contains s.visited t ≡ (contains_key s.nodes t || contains (txids f) t)
  pub fresh : Fresh s.nodes f

pub Tracked-start : (root : Txid) → Tracked (start root) []
Tracked-start root = record { known = λ t. refl; fresh = tt }

module _ (lim : GraphLimits) where
  Tracked-advance :
      (s : Bfs) (f : Queue) (t : Txid) (d : ℕ) (rest : Queue) (v : Verdict)
      → View lim s f t d v
      → Tracked s f
      → Tracked (advance v t d rest s f).0 (advance v t d rest s f).1
  unfolding advance
  Tracked-advance s f t d rest Verdict.accept (View.accept new room depth few) h = record {
    known = λ u. ground (arith, h.known u, contains-txids-concat f t u d);
    fresh =
        Fresh-concat s.nodes f t d (ground (arith, h.known t)) (ground (arith, h.known t)) h.fresh;
  }
  Tracked-advance s f t d rest _ w h = record { known = h.known; fresh = h.fresh }

  pub Tracked-offer : KeepsOffer lim Tracked
  Tracked-offer s f t d rest e h =
      Tracked-advance s f t d rest (verdict lim s f t d) (view lim s f t d) h

  pub Tracked-node : KeepsNode lim Tracked
  Tracked-node s t d f node h = record {
    known = λ u.
        rw (nodes-insert_node lim t d node s, visited-insert_node lim t d node s)
          (ground (arith, h.known u, contains_key-insert t u node s.nodes));
    fresh =
        rw (nodes-insert_node lim t d node s) (Fresh-insert s.nodes f t node h.fresh.1 h.fresh.2);
  }

  abbrev Counted : ℕ → Bfs → Queue → Type 0
  Counted n s f = Tracked s f × (length s.nodes + length f ≡ n)

  Counted-node : (n : ℕ) → KeepsNode lim (Counted n)
  Counted-node n s t d f node (h, total) = (
    Tracked-node s t d f node h,
    rw (nodes-insert_node lim t d node s) (ground (arith, length-insert t node s.nodes, h.fresh.0)),
  )

  -- A level adds every transaction of its frontier.
  pub length-process :
      (Good : Txid → TxNode → Type 0) (s : Bfs) (f : Queue) (fetched : List TxNode)
      → Each Good (txids f) fetched
      → Tracked s f
      → length (process lim f fetched s).nodes ≡ length s.nodes + length f
  length-process Good s f fetched e h =
      let n = length s.nodes + length f in
      let keep : KeepsGood lim (Counted n) Good = λ s t d f node _. Counted-node n s t d f node in
      let (_, total) = process_rule lim (Counted n) Good keep f fetched s e (h, refl) in
      omega (arith, total)
