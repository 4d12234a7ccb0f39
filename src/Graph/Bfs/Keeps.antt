-- ===== src/Graph/Bfs/Keeps.antt =====
-- The loop of build_ancestry (crates/cory-core/src/graph.rs) changes the world only by fetching.
use cory.Base.{ℕ, zero, suc, inl, inr, List, [], ◌∷◌, List-cases}
use cory.Exec.{Exec, Ensures, Ensures-then, Ensures-return}
use cory.Types.{Txid, TxNode, GraphLimits}
use cory.Graph.Bfs.{Bfs, Queue, start, drain, process, txids, level, expand, loop, search_ancestry}
use cory.Graph.Bfs.Rules.{Answers}

module _ {W : Type 0} (I : W → Type 0) (Good : Txid → TxNode → Type 0)
    (fetch : List Txid → Exec W (List TxNode)) (lim : GraphLimits)
    (answers : Answers I Good fetch) where
  abbrev Keeps : Exec W Bfs → Type 0
  Keeps m = Ensures I m (λ _. Unit {0})

  level-Keeps : (f : Queue) (s : Bfs) → Keeps (level fetch lim f s)
  unfolding level
  level-Keeps f s =
      Ensures-then (answers (txids f)) (λ fetched _. Ensures-return (process lim f fetched s) tt)

  expand-Keeps :
      (k : Bfs → Exec W Bfs) (f : Queue) (s : Bfs)
      → ((s' : Bfs) → Keeps (k s'))
      → Keeps (expand fetch lim k s f)
  unfolding expand
  expand-Keeps k [] s rest = Ensures-return s tt
  expand-Keeps k (x ∷ f) s rest = Ensures-then (level-Keeps (x ∷ f) s) (λ s' _. rest s')

  loop-Keeps : (fuel : ℕ) (s : Bfs) → Keeps (loop fetch lim fuel s)
  unfolding loop
  loop-Keeps zero s = elim (List-cases s.queue) [
    | inl empty ↦ rw (empty, loop) (Ensures-return s tt)
    | inr (x, rest, e) ↦ rw (e, loop) (record { keeps = λ w i. i; returns = λ w a i h. tt })
  ]
  loop-Keeps (suc fuel) s = elim (List-cases s.queue) [
    | inl empty ↦ rw (empty, loop) (Ensures-return s tt)
    | inr (x, rest, e) ↦
        let (s', f) = drain lim s.queue s [] in
        rw (e, loop) (expand-Keeps (loop fetch lim fuel) f s' (λ s''. loop-Keeps fuel s''))
  ]

  pub search_keeps : (root : Txid) (w : W) → I w → I (search_ancestry fetch lim root w).1
  unfolding search_ancestry
  search_keeps root w i = (loop-Keeps (suc lim.max_nodes) (start root)).keeps w i
