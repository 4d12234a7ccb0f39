-- ===== src/Graph/Bfs/Progress.antt =====
-- The loop of build_ancestry (crates/cory-core/src/graph.rs) ends.
use cory.Base.{
  ℕ, zero, suc, ◌+◌, ◌<◌, ◌≡◌, refl, ◌∙◌, ap, sym, subst, ◌⊎◌, inl, inr, List, [], ◌∷◌, arith,
  length, Bool-cases, List-cases,
}
use cory.Exec.{Exec, Outcome, done, fail, panic, out_of_fuel, SameFailure, pure, continue, ◌>>=◌}
use cory.Types.{Txid, TxNode, GraphLimits}
use cory.Graph.Bfs.{
  Bfs, Queue, Verdict, verdict, advance, stops, drain, process, txids, level, expand, loop, start,
  search_ancestry,
}
use cory.Graph.Bfs.Rules.{Answers, drain_rule, process_rule}
use cory.Graph.Bfs.Limits.{Bounded, Bounded-offer, Bounded-node, Bounded-start}
use cory.Graph.Bfs.Tracking.{Tracked, Tracked-offer, Tracked-node, Tracked-start, length-process}

-- The drain adds no node.
pub nodes-advance :
    (v : Verdict) (t : Txid) (d : ℕ) (rest : Queue) (s : Bfs) (f : Queue)
    → (advance v t d rest s f).0.nodes ≡ s.nodes
unfolding advance
nodes-advance Verdict.seen t d rest s f = refl
nodes-advance _ t d rest s f = refl

nodes-drain :
    (lim : GraphLimits) (q : Queue) (s : Bfs) (f : Queue) → (drain lim q s f).0.nodes ≡ s.nodes
unfolding drain
nodes-drain lim [] s f = refl
nodes-drain lim ((t, d) ∷ rest) s f =
    let v = verdict lim s f t d in
    let next = advance v t d rest s f in
    elim (Bool-cases (stops v)) [
      | inl stop ↦ rw (stop, drain) (nodes-advance v t d rest s f)
      | inr on ↦ rw (on, drain) (nodes-drain lim rest next.0 next.1 ∙ nodes-advance v t d rest s f)
    ]

module _ {W : Type 0} (I : W → Type 0) (Good : Txid → TxNode → Type 0)
    (fetch : List Txid → Exec W (List TxNode)) (lim : GraphLimits)
    (answers : Answers I Good fetch) where
  -- The outcome is a result, or the failure of one of the calls of `fetch`.
  abbrev pub Finishes : {A : Type 0} → Outcome A → Type 0
  Finishes {A} r =
      ((a : A) × (r ≡ done a)) ⊎ ((ids : List Txid) × (w : W) × SameFailure (fetch ids w).0 r)

  abbrev Kept : Bfs → Queue → Type 0
  Kept s f = Bounded lim s f × Tracked s f

  -- The outcome of a level and of the rest `k` of the loop, from the outcome of the call of `fetch`.
  then_process : (Bfs → Exec W Bfs) → Queue → Bfs → Outcome (List TxNode) → W → Outcome Bfs × W
  then_process k f s r u =
      let (r', u') = continue r (λ fetched. pure (process lim f fetched s)) u in continue r' k u'

  module _ (k : Bfs → Exec W Bfs) (f : Queue) (s : Bfs) (w : W) (i : I w) (h : Kept s f)
      (rest : (s' : Bfs) (u : W)
        → I u
        → Kept s' []
        → length s'.nodes ≡ length s.nodes + length f
        → Finishes (k s' u).0) where
    fetched-Finishes :
        (r : Outcome (List TxNode)) (u : W)
        → (fetch (txids f) w).0 ≡ r
        → I u
        → Finishes (then_process k f s r u).0
    unfolding then_process
    fetched-Finishes (done fetched) u e iu =
        let good = (answers (txids f)).returns w fetched i e in
        rest (process lim f fetched s) u iu
          (
            process_rule lim (Bounded lim) Good (λ s t d f n _. Bounded-node lim s t d f n) f
                fetched s good h.0,
            process_rule lim Tracked Good (λ s t d f n _. Tracked-node lim s t d f n) f fetched s
                good h.1,
          )
          (length-process lim Good s f fetched good h.1)
    fetched-Finishes (fail x) u e iu =
        inr (txids f, w, subst (λ r. SameFailure {B = Bfs} r (fail x)) (sym e) refl)
    fetched-Finishes panic u e iu =
        inr (txids f, w, subst (λ r. SameFailure {B = Bfs} r panic) (sym e) tt)
    fetched-Finishes out_of_fuel u e iu =
        inr (txids f, w, subst (λ r. SameFailure {B = Bfs} r out_of_fuel) (sym e) tt)

    level-Finishes : Finishes ((level fetch lim f s >>= k) w).0
    unfolding level ◌>>=◌ then_process
    level-Finishes =
        fetched-Finishes (fetch (txids f) w).0 (fetch (txids f) w).1 refl
          ((answers (txids f)).keeps w i)

  expand-Finishes :
      (k : Bfs → Exec W Bfs) (f : Queue) (s : Bfs) (w : W) (n : ℕ)
      → I w
      → Kept s f
      → length s.nodes ≡ n
      → ((s' : Bfs) (u : W) → I u → Kept s' [] → n < length s'.nodes → Finishes (k s' u).0)
      → Finishes (expand fetch lim k s f w).0
  unfolding expand
  expand-Finishes k [] s w n i h e rest = inl (s, refl)
  expand-Finishes k (x ∷ f) s w n i h e rest =
      level-Finishes k (x ∷ f) s w i h (λ s' u iu kept more. rest s' u iu kept (omega arith))

  -- With a round left for each node that may still come and one more, the fuel does not run out.
  loop-Finishes :
      (fuel : ℕ) (s : Bfs) (w : W)
      → I w
      → Kept s []
      → lim.max_nodes < length s.nodes + fuel
      → Finishes (loop fetch lim fuel s w).0
  unfolding loop
  loop-Finishes zero s w i h enough = absurd (omega (arith, h.0.room))
  loop-Finishes (suc fuel) s w i h enough = elim (List-cases s.queue) [
    | inl empty ↦ rw (empty, loop) (inl (s, refl))
    | inr (x, rest, e) ↦
        let (s', f) = drain lim s.queue s [] in
        rw (e, loop)
          (expand-Finishes (loop fetch lim fuel) f s' w (length s.nodes) i
            (
              drain_rule lim (Bounded lim) (Bounded-offer lim) s.queue s [] refl h.0,
              drain_rule lim Tracked (Tracked-offer lim) s.queue s [] refl h.1,
            )
            (ap length (nodes-drain lim s.queue s []))
            (λ s'' u iu kept more. loop-Finishes fuel s'' u iu kept (omega arith)))
  ]

  pub search-Finishes : (root : Txid) (w : W) → I w → Finishes (search_ancestry fetch lim root w).0
  unfolding search_ancestry
  search-Finishes root w i =
      loop-Finishes (suc lim.max_nodes) (start root) w i
        (Bounded-start lim root, Tracked-start root) (omega arith)
