-- ===== src/Graph/Build/Search.antt =====
-- build_ancestry (crates/cory-core/src/graph.rs): the state of the search behind a graph that it
-- returns, and the invariants that hold of it.
use cory.Base.{suc, ◌≡◌, ap, [], nat_eq}
use cory.Exec.{done, bind_done, pure}
use cory.Types.{Txid, TxNode, GraphLimits, AncestryGraph}
use cory.Graph.World.{Services, World}
use cory.Graph.Fetch.{fetch_and_convert_many}
use cory.Graph.Fetch.Total.{SomeNode, Anything, fetch_and_convert_many-Each}
use cory.Graph.Bfs.{Bfs, Queue, start, search_ancestry}
use cory.Graph.Bfs.Rules.{Answers, KeepsOffer, KeepsGood, KeepsNode, Ended, loop_rule}
use cory.Graph.Build.{finish, build_ancestry}

module _ {T P R : Type 0} (sv : Services T P R) (root : Txid) (lim : GraphLimits)
    (w w' : World T P R) (g : AncestryGraph)
    (returned : build_ancestry sv root lim w ≡ (done g, w')) where
  -- The search has ended in the state `s`, and the graph is that of `s`.
  pub record Searched (s : Bfs) : Type 0 where
    pub result :
        search_ancestry (fetch_and_convert_many sv) lim root w
        ≡ (done s, (search_ancestry (fetch_and_convert_many sv) lim root w).1)
    pub graph : finish root s ≡ g
    pub world : (search_ancestry (fetch_and_convert_many sv) lim root w).1 ≡ w'

  pub searched : (s : Bfs) × Searched s
  unfolding build_ancestry
  searched =
      let search = search_ancestry (fetch_and_convert_many sv) lim root in
      let (s, result, rest) = bind_done (λ s. pure (finish root s)) search w returned in
      (s, record { result = ap (λ r. (r, (search w).1)) result; graph = cc rest; world = cc rest })

  pub search_rule {ℓ} :
      (I : World T P R → Type 0) (Good : Txid → TxNode → Type 0)
      → Answers I Good (fetch_and_convert_many sv)
      → (Q : Bfs → Queue → Type ℓ) → KeepsOffer lim Q
      → KeepsGood lim Q Good
      → I w
      → Q (start root) []
      → (s : Bfs) → Searched s
      → Ended Q s
  unfolding search_ancestry
  search_rule I Good answers Q offer node i q s h =
      loop_rule I Good (fetch_and_convert_many sv) lim answers Q offer node (suc lim.max_nodes)
        (start root) s w _ i q h.result

  -- Whatever the node answers.
  pub search_rule_any {ℓ} :
      (Q : Bfs → Queue → Type ℓ)
      → KeepsOffer lim Q
      → KeepsNode lim Q
      → Q (start root) []
      → (s : Bfs) → Searched s
      → Ended Q s
  search_rule_any Q offer node q s h =
      search_rule (Anything sv) SomeNode (fetch_and_convert_many-Each sv) Q offer
        (λ t u d f n _. node t u d f n) tt q s h
