-- ===== src/Graph/Build/Ends.antt =====
-- build_ancestry (crates/cory-core/src/graph.rs) ends, and fails only where a level fails.
use cory.Base.{◌≡◌, refl, ◌⊎◌, inl, inr, List}
use cory.Exec.{
  Exec, Outcome, done, fail, panic, out_of_fuel, HasEnded, SameFailure, continue, pure, ◌>>=◌,
}
use cory.Error.{CoreError}
use cory.Types.{Txid, TxNode, GraphLimits, AncestryGraph}
use cory.Graph.World.{Services, World}
use cory.Graph.Fetch.{fetch_and_convert_many}
use cory.Graph.Fetch.Total.{SomeNode, Anything, fetch_and_convert_many-Each}
use cory.Graph.Fetch.Ends.{fetch_and_convert_many-Ends}
use cory.Graph.Bfs.{Bfs, search_ancestry}
use cory.Graph.Bfs.Progress.{search-Finishes}
use cory.Graph.Build.{finish, build_ancestry}

module _ {T P R : Type 0} (sv : Services T P R) where
  abbrev fetch : List Txid → Exec (World T P R) (List TxNode)
  fetch = fetch_and_convert_many sv

  -- A result, or the error or panic of a call that fetches a level.
  abbrev pub ReturnsOrFails : Outcome AncestryGraph → Type 0
  ReturnsOrFails r =
      ((g : AncestryGraph) × (r ≡ done g))
      ⊎ ((ids : List Txid) × (u : World T P R) × SameFailure (fetch ids u).0 r × HasEnded r)

  SameFailure-fail :
      (B C : Type 0) {A : Type 0} (q : Outcome A) (e : CoreError)
      → SameFailure {B = B} q (fail e)
      → SameFailure {B = C} q (fail e)
  SameFailure-fail B C (done a) e h = absurd h
  SameFailure-fail B C (fail d) e h = h
  SameFailure-fail B C panic e h = absurd h
  SameFailure-fail B C out_of_fuel e h = absurd h

  SameFailure-panic :
      (B C : Type 0) {A : Type 0} (q : Outcome A)
      → SameFailure {B = B} q panic
      → SameFailure {B = C} q panic
  SameFailure-panic B C (done a) h = absurd h
  SameFailure-panic B C (fail d) h = absurd h
  SameFailure-panic B C panic h = tt
  SameFailure-panic B C out_of_fuel h = absurd h

  not-out_of_fuel :
      (B : Type 0) {A : Type 0} (q : Outcome A) → HasEnded q → SameFailure {B = B} q out_of_fuel → ⊥
  not-out_of_fuel B (done a) ended h = h
  not-out_of_fuel B (fail d) ended h = h
  not-out_of_fuel B panic ended h = h
  not-out_of_fuel B out_of_fuel ended h = ended

  abbrev Finishing : Outcome Bfs → Type 0
  Finishing r =
      ((s : Bfs) × (r ≡ done s))
      ⊎ ((ids : List Txid) × (v : World T P R) × SameFailure (fetch ids v).0 r)

  then_finish :
      (root : Txid) (r : Outcome Bfs) (u : World T P R)
      → Finishing r
      → ReturnsOrFails (continue r (λ s. pure (finish root s)) u).0
  then_finish root (done s) u h = inl (finish root s, refl)
  then_finish root (fail e) u (inl (s, is_done)) = cc
  then_finish root (fail e) u (inr (ids, v, same)) =
      inr (ids, v, SameFailure-fail Bfs AncestryGraph (fetch ids v).0 e same, tt)
  then_finish root panic u (inl (s, is_done)) = cc
  then_finish root panic u (inr (ids, v, same)) =
      inr (ids, v, SameFailure-panic Bfs AncestryGraph (fetch ids v).0 same, tt)
  then_finish root out_of_fuel u (inl (s, is_done)) = cc
  then_finish root out_of_fuel u (inr (ids, v, same)) =
      absurd
        (not-out_of_fuel Bfs (fetch ids v).0 ((fetch_and_convert_many-Ends sv ids).ends v) same)

  -- build_ancestry always ends: it returns a graph, or it fails with the error or the panic of one of
  -- its calls of fetch_and_convert_many. The rounds that its loop is given are enough.
  pub build_ancestry-ReturnsOrFails :
      (root : Txid) (lim : GraphLimits) (w : World T P R)
      → ReturnsOrFails (build_ancestry sv root lim w).0
  unfolding build_ancestry ◌>>=◌
  build_ancestry-ReturnsOrFails root lim w =
      let (r, u) = search_ancestry fetch lim root w in
      then_finish root r u (
        search-Finishes (Anything sv) SomeNode fetch lim (fetch_and_convert_many-Each sv) root w tt)
