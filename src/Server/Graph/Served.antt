-- ===== src/Server/Graph/Served.antt =====
-- get_graph (crates/cory/src/server/graph.rs) keeps within the limits of the server, and changes only
-- the caches, the node and the history.
use cory.Base.{Bool, true, false, Option, ◌≡◌, refl, ◌∙◌, ◌⊎◌, inl, inr, ◌≤◌, arith, min, length}
use cory.Base.Text.{Text}
use cory.Exec.{Outcome, done, fail, panic, out_of_fuel}
use cory.Types.{Txid, GraphLimits, AncestryGraph}
use cory.Graph.World.{Services, World}
use cory.Graph.Build.{build_ancestry}
use cory.Graph.Build.Limits.{WithinLimits, build_ancestry-WithinLimits}
use cory.Server.{Reply, ok, err, Messages, check_auth}
use cory.Server.Limits.{
  GraphQuery, validate_query, limits_of, Allowed, limits_of-Allowed, hard_max_depth, hard_max_nodes,
  hard_max_edges,
}
use cory.Server.Graph.{
  AppState, Platform, Found, refused, search_crashed, found, reply, after_search, search,
  with_query, with_txid, with_auth, find_graph, with_history, note_search, wants_history, get_graph,
}

-- A graph that the server may send.
pub record Served (default_limits : GraphLimits) (g : AncestryGraph) : Type 0 where
  pub nodes : length g.nodes ≤ min default_limits.max_nodes hard_max_nodes
  pub edges : length g.edges ≤ min default_limits.max_edges hard_max_edges
  pub depth : g.stats.max_depth_reached ≤ min default_limits.max_depth hard_max_depth

Within-Served :
    (root : Txid) (default_limits lim : GraphLimits) (g : AncestryGraph)
    → Allowed default_limits lim
    → WithinLimits root lim g
    → Served default_limits g
Within-Served root default_limits lim g a w = record {
  nodes = omega (arith, a.nodes, w.counted.few_nodes);
  edges = omega (arith, a.edges, w.counted.few_edges);
  depth = omega (arith, a.depth, w.counted.shallow);
}

-- The fields of the state that the search leaves as they are.
pub record SameBut {W : Type 0} (s t : AppState W) : Type 0 where
  pub token : t.api_token ≡ s.api_token
  pub limits : t.default_limits ≡ s.default_limits
  pub labels : t.labels ≡ s.labels
  pub history : t.history ≡ s.history

SameBut-refl : {W : Type 0} (s : AppState W) → SameBut s s
SameBut-refl s = record { token = refl; limits = refl; labels = refl; history = refl }

module _ {T P R : Type 0} (sv : Services T P R) (show : Messages) (platform : Platform) where
  after_search-done :
      (txid t : Txid) (r : Outcome AncestryGraph) (g : AncestryGraph)
      → after_search sv show platform txid r ≡ found t g
      → r ≡ done g
  unfolding after_search
  after_search-done txid t (done h) g e = cc e
  after_search-done txid t (fail x) g e = cc e
  after_search-done txid t panic g e = cc e
  after_search-done txid t out_of_fuel g e = cc e

  search-Served :
      (txid t : Txid) (query : GraphQuery) (state : AppState (World T P R)) (g : AncestryGraph)
      → validate_query query state.default_limits ≡ ok tt
      → (search sv show platform txid (limits_of query state.default_limits) state).0 ≡ found t g
      → Served state.default_limits g
  unfolding search
  search-Served txid t query state g valid e =
      let lim = limits_of query state.default_limits in
      let (r, w) = build_ancestry sv txid lim state.world in
      let is_done = after_search-done txid t r g e in
      Within-Served txid state.default_limits lim g
        (limits_of-Allowed query state.default_limits valid)
        (build_ancestry-WithinLimits sv txid lim state.world w g (cc is_done))

  with_query-Served :
      (txid t : Txid) (query : GraphQuery) (r : Reply (Unit {0})) (state : AppState (World T P R))
      (g : AncestryGraph)
      → validate_query query state.default_limits ≡ r
      → (with_query sv show platform txid query r state).0 ≡ found t g
      → Served state.default_limits g
  unfolding with_query
  with_query-Served txid t query (err x) state g valid e = cc e
  with_query-Served txid t query (ok u) state g valid e = search-Served txid t query state g valid e

  with_txid-Served :
      (parsed : Text ⊎ Txid) (t : Txid) (query : GraphQuery) (state : AppState (World T P R))
      (g : AncestryGraph)
      → (with_txid sv show platform parsed query state).0 ≡ found t g
      → Served state.default_limits g
  unfolding with_txid
  with_txid-Served (inl message) t query state g e = cc e
  with_txid-Served (inr txid) t query state g e = with_query-Served txid t query _ state g refl e

  with_auth-Served :
      (r : Reply (Unit {0})) (txid : Text) (t : Txid) (query : GraphQuery)
      (state : AppState (World T P R)) (g : AncestryGraph)
      → (with_auth sv show platform r txid query state).0 ≡ found t g
      → (r ≡ ok tt) × Served state.default_limits g
  unfolding with_auth
  with_auth-Served (err x) txid t query state g e = cc e
  with_auth-Served (ok u) txid t query state g e =
      (refl, with_txid-Served (platform.parse_txid txid) t query state g e)

  -- A graph that is found went through the token check, and is within the limits.
  pub find_graph-Served :
      (header : Option Text) (txid : Text) (t : Txid) (query : GraphQuery)
      (state : AppState (World T P R)) (g : AncestryGraph)
      → (find_graph sv show platform header txid query state).0 ≡ found t g
      → (check_auth state.api_token header ≡ ok tt) × Served state.default_limits g
  unfolding find_graph
  find_graph-Served header txid t query state g e =
      with_auth-Served (check_auth state.api_token header) txid t query state g e

  with_query-SameBut :
      (txid : Txid) (query : GraphQuery) (r : Reply (Unit {0})) (state : AppState (World T P R))
      → SameBut state (with_query sv show platform txid query r state).1
  unfolding with_query search
  with_query-SameBut txid query (err e) state = SameBut-refl state
  with_query-SameBut txid query (ok u) state = record {
    token = refl;
    limits = refl;
    labels = refl;
    history = refl;
  }

  with_txid-SameBut :
      (parsed : Text ⊎ Txid) (query : GraphQuery) (state : AppState (World T P R))
      → SameBut state (with_txid sv show platform parsed query state).1
  unfolding with_txid
  with_txid-SameBut (inl message) query state = SameBut-refl state
  with_txid-SameBut (inr txid) query state = with_query-SameBut txid query _ state

  with_auth-SameBut :
      (r : Reply (Unit {0})) (txid : Text) (query : GraphQuery) (state : AppState (World T P R))
      → SameBut state (with_auth sv show platform r txid query state).1
  unfolding with_auth
  with_auth-SameBut (err e) txid query state = SameBut-refl state
  with_auth-SameBut (ok u) txid query state =
      with_txid-SameBut (platform.parse_txid txid) query state

  -- The search changes at most the caches and the node.
  pub find_graph-SameBut :
      (header : Option Text) (txid : Text) (query : GraphQuery) (state : AppState (World T P R))
      → SameBut state (find_graph sv show platform header txid query state).1
  unfolding find_graph
  find_graph-SameBut header txid query state =
      with_auth-SameBut (check_auth state.api_token header) txid query state

  with_history-same :
      (wanted : Bool) (now : Text ⊎ Text) (txid : Txid) (h g : AncestryGraph)
      (state : AppState (World T P R))
      → (with_history sv show platform wanted now txid h state).0 ≡ reply (ok g)
      → h ≡ g
  unfolding with_history
  with_history-same false now txid h g state e = cc e
  with_history-same true (inl message) txid h g state e = cc e
  with_history-same true (inr at) txid h g state e = cc e

  pub with_history-labels :
      (wanted : Bool) (now : Text ⊎ Text) (txid : Txid) (h : AncestryGraph)
      (state : AppState (World T P R))
      → (with_history sv show platform wanted now txid h state).1.labels ≡ state.labels
  unfolding with_history
  with_history-labels false now txid h state = refl
  with_history-labels true (inl message) txid h state = refl
  with_history-labels true (inr at) txid h state = refl

  note_search-found :
      (wanted : Bool) (r : Found) (state : AppState (World T P R)) (g : AncestryGraph)
      → (note_search sv show platform wanted r state).0 ≡ reply (ok g)
      → (t : Txid) × (r ≡ found t g)
  unfolding note_search
  note_search-found wanted (refused x) state g e = cc e
  note_search-found wanted search_crashed state g e = cc e
  note_search-found wanted (found t h) state g e =
      (t, cc (with_history-same wanted platform.now t h g state e))

  note_search-labels :
      (wanted : Bool) (r : Found) (state : AppState (World T P R))
      → (note_search sv show platform wanted r state).1.labels ≡ state.labels
  unfolding note_search
  note_search-labels wanted (refused x) state = refl
  note_search-labels wanted search_crashed state = refl
  note_search-labels wanted (found t h) state = with_history-labels wanted platform.now t h state

  -- get_graph leaves the label store as it is.
  pub get_graph-labels :
      (header : Option Text) (txid : Text) (query : GraphQuery) (record_history : Option Bool)
      (state : AppState (World T P R))
      → (get_graph sv show platform header txid query record_history state).1.labels ≡ state.labels
  unfolding get_graph
  get_graph-labels header txid query record_history state =
      let (r, after) = find_graph sv show platform header txid query state in
      note_search-labels (wants_history record_history) r after
      ∙ (find_graph-SameBut header txid query state).labels

  -- A graph that the handler get_graph answers with went through the token check, and has at most the
  -- configured numbers of nodes, edges and levels and at most the hard ceilings, whatever the query
  -- asks for and whatever the cache and the node answer.
  pub get_graph-Served :
      (g : AncestryGraph) (header : Option Text) (txid : Text) (query : GraphQuery)
      (record_history : Option Bool) (state : AppState (World T P R))
      → (get_graph sv show platform header txid query record_history state).0 ≡ reply (ok g)
      → (check_auth state.api_token header ≡ ok tt) × Served state.default_limits g
  unfolding get_graph
  get_graph-Served g header txid query record_history state e =
      let (r, after) = find_graph sv show platform header txid query state in
      let (t, is_found) = note_search-found (wants_history record_history) r after g e in
      find_graph-Served header txid t query state g is_found
