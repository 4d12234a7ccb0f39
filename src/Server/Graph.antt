-- ===== src/Server/Graph.antt =====
-- crates/cory/src/server/graph.rs, get_graph up to the graph that it responds with.
-- The parser of txids and the clock are parameters.
pub mod Served
pub mod Response
use cory.Base.{
  ℕ, Bool, true, false, Option, none, some, ◌≡◌, refl, ◌⊎◌, inl, inr, ◌++◌, ◌≤◌, arith, min, length,
}
use cory.Base.Text.{Text, text}
use cory.Error.{CoreError}
use cory.Exec.{Outcome, done, fail, panic, out_of_fuel}
use cory.Types.{Txid, GraphLimits, AncestryGraph}
use cory.Graph.World.{Services, World}
use cory.Graph.Build.{build_ancestry}
use cory.Graph.Build.Limits.{WithinLimits, build_ancestry-WithinLimits}
use cory.Server.{AppError, Reply, ok, err, Messages, check_auth}
use cory.Server.Limits.{
  GraphQuery, validate_query, limits_of, Allowed, limits_of-Allowed, hard_max_depth, hard_max_nodes,
  hard_max_edges,
}
use cory.Labels.Store.{LabelStore}
use cory.Server.History.{History, record_search_history}

abbrev pub max_history_entries : ℕ
max_history_entries = 1000

pub record AppState (W : Type 0) : Type 0 where
  pub world : W
  pub api_token : Text
  pub default_limits : GraphLimits
  pub history : History
  pub labels : LabelStore

-- The parser and the printer of txids, and the clock; an error is a message on the left.
pub record Platform : Type 0 where
  pub parse_txid : Text → Text ⊎ Txid
  pub show_txid : Txid → Text
  pub now : Text ⊎ Text

pub map_graph_build_error : Messages → Platform → Txid → CoreError → AppError
map_graph_build_error show platform txid (CoreError.tx_not_found t) =
    AppError.not_found (text "transaction not found: " ++ platform.show_txid txid)
map_graph_build_error show platform txid (CoreError.invalid_tx_data message) =
    AppError.bad_request message
map_graph_build_error show platform txid (CoreError.rpc e) =
    AppError.bad_gateway (text "bitcoin rpc error: " ++ show.of_core (CoreError.rpc e))
map_graph_build_error show platform txid e =
    AppError.internal
      (text "build ancestry graph for " ++ platform.show_txid txid ++ text ": " ++ show.of_core e)

pub wants_history : Option Bool → Bool
wants_history none = true
wants_history (some b) = b

-- What the search ends with: an error of the request, the panic or the endless run of the search, or a
-- graph for a txid.
pub data Found : Type 0 where
  refused : AppError → Found
  search_crashed : Found
  found : Txid → AncestryGraph → Found

-- A reply, or the panic or the endless run of the search below it.
pub data Answer : Type 0 where
  reply : Reply AncestryGraph → Answer
  crash : Answer

module _ {T P R : Type 0} (sv : Services T P R) (show : Messages) (platform : Platform) where
  abbrev State : Type 0
  State = AppState (World T P R)

  pub after_search : Txid → Outcome AncestryGraph → Found
  after_search txid (done g) = found txid g
  after_search txid (fail e) = refused (map_graph_build_error show platform txid e)
  after_search txid panic = search_crashed
  after_search txid out_of_fuel = search_crashed

  pub search : Txid → GraphLimits → State → Found × State
  search txid lim state =
      let (r, w) = build_ancestry sv txid lim state.world in
      (after_search txid r, record state { world = w })

  pub with_query : Txid → GraphQuery → Reply (Unit {0}) → State → Found × State
  with_query txid query (err e) state = (refused e, state)
  with_query txid query (ok u) state = search txid (limits_of query state.default_limits) state

  pub with_txid : Text ⊎ Txid → GraphQuery → State → Found × State
  with_txid (inl message) query state =
      (refused (AppError.bad_request (text "invalid txid: " ++ message)), state)
  with_txid (inr txid) query state =
      with_query txid query (validate_query query state.default_limits) state

  pub with_auth : Reply (Unit {0}) → Text → GraphQuery → State → Found × State
  with_auth (err e) txid query state = (refused e, state)
  with_auth (ok u) txid query state = with_txid (platform.parse_txid txid) query state

  -- get_graph up to the search.
  unfoldable pub find_graph : Option Text → Text → GraphQuery → State → Found × State
  unfolding with_auth with_txid with_query search after_search map_graph_build_error
  find_graph header txid query state =
      with_auth (check_auth state.api_token header) txid query state

  -- The search is recorded at a time, or the error of its formatting replied.
  unfoldable pub with_history : Bool → Text ⊎ Text → Txid → AncestryGraph → State → Answer × State
  with_history false now txid g state = (reply (ok g), state)
  with_history true (inl message) txid g state =
      (reply (err (AppError.internal (text "format search timestamp: " ++ message))), state)
  with_history true (inr searched_at) txid g state = (
    reply (ok g),
    record state {
      history =
          record_search_history state.history (platform.show_txid txid) searched_at
            max_history_entries;
    },
  )

  unfoldable pub note_search : Bool → Found → State → Answer × State
  note_search wanted (refused e) state = (reply (err e), state)
  note_search wanted search_crashed state = (crash, state)
  note_search wanted (found txid g) state = with_history wanted platform.now txid g state

  unfoldable pub get_graph : Option Text → Text → GraphQuery → Option Bool → State → Answer × State
  unfolding find_graph note_search with_history wants_history
  get_graph header txid query record_history state =
      let (r, after) = find_graph header txid query state in
      note_search (wants_history record_history) r after
