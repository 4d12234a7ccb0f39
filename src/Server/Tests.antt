-- ===== src/Server/Tests.antt =====
-- The handlers (crates/cory/src/server) on concrete requests.
use cory.Base.{Option, ◌≢◌, ap, ◌≡◌, refl, inr, none, some, [], ◌∷◌, arith, ℕ, true}
use cory.Base.Text.{Text, text}
use cory.Base.Map.{Map}
use cory.Exec.{◌>>=◌}
use cory.Types.{Txid, TxNode, TxOutput, AncestryGraph, default_limits, is_coinbase}
use cory.Rpc.{get_transactions_default, get_tx_outs_default}
use cory.Graph.World.{World}
use cory.Graph.Mock.Honest.{fixed_services, fixed_world}
use cory.Graph.Build.{build_ancestry}
use cory.Server.{err, AppError, Messages, ok, check_auth}
use cory.Server.Limits.{
  GraphQuery, validate_query, limits_of, Allowed, limits_of-Allowed, validate_limit_bounds,
}
use cory.Server.History.{History, record_search_history}
use cory.Server.History.Listing.{get_history, Answers, get_history-Answers}
use cory.Labels.{Bip329Type}
use cory.Labels.Tests.{json, disk, one_of_each, one_of_each-IsWellFormed}
use cory.Labels.Store.WellFormed.{Safe}
use cory.Server.Labels.{
  LabelRequest, upsert_or_replace_local_label_file, upsert, handle_label_request,
}
use cory.Server.Labels.Safety.{handle_label_request-Safe, handle_label_request-unauthorized}
use cory.Server.Enrichment.{build_graph_enrichments}
use cory.Server.Enrichment.Tests.{context}
use cory.Server.Graph.Response.{GraphResponse, with_store, graph_response_of}
use cory.Server.Graph.{AppState, Platform, Answer, reply, get_graph, find_graph, with_history}
use cory.Server.Graph.Served.{Served, get_graph-Served}

abbrev history : History
history = (text "a", text "2024") ∷ (text "b", text "2023") ∷ []

evicts_the_oldest :
    record_search_history history (text "c") (text "2025") 2
    ≡ ((text "a", text "2024") ∷ (text "c", text "2025") ∷ [])
unfolding record_search_history
evicts_the_oldest = refl

lists_newest_first :
    get_history (text "s") (some (text "s")) ((text "c", text "2022") ∷ history)
    ≡ ok (
        record { txid = text "a"; searched_at = text "2024" }
        ∷ record { txid = text "b"; searched_at = text "2023" }
        ∷ record { txid = text "c"; searched_at = text "2022" }
        ∷ [])
unfolding get_history check_auth
lists_newest_first = refl

get_history-Answers_example :
    Answers
      (check_auth (text "s") (some (text "s")))
      history
      (get_history (text "s") (some (text "s")) history)
get_history-Answers_example = get_history-Answers (text "s") (some (text "s")) history

abbrev pub query : GraphQuery
query = record { max_depth = some 5; max_nodes = none; max_edges = some 100 }

query_ok : validate_query query default_limits ≡ ok tt
unfolding validate_query validate_limit_bounds
query_ok = refl

limits_of-Allowed_example : Allowed default_limits (limits_of query default_limits)
limits_of-Allowed_example = limits_of-Allowed query default_limits query_ok

abbrev pub messages : Messages
messages = record { of_core = λ e. []; of_store = λ e. []; of_header = λ s. none }

abbrev pub platform : Platform
platform = record { parse_txid = λ s. inr 3; show_txid = λ t. t ∷ []; now = inr (text "2025") }

abbrev pub state : AppState (World (Map Txid TxNode) (Map (Txid × ℕ) TxOutput) (Unit {0}))
state = record {
  world = fixed_world;
  api_token = text "secret";
  default_limits = default_limits;
  history = [];
  labels = one_of_each;
}

abbrev served : Answer → AncestryGraph
served (reply (ok g)) = g
served _ = record {
  nodes = [];
  edges = [];
  root_txid = 0;
  truncated = true;
  stats = record { node_count = 0; edge_count = 0; max_depth_reached = 0 };
}

abbrev graph : AncestryGraph
graph =
    served
      (get_graph fixed_services messages platform (some (text "secret")) (text "3") query none
        state).0

answered :
    (get_graph fixed_services messages platform
      (some (text "secret"))
      (text "3")
      query
      none
      state).0
    ≡ reply (ok graph)
unfolding get_graph build_ancestry ◌>>=◌ get_transactions_default get_tx_outs_default is_coinbase
    check_auth validate_query validate_limit_bounds limits_of record_search_history find_graph
    with_history
answered = refl

get_graph-Served_example :
    (check_auth (text "secret") (some (text "secret")) ≡ ok tt) × Served default_limits graph
get_graph-Served_example =
    get_graph-Served fixed_services messages platform graph (some (text "secret")) (text "3") query
      none state answered

abbrev response : GraphResponse ℕ
response =
    graph_response_of (with_store context one_of_each) graph
      (build_graph_enrichments (with_store context one_of_each) graph)

abbrev pub upsert_rent : LabelRequest
upsert_rent =
    upsert_or_replace_local_label_file (text "a")
      (inr (upsert Bip329Type.tx (text "ab") (text "rent")))

handle_label_request-Safe_example :
    Safe one_of_each
      (handle_label_request messages json disk
        (text "s")
        (some (text "s"))
        upsert_rent
        (one_of_each, [])).1.0
handle_label_request-Safe_example =
    handle_label_request-Safe messages json disk one_of_each [] one_of_each-IsWellFormed (text "s")
      (some (text "s")) upsert_rent

pub token_set : [] ≢ text "s"
token_set e = cc e

abbrev first_char : Option Text → ℕ
first_char (some (c ∷ s)) = c
first_char _ = 0

pub wrong_token : some (text "t") ≢ some (text "s")
wrong_token e = absurd (omega (arith, ap first_char e))

handle_label_request-unauthorized_example :
    handle_label_request messages json disk
      (text "s")
      (some (text "t"))
      upsert_rent
      (one_of_each, [])
    ≡ (err (AppError.unauthorized (text "invalid or missing X-API-Token")), (one_of_each, []))
handle_label_request-unauthorized_example =
    handle_label_request-unauthorized messages json disk (one_of_each, []) (text "s")
      (some (text "t")) upsert_rent token_set wrong_token
