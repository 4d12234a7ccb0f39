-- ===== src/Server/Graph/Response.antt =====
-- crates/cory/src/server/graph.rs, get_graph: the response made of the graph that was found.
use cory.Base.{Bool, Option, List, ◌≡◌}
use cory.Base.Map.{Map}
use cory.Base.Text.{Text}
use cory.Types.{AncestryGraph}
use cory.Graph.World.{Services, World}
use cory.Server.{Reply, ok, err, Messages, check_auth}
use cory.Server.Limits.{GraphQuery}
use cory.Server.Graph.{AppState, Platform, Answer, reply, crash, get_graph}
use cory.Server.Graph.Served.{Served}
use cory.Labels.Store.{LabelStore}
use cory.Server.Enrichment.{
  TxEnrichment, GraphLabelsByType, GraphEnrichments, Context, build_graph_enrichments,
}
use cory.Server.Enrichment.Claims.{IsSound}
use cory.Server.Enrichment.Sound.{build_graph_enrichments-IsSound}
use cory.Server.Enrichment.Whole.{IsWhole, build_graph_enrichments-IsWhole}

pub record GraphResponse (R : Type 0) : Type 0 where
  pub graph : AncestryGraph
  pub enrichments : Map Text (TxEnrichment R)
  pub labels_by_type : GraphLabelsByType
  pub input_address_refs : Map Text Text
  pub output_address_refs : Map Text Text
  pub address_occurrences : Map Text (List Text)

-- A reply, or the panic or the endless run of the search below it.
pub data GraphAnswer (R : Type 0) : Type 0 where
  replied : Reply (GraphResponse R) → GraphAnswer R
  crashed : GraphAnswer R

-- The labels are those of the state.
abbrev pub with_store : {R : Type 0} → Context R → LabelStore → Context R
with_store ctx store = record ctx { store = store }

module _ {R : Type 0} (ctx : Context R) where
  unfoldable pub graph_response_of : AncestryGraph → GraphEnrichments R → GraphResponse R
  graph_response_of graph enrichments = record {
    graph = graph;
    enrichments = enrichments.tx_enrichments;
    labels_by_type = enrichments.labels_by_type;
    input_address_refs = enrichments.input_address_refs;
    output_address_refs = enrichments.output_address_refs;
    address_occurrences = enrichments.address_occurrences;
  }

  unfoldable pub respond : Answer → GraphAnswer R
  respond (reply (ok graph)) =
      replied (ok (graph_response_of graph (build_graph_enrichments ctx graph)))
  respond (reply (err e)) = replied (err e)
  respond crash = crashed

  -- The enrichments of a response.
  abbrev pub enrichments_of : GraphResponse R → GraphEnrichments R
  enrichments_of r = record {
    tx_enrichments = r.enrichments;
    labels_by_type = r.labels_by_type;
    input_address_refs = r.input_address_refs;
    output_address_refs = r.output_address_refs;
    address_occurrences = r.address_occurrences;
  }

module _ {T P N R : Type 0} (sv : Services T P N) (show : Messages) (platform : Platform)
    (ctx : Context R) where
  -- get_graph with its response.
  unfoldable pub graph_response :
      Option Text
      → Text
      → GraphQuery
      → Option Bool
      → AppState (World T P N)
      → GraphAnswer R × AppState (World T P N)
  unfolding respond graph_response_of
  graph_response header txid query record_history state =
      let (answer, after) = get_graph sv show platform header txid query record_history state in
      (respond (with_store ctx after.labels) answer, after)

module _ {R : Type 0} (ctx : Context R) where
  -- What a response says of its graph is so, and nothing is missing.
  pub record IsTrue (r : GraphResponse R) : Type 0 where
    pub sound : IsSound ctx r.graph (enrichments_of ctx r)
    pub whole : IsWhole ctx r.graph (enrichments_of ctx r)

  pub response-IsTrue :
      (graph : AncestryGraph)
      → IsTrue (graph_response_of ctx graph (build_graph_enrichments ctx graph))
  unfolding graph_response_of
  response-IsTrue graph = record {
    sound = build_graph_enrichments-IsSound ctx graph;
    whole = build_graph_enrichments-IsWhole ctx graph;
  }

  -- What holds of a response to an answer.
  abbrev Answered : Answer → GraphResponse R → Type 0
  Answered answer r = (answer ≡ reply (ok r.graph)) × IsTrue r

module _ {T P N R : Type 0} (sv : Services T P N) (show : Messages) (platform : Platform)
    (ctx : Context R) where
  -- A response that the server may send: within the limits, with what is so of the graph and the labels.
  pub record IsAnswer (state : AppState (World T P N)) (header : Option Text) (r : GraphResponse R)
      : Type 0 where
    pub authorized : check_auth state.api_token header ≡ ok tt
    pub served : Served state.default_limits r.graph
    pub is_true : IsTrue (with_store ctx state.labels) r
