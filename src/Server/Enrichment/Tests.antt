-- ===== src/Server/Enrichment/Tests.antt =====
-- The enrichments of a graph of one node, one of whose outputs has an address.
use cory.Base.{ℕ, ◌/◌, ◌≡◌, refl, false, Option, none, some, [], ◌∷◌}
use cory.Base.Map.{get}
use cory.Base.Text.{Text, text, text_eq}
use cory.Types.{TxOutput, ScriptType, AncestryGraph}
use cory.Graph.Mock.{coinbase_input, output_of, tx}
use cory.Labels.Tests.{one_of_each}
use cory.Server.Enrichment.{Context, add_nodes, add_outputs, add_address, build_graph_enrichments}
use cory.Server.Enrichment.Claims.{IsSound}
use cory.Server.Enrichment.Sound.{build_graph_enrichments-IsSound}
use cory.Server.Enrichment.Whole.{IsWhole, build_graph_enrichments-IsWhole}

abbrev pub address_or_none : Text → Option Text
address_or_none [] = none
address_or_none (c ∷ script) = some (c ∷ script)

abbrev pub context : Context ℕ
context = record {
  show_txid = λ t. t ∷ [];
  zero_rate = 0;
  quotient = λ a b. a / b;
  tests = record {
    is_p2pk = λ s. false;
    is_p2pkh = λ s. false;
    is_p2sh = λ s. false;
    is_p2wpkh = λ s. false;
    is_p2wsh = λ s. false;
    is_p2tr = λ s. false;
    is_multisig = λ s. false;
    is_op_return = λ s. false;
  };
  reader = record {
    instructions = λ s. [];
    address_of = address_or_none;
    p2pkh_address_of = λ bytes. none;
  };
  store = one_of_each;
}

abbrev paid : TxOutput
paid = record { value = 5000; script_pub_key = text "home"; script_type = ScriptType.unknown }

abbrev graph : AncestryGraph
graph = record {
  nodes = (97, tx 97 (coinbase_input ∷ []) (output_of 100 ∷ paid ∷ [])) ∷ [];
  edges = [];
  root_txid = 97;
  truncated = false;
  stats = record { node_count = 1; edge_count = 0; max_depth_reached = 0 };
}

address_listed :
    get (build_graph_enrichments context graph).address_occurrences (text "home")
    ≡ some (text "a:1" ∷ [])
unfolding build_graph_enrichments add_nodes add_outputs add_address
    cory.Enrich.Display.derive_display_id
address_listed = refl

build_graph_enrichments-IsSound_example :
    IsSound context graph (build_graph_enrichments context graph)
build_graph_enrichments-IsSound_example = build_graph_enrichments-IsSound context graph

build_graph_enrichments-IsWhole_example :
    IsWhole context graph (build_graph_enrichments context graph)
build_graph_enrichments-IsWhole_example = build_graph_enrichments-IsWhole context graph
