-- ===== src/Server/Enrichment.antt =====
-- crates/cory/src/server/graph.rs, build_graph_enrichments: what the response of get_graph adds to
-- the graph. The printer of txids and the floating-point quotient are parameters.
pub mod Claims
pub mod Described
pub mod Sound
pub mod Whole
pub mod Tests
use cory.Base.{
  ℕ, suc, zero, Bool, true, false, not, Option, none, some, List, [], ◌∷◌, ◌++◌, if◌then◌else◌,
  get_elem?, nat_eq, ◌==◌,
}
use cory.Base.Map.{Map, get, insert, contains_key}
use cory.Base.Text.{Text, text, text_eq, decimal}
use cory.Types.{Txid, Amount, Script, TxInput, TxOutput, TxNode, AncestryEdge, AncestryGraph}
use cory.Enrich.{
  ScriptTests, compute_fee, compute_feerate, is_rbf_signaling, any_below, LocktimeInfo,
  locktime_info,
}
use cory.Enrich.Display.{ScriptReader, derive_display_id}
use cory.Labels.{Bip329Type, Bip329Record, LabelFile, LabelFileKind}
use cory.Labels.Store.{LabelStore, get_all_labels_for}

-- A feerate is a floating-point number `R`.
pub record TxEnrichment (R : Type 0) : Type 0 where
  pub fee_sats : Option ℕ
  pub feerate_sat_vb : Option R
  pub rbf_signaling : Bool
  pub locktime : LocktimeInfo

pub record LabelEntry : Type 0 where
  pub file_id : Text
  pub file_name : Text
  pub file_kind : LabelFileKind
  pub editable : Bool
  pub label : Text

pub record GraphLabelsByType : Type 0 where
  pub tx : Map Text (List LabelEntry)
  pub input : Map Text (List LabelEntry)
  pub output : Map Text (List LabelEntry)
  pub addr : Map Text (List LabelEntry)

pub record GraphEnrichments (R : Type 0) : Type 0 where
  pub tx_enrichments : Map Text (TxEnrichment R)
  pub labels_by_type : GraphLabelsByType
  pub input_address_refs : Map Text Text
  pub output_address_refs : Map Text Text
  pub address_occurrences : Map Text (List Text)

abbrev pub to_label_entries : List (LabelFile × Bip329Record) → List LabelEntry
to_label_entries [] = []
to_label_entries ((meta, rec) ∷ labels) =
    record {
      file_id = meta.id;
      file_name = meta.name;
      file_kind = meta.kind;
      editable = meta.editable;
      label = rec.label;
    }
    ∷ to_label_entries labels

-- What does not depend on the graph: the printer of txids, the quotient, the readers of scripts and
-- the label store.
pub record Context (R : Type 0) : Type 0 where
  pub show_txid : Txid → Text
  pub zero_rate : R
  pub quotient : ℕ → ℕ → R
  pub tests : ScriptTests
  pub reader : ScriptReader
  pub store : LabelStore

module _ {R : Type 0} (ctx : Context R) where
  abbrev pub labels_for : Bip329Type → Text → List LabelEntry
  labels_for kind ref_id = to_label_entries (get_all_labels_for kind ref_id ctx.store)

  -- An entry for labels that are there.
  abbrev pub insert_labels :
      Text → List LabelEntry → Map Text (List LabelEntry) → Map Text (List LabelEntry)
  insert_labels ref_id [] m = m
  insert_labels ref_id (e ∷ entries) m = insert ref_id (e ∷ entries) m

  abbrev pub output_id : TxOutput → Option Text
  output_id output = derive_display_id ctx.tests ctx.reader output.script_pub_key

  abbrev pub ref_of : Txid → ℕ → Text
  ref_of txid index = ctx.show_txid txid ++ (text ":" ++ decimal index)

  abbrev pub rate_of : Option Amount → ℕ → Option R
  rate_of none vsize = none
  rate_of (some fee) vsize = some (compute_feerate ctx.zero_rate ctx.quotient fee vsize)

  unfoldable pub enrichment_of : TxNode → TxEnrichment R
  enrichment_of node = record {
    fee_sats = compute_fee node;
    feerate_sat_vb = rate_of (compute_fee node) node.vsize;
    rbf_signaling = is_rbf_signaling node;
    locktime = locktime_info node.locktime (any_below 0xffffffff node.inputs);
  }

  -- The labels of the inputs from the index on.
  pub add_inputs : Txid → ℕ → List TxInput → Map Text (List LabelEntry) → Map Text (List LabelEntry)
  add_inputs txid vin [] m = m
  add_inputs txid vin (i ∷ inputs) m =
      add_inputs txid (suc vin) inputs
        (insert_labels (ref_of txid vin) (labels_for Bip329Type.input (ref_of txid vin)) m)

  abbrev pub refs_or_new : Option (List Text) → List Text
  refs_or_new none = []
  refs_or_new (some refs) = refs

  -- `entry(address).or_insert_with(Vec::new)`
  abbrev pub refs_at : Map Text (List Text) → Text → List Text
  refs_at m address = refs_or_new (get m address)

  -- An address, where the output has one.
  pub add_address : Text → Option Text → GraphEnrichments R → GraphEnrichments R
  add_address output_ref none g = g
  add_address output_ref (some address_ref) g = record g {
    output_address_refs = insert output_ref address_ref g.output_address_refs;
    address_occurrences =
        insert address_ref (refs_at g.address_occurrences address_ref ++ output_ref ∷ [])
          g.address_occurrences;
    labels_by_type = record (g.labels_by_type) {
      addr =
          if contains_key g.labels_by_type.addr address_ref
          then g.labels_by_type.addr
          else insert_labels address_ref (labels_for Bip329Type.addr address_ref)
              g.labels_by_type.addr;
    };
  }

  abbrev add_output_labels : Text → GraphEnrichments R → GraphEnrichments R
  add_output_labels output_ref g = record g {
    labels_by_type = record (g.labels_by_type) {
      output =
          insert_labels output_ref (labels_for Bip329Type.output output_ref)
            g.labels_by_type.output;
    };
  }

  pub add_outputs : Txid → ℕ → List TxOutput → GraphEnrichments R → GraphEnrichments R
  add_outputs txid vout [] g = g
  add_outputs txid vout (output ∷ outputs) g =
      add_outputs txid (suc vout) outputs
        (add_address (ref_of txid vout) (output_id output) (add_output_labels (ref_of txid vout) g))

  -- The enrichment of a node and the labels of the node and its inputs.
  abbrev add_node_labels : Txid → TxNode → GraphEnrichments R → GraphEnrichments R
  add_node_labels txid node g = record g {
    tx_enrichments = insert (ctx.show_txid txid) (enrichment_of node) g.tx_enrichments;
    labels_by_type = record (g.labels_by_type) {
      tx =
          insert_labels (ctx.show_txid txid) (labels_for Bip329Type.tx (ctx.show_txid txid))
            g.labels_by_type.tx;
      input = add_inputs txid 0 node.inputs g.labels_by_type.input;
    };
  }

  pub add_nodes : Map Txid TxNode → GraphEnrichments R → GraphEnrichments R
  add_nodes [] g = g
  add_nodes ((txid, node) ∷ nodes) g =
      add_nodes nodes (add_outputs txid 0 node.outputs (add_node_labels txid node g))

  abbrev pub vout_of : Option TxNode → ℕ → Option TxOutput
  vout_of none vout = none
  vout_of (some node) vout = get_elem? node.outputs vout

  abbrev pub display_id_of : Option TxOutput → Option Text
  display_id_of none = none
  display_id_of (some output) = output_id output

  -- The display id of the output that funds the edge, if the graph has it.
  abbrev pub edge_id : Map Txid TxNode → AncestryEdge → Option Text
  edge_id nodes edge = display_id_of (vout_of (get nodes edge.funding_txid) edge.funding_vout)

  abbrev insert_if_any : Text → Option Text → Map Text Text → Map Text Text
  insert_if_any input_ref none m = m
  insert_if_any input_ref (some address) m = insert input_ref address m

  pub add_edge_inputs : Map Txid TxNode → List AncestryEdge → Map Text Text → Map Text Text
  add_edge_inputs nodes [] m = m
  add_edge_inputs nodes (edge ∷ edges) m =
      add_edge_inputs nodes edges
        (insert_if_any (ref_of edge.spending_txid edge.input_index) (edge_id nodes edge) m)

  abbrev pub no_enrichments : GraphEnrichments R
  no_enrichments = record {
    tx_enrichments = [];
    labels_by_type = record { tx = []; input = []; output = []; addr = [] };
    input_address_refs = [];
    output_address_refs = [];
    address_occurrences = [];
  }

  unfoldable pub build_graph_enrichments : AncestryGraph → GraphEnrichments R
  unfolding add_nodes add_outputs add_address add_inputs add_edge_inputs
  build_graph_enrichments graph =
      let g = add_nodes graph.nodes no_enrichments in
      record g { input_address_refs = add_edge_inputs graph.nodes graph.edges [] }
