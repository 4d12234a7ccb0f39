-- ===== src/Server/Enrichment/Claims.antt =====
-- What it means that enrichments (crates/cory/src/server/graph.rs) are those of a graph, said of the
-- transactions, the edges and the label files themselves.
use cory.Base.{
  ℕ, ◌≡◌, ◌≢◌, ◌≤◌, ◌<◌, ◌⊎◌, ◌↔◌, ◌++◌, true, Option, none, some, List, [], All, Memᴰ, get_elem?,
  nat_eq,
}
use cory.Base.Map.{Map, Entries, get}
use cory.Base.Text.{Text, text, text_eq, decimal}
use cory.Types.{Txid, TxInput, TxOutput, TxNode, AncestryEdge, AncestryGraph}
use cory.Enrich.{LocktimeKind, LocktimeInfo}
use cory.Enrich.Fees.{HasFee}
use cory.Enrich.Display.{derive_display_id}
use cory.Labels.{Bip329Type, Bip329Record, LabelFile, key_eq}
use cory.Labels.Store.{LabelStore}
use cory.Server.Enrichment.{TxEnrichment, LabelEntry, GraphEnrichments, Context}

-- A file of one of the three lists of the store.
abbrev pub InStore : LabelFile → LabelStore → Type 0
InStore f s =
    Memᴰ f s.persistent_rw_files ⊎ (Memᴰ f s.browser_rw_files ⊎ Memᴰ f s.persistent_ro_files)

-- The entry shows a label that a file of the store has under the type and the reference.
pub record IsLabel (store : LabelStore) (kind : Bip329Type) (ref_id : Text) (e : LabelEntry)
    : Type 0 where
  pub file : LabelFile
  pub rec : Bip329Record
  pub in_store : InStore file store
  pub has_label : get file.labels (kind, ref_id) ≡ some rec
  pub shows : e ≡ record {
    file_id = file.id;
    file_name = file.name;
    file_kind = file.kind;
    editable = file.editable;
    label = rec.label;
  }

-- An input with a sequence below the bound.
pub record HasBelow (bound : ℕ) (inputs : List TxInput) : Type 0 where
  pub input : TxInput
  pub there : Memᴰ input inputs
  pub below : input.sequence < bound

abbrev pub IsKind : ℕ → LocktimeKind → Type 0
IsKind locktime LocktimeKind.disabled = locktime ≡ 0
IsKind locktime LocktimeKind.block_height = (0 < locktime) × (locktime < 500000000)
IsKind locktime LocktimeKind.timestamp = 500000000 ≤ locktime

-- The locktime of a node: it is active where it is not zero and an input is not final.
pub record IsLocktime (node : TxNode) (info : LocktimeInfo) : Type 0 where
  pub raw : info.raw ≡ node.locktime
  pub kind : IsKind node.locktime info.kind
  pub active : (info.active ≡ true) ↔ ((0 < node.locktime) × HasBelow 0xffffffff node.inputs)

module _ {R : Type 0} (ctx : Context R) where
  -- The entries are the labels that the files of the store have, all of them, and there are some.
  pub record ShowsLabels (kind : Bip329Type) (ref_id : Text) (entries : List LabelEntry)
      : Type 0 where
    pub some_label : entries ≢ []
    pub sound : (e : LabelEntry) → Memᴰ e entries → IsLabel ctx.store kind ref_id e
    pub whole : (e : LabelEntry) → IsLabel ctx.store kind ref_id e → Memᴰ e entries

  -- The rate of a fee, where there is one.
  abbrev pub IsRate : ℕ → Option ℕ → Option R → Type 0
  IsRate vsize none rate = rate ≡ none
  IsRate vsize (some fee) rate =
      ((vsize ≡ 0) × (rate ≡ some ctx.zero_rate))
      ⊎ ((0 < vsize) × (rate ≡ some (ctx.quotient fee vsize)))

  -- The enrichment of a node: its fee is known exactly where the values of the node have one, and it
  -- signals replaceability exactly where an input has a sequence below 0xfffffffe.
  pub record Describes (node : TxNode) (e : TxEnrichment R) : Type 0 where
    pub fee : (f : ℕ) → (e.fee_sats ≡ some f) ↔ HasFee node f
    pub rate : IsRate node.vsize e.fee_sats e.feerate_sat_vb
    pub rbf : (e.rbf_signaling ≡ true) ↔ HasBelow 0xfffffffe node.inputs
    pub locktime : IsLocktime node e.locktime

  pub record IsEnrichment (nodes : Map Txid TxNode) (key : Text) (e : TxEnrichment R) : Type 0 where
    pub txid : Txid
    pub node : TxNode
    pub in_graph : Memᴰ (txid, node) nodes
    pub reference : key ≡ ctx.show_txid txid
    pub described : Describes node e

  -- The reference is that of an output of a node which has the address.
  pub record IsOutput (nodes : Map Txid TxNode) (output_ref address : Text) : Type 0 where
    pub txid : Txid
    pub node : TxNode
    pub vout : ℕ
    pub output : TxOutput
    pub in_graph : Memᴰ (txid, node) nodes
    pub at_vout : get_elem? node.outputs vout ≡ some output
    pub reference : output_ref ≡ ctx.show_txid txid ++ (text ":" ++ decimal vout)
    pub shown : derive_display_id ctx.tests ctx.reader output.script_pub_key ≡ some address

  -- The reference is that of the input of an edge whose funding output has the address.
  pub record IsInput (graph : AncestryGraph) (input_ref address : Text) : Type 0 where
    pub spending_edge : AncestryEdge
    pub funding_node : TxNode
    pub funding_output : TxOutput
    pub in_graph : Memᴰ spending_edge graph.edges
    pub reference :
        input_ref
        ≡ ctx.show_txid spending_edge.spending_txid
          ++ (text ":" ++ decimal spending_edge.input_index)
    pub funded : get graph.nodes spending_edge.funding_txid ≡ some funding_node
    pub at_vout : get_elem? funding_node.outputs spending_edge.funding_vout ≡ some funding_output
    pub shown : derive_display_id ctx.tests ctx.reader funding_output.script_pub_key ≡ some address

  -- What the nodes have added.
  pub record NodesSound (nodes : Map Txid TxNode) (g : GraphEnrichments R) : Type 0 where
    pub fees : Entries (IsEnrichment nodes) g.tx_enrichments
    pub tx : Entries (ShowsLabels Bip329Type.tx) g.labels_by_type.tx
    pub input : Entries (ShowsLabels Bip329Type.input) g.labels_by_type.input
    pub output : Entries (ShowsLabels Bip329Type.output) g.labels_by_type.output
    pub addr : Entries (ShowsLabels Bip329Type.addr) g.labels_by_type.addr
    pub outputs : Entries (IsOutput nodes) g.output_address_refs
    pub addresses :
        Entries (λ address refs. All (λ r. IsOutput nodes r address) refs) g.address_occurrences

  -- What the response says of the graph and of the store.
  pub record IsSound (graph : AncestryGraph) (g : GraphEnrichments R) : Type 0 where
    pub nodes : NodesSound graph.nodes g
    pub inputs : Entries (IsInput graph) g.input_address_refs
