-- ===== src/Server/Enrichment/Sound.antt =====
-- What build_graph_enrichments (crates/cory/src/server/graph.rs) says is so: each entry belongs to a
-- node, an output or an edge of the graph, and each label to the store.
use cory.Base.{
  ℕ, suc, ◌≡◌, refl, Option, none, some, List, [], ◌∷◌, All, All-append, Memᴰ, From, From-head,
  From-tail, From-all, if◌then◌else◌, Bool-cases, inl, inr, nat_eq, get_elem?, Option-cases, subst,
  sym, ap, ◌∙◌,
}
use cory.Base.Map.{Map, get, contains_key, Entries, Entries-insert, Entries-get}
use cory.Base.Text.{Text, text_eq}
use cory.Types.{Txid, TxInput, TxOutput, TxNode, AncestryEdge, AncestryGraph}
use cory.Labels.{Bip329Type}
use cory.Server.Enrichment.{
  display_id_of, vout_of, LabelEntry, GraphEnrichments, Context, labels_for, insert_labels,
  refs_or_new, output_id, ref_of, enrichment_of, add_inputs, refs_at, add_address, add_outputs,
  add_nodes, edge_id, insert_if_any, add_edge_inputs, no_enrichments, build_graph_enrichments,
}
use cory.Server.Enrichment.Described.{labels_for-ShowsLabels, enrichment_of-Describes}
use cory.Server.Enrichment.Claims.{
  ShowsLabels, IsOutput, IsEnrichment, IsInput, NodesSound, IsSound,
}

module _ {R : Type 0} (ctx : Context R) where
  insert_labels-ShowsLabels :
      (kind : Bip329Type) (ref_id : Text) (entries : List LabelEntry)
      (m : Map Text (List LabelEntry))
      → entries ≡ labels_for ctx kind ref_id
      → Entries (ShowsLabels ctx kind) m
      → Entries (ShowsLabels ctx kind) (insert_labels ctx ref_id entries m)
  insert_labels-ShowsLabels kind ref_id [] m is h = h
  insert_labels-ShowsLabels kind ref_id (e ∷ entries) m is h =
      Entries-insert (ShowsLabels ctx kind) ref_id (e ∷ entries) m
        (subst (ShowsLabels ctx kind ref_id) (sym is)
          (labels_for-ShowsLabels ctx kind ref_id λ none_left. cc (is, none_left)))
        h

  add_inputs-ShowsLabels :
      (txid : Txid) (vin : ℕ) (inputs : List TxInput) (m : Map Text (List LabelEntry))
      → Entries (ShowsLabels ctx Bip329Type.input) m
      → Entries (ShowsLabels ctx Bip329Type.input) (add_inputs ctx txid vin inputs m)
  unfolding add_inputs
  add_inputs-ShowsLabels txid vin [] m h = h
  add_inputs-ShowsLabels txid vin (i ∷ inputs) m h =
      add_inputs-ShowsLabels txid (suc vin) inputs _
        (insert_labels-ShowsLabels Bip329Type.input (ref_of ctx txid vin) _ m refl h)

  module _ (nodes : Map Txid TxNode) where
    All-refs_or_new :
        (P : Text → Type 0) (o : Option (List Text))
        → ((refs : List Text) → o ≡ some refs → All P refs)
        → All P (refs_or_new ctx o)
    All-refs_or_new P none h = tt
    All-refs_or_new P (some refs) h = h refs refl

    known_refs :
        (m : Map Text (List Text)) (address : Text)
        → Entries (λ a refs. All (λ r. IsOutput ctx nodes r a) refs) m
        → All (λ r. IsOutput ctx nodes r address) (refs_at ctx m address)
    known_refs m address h =
        All-refs_or_new (λ r. IsOutput ctx nodes r address) (get m address)
          (λ refs found.
            Entries-get (λ a refs. All (λ r. IsOutput ctx nodes r a) refs) m address refs h found)

    new_addr :
        (address : Text) (m : Map Text (List LabelEntry))
        → Entries (ShowsLabels ctx Bip329Type.addr) m
        → Entries (ShowsLabels ctx Bip329Type.addr) (
            if contains_key m address
            then m
            else insert_labels ctx address (labels_for ctx Bip329Type.addr address) m)
    new_addr address m h = elim (Bool-cases (contains_key m address)) [
      | inl old ↦ rw old h
      | inr new ↦ rw new (insert_labels-ShowsLabels Bip329Type.addr address _ m refl h)
    ]

    add_address-Sound :
        (output_ref : Text) (id : Option Text) (g : GraphEnrichments R)
        → ((address : Text) → id ≡ some address → IsOutput ctx nodes output_ref address)
        → NodesSound ctx nodes g
        → NodesSound ctx nodes (add_address ctx output_ref id g)
    unfolding add_address
    add_address-Sound output_ref none g is h = h
    add_address-Sound output_ref (some address) g is h = record {
      fees = h.fees;
      tx = h.tx;
      input = h.input;
      output = h.output;
      addr = new_addr address g.labels_by_type.addr h.addr;
      outputs =
          Entries-insert (IsOutput ctx nodes) output_ref address g.output_address_refs
            (is address refl) h.outputs;
      addresses =
          Entries-insert (λ a refs. All (λ r. IsOutput ctx nodes r a) refs) address _
            g.address_occurrences
            (All-append (λ r. IsOutput ctx nodes r address)
              (refs_at ctx g.address_occurrences address) (output_ref ∷ [])
              (known_refs g.address_occurrences address h.addresses) (is address refl, tt))
            h.addresses;
    }

    add_outputs-Sound :
        (txid : Txid) (node : TxNode) (vout : ℕ) (outputs : List TxOutput) (g : GraphEnrichments R)
        → Memᴰ (txid, node) nodes
        → From node.outputs vout outputs
        → NodesSound ctx nodes g
        → NodesSound ctx nodes (add_outputs ctx txid vout outputs g)
    unfolding add_outputs
    add_outputs-Sound txid node vout [] g there at h = h
    add_outputs-Sound txid node vout (o ∷ outputs) g there at h =
        add_outputs-Sound txid node (suc vout) outputs _ there
          (From-tail node.outputs vout o outputs at)
          (add_address-Sound (ref_of ctx txid vout) (output_id ctx o) _
            (λ address shown. record {
              txid = txid;
              node = node;
              vout = vout;
              output = o;
              in_graph = there;
              at_vout = From-head node.outputs vout o outputs at;
              reference = refl;
              shown = shown;
            })
            (record {
              fees = h.fees;
              tx = h.tx;
              input = h.input;
              output =
                  insert_labels-ShowsLabels Bip329Type.output (ref_of ctx txid vout) _
                    g.labels_by_type.output refl h.output;
              addr = h.addr;
              outputs = h.outputs;
              addresses = h.addresses;
            }))

    add_nodes-Sound :
        (rest : Map Txid TxNode) (g : GraphEnrichments R)
        → ((p : Txid × TxNode) → Memᴰ p rest → Memᴰ p nodes)
        → NodesSound ctx nodes g
        → NodesSound ctx nodes (add_nodes ctx rest g)
    unfolding add_nodes
    add_nodes-Sound [] g part h = h
    add_nodes-Sound ((txid, node) ∷ rest) g part h =
        let there = part (txid, node) (Memᴰ.head refl) in
        add_nodes-Sound rest _ (λ p m. part p (Memᴰ.tail m))
          (add_outputs-Sound txid node 0 node.outputs _ there (From-all node.outputs) (record {
            output = h.output;
            addr = h.addr;
            outputs = h.outputs;
            addresses = h.addresses;
            fees =
                Entries-insert (IsEnrichment ctx nodes) (ctx.show_txid txid)
                  (enrichment_of ctx node) g.tx_enrichments
                  (record {
                    txid = txid;
                    node = node;
                    in_graph = there;
                    reference = refl;
                    described = enrichment_of-Describes ctx node;
                  })
                  h.fees;
            tx =
                insert_labels-ShowsLabels Bip329Type.tx (ctx.show_txid txid) _ g.labels_by_type.tx
                  refl h.tx;
            input = add_inputs-ShowsLabels txid 0 node.inputs g.labels_by_type.input h.input;
          }))

  -- The input of an edge whose funding output has an address.
  edge-IsInput :
      (graph : AncestryGraph) (e : AncestryEdge) (address : Text) (o : Option TxNode)
      → Memᴰ e graph.edges
      → get graph.nodes e.funding_txid ≡ o
      → display_id_of ctx (vout_of ctx o e.funding_vout) ≡ some address
      → IsInput ctx graph (ref_of ctx e.spending_txid e.input_index) address
  edge-IsInput graph e address none there funded shown = cc shown
  edge-IsInput graph e address (some node) there funded shown =
      elim (Option-cases (get_elem? node.outputs e.funding_vout)) [
        | inl beyond ↦ cc (rw beyond at shown)
        | inr (output, at) ↦ record {
          spending_edge = e;
          funding_node = node;
          funding_output = output;
          in_graph = there;
          reference = refl;
          funded = funded;
          at_vout = at;
          shown = sym (ap (display_id_of ctx) at) ∙ shown;
        }
      ]

  insert_id :
      (graph : AncestryGraph) (input_ref : Text) (id : Option Text) (m : Map Text Text)
      → ((address : Text) → id ≡ some address → IsInput ctx graph input_ref address)
      → Entries (IsInput ctx graph) m
      → Entries (IsInput ctx graph) (insert_if_any ctx input_ref id m)
  insert_id graph input_ref none m is h = h
  insert_id graph input_ref (some address) m is h =
      Entries-insert (IsInput ctx graph) input_ref address m (is address refl) h

  add_edge_inputs-IsInput :
      (graph : AncestryGraph) (edges : List AncestryEdge) (m : Map Text Text)
      → ((e : AncestryEdge) → Memᴰ e edges → Memᴰ e graph.edges)
      → Entries (IsInput ctx graph) m
      → Entries (IsInput ctx graph) (add_edge_inputs ctx graph.nodes edges m)
  unfolding add_edge_inputs
  add_edge_inputs-IsInput graph [] m part h = h
  add_edge_inputs-IsInput graph (e ∷ edges) m part h =
      add_edge_inputs-IsInput graph edges _ (λ d at. part d (Memᴰ.tail at))
        (insert_id graph (ref_of ctx e.spending_txid e.input_index) (edge_id ctx graph.nodes e) m
          (λ address shown.
            edge-IsInput graph e address (get graph.nodes e.funding_txid) (part e (Memᴰ.head refl))
              refl shown)
          h)

  with_inputs :
      (nodes : Map Txid TxNode) (g : GraphEnrichments R) (m : Map Text Text)
      → NodesSound ctx nodes g
      → NodesSound ctx nodes (record g { input_address_refs = m })
  with_inputs nodes g m h = record {
    fees = h.fees;
    tx = h.tx;
    input = h.input;
    output = h.output;
    addr = h.addr;
    outputs = h.outputs;
    addresses = h.addresses;
  }

  -- Whatever build_graph_enrichments adds to a graph is so: each enrichment stands under a node
  -- of the graph, with a fee exactly where the sums of its values have one, its rate,
  -- replaceability where an input has a sequence below 0xfffffffe and the locktime of the node;
  -- each address belongs to an output, or to the output that an edge spends, under its reference;
  -- every reference listed for an address is that of an output with the address; and each entry
  -- of labels is not empty and has the labels that the files of the store have under the type and
  -- the reference, all of them and no others.
  pub build_graph_enrichments-IsSound :
      (graph : AncestryGraph) → IsSound ctx graph (build_graph_enrichments ctx graph)
  unfolding build_graph_enrichments
  build_graph_enrichments-IsSound graph =
      let empty : NodesSound ctx graph.nodes (no_enrichments ctx) = record {
        fees = tt;
        tx = tt;
        input = tt;
        output = tt;
        addr = tt;
        outputs = tt;
        addresses = tt;
      } in
      record {
        nodes =
            with_inputs graph.nodes _ _
              (add_nodes-Sound graph.nodes graph.nodes _ (λ p m. m) empty);
        inputs = add_edge_inputs-IsInput graph graph.edges [] (λ e m. m) tt;
      }
