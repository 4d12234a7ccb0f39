-- ===== src/Server/Enrichment/Whole.antt =====
-- No node and no output of the graph is missing from what build_graph_enrichments
-- (crates/cory/src/server/graph.rs) says.
use cory.Base.{
  ℕ, suc, ◌≡◌, refl, zero, ◌+◌, ap, ◌∙◌, true, Option, none, some, List, [], ◌∷◌, Memᴰ, get_elem?,
  ==_iff, arith,
}
use cory.Base.Map.{Map, insert, contains_key, contains_key-insert}
use cory.Base.Text.{Text, text_eq}
use cory.Types.{Txid, TxOutput, TxNode, AncestryGraph}
use cory.Server.Enrichment.{
  GraphEnrichments, Context, output_id, ref_of, add_address, add_outputs, add_nodes,
  build_graph_enrichments,
}

-- Both keep what the map has and have the new key.
inserted : {A : Type 0} → (k : Text) (a : A) (m : Map Text A) → contains_key (insert k a m) k ≡ true
inserted k a m = ground (arith, contains_key-insert k k a m, ==_iff k k)

still_there :
    {A : Type 0}
    → (j k : Text) (a : A) (m : Map Text A) → contains_key m j ≡ true
    → contains_key (insert k a m) j ≡ true
still_there j k a m old = ground (arith, contains_key-insert k j a m)

module _ {R : Type 0} (ctx : Context R) where
  address-same_fees :
      (output_ref : Text) (id : Option Text) (g : GraphEnrichments R)
      → (add_address ctx output_ref id g).tx_enrichments ≡ g.tx_enrichments
  unfolding add_address
  address-same_fees output_ref none g = refl
  address-same_fees output_ref (some address) g = refl

  outputs-same_fees :
      (txid : Txid) (vout : ℕ) (outputs : List TxOutput) (g : GraphEnrichments R)
      → (add_outputs ctx txid vout outputs g).tx_enrichments ≡ g.tx_enrichments
  unfolding add_outputs
  outputs-same_fees txid vout [] g = refl
  outputs-same_fees txid vout (o ∷ outputs) g =
      outputs-same_fees txid (suc vout) outputs _
      ∙ address-same_fees (ref_of ctx txid vout) (output_id ctx o) _

  nodes-keep_fees :
      (key : Text) (nodes : Map Txid TxNode) (g : GraphEnrichments R)
      → contains_key g.tx_enrichments key ≡ true
      → contains_key (add_nodes ctx nodes g).tx_enrichments key ≡ true
  unfolding add_nodes
  nodes-keep_fees key [] g h = h
  nodes-keep_fees key ((txid, node) ∷ nodes) g h = nodes-keep_fees key nodes _ (
      rw (outputs-same_fees txid 0 node.outputs _)
        (still_there key (ctx.show_txid txid) _ g.tx_enrichments h))

  all_enriched :
      (nodes : Map Txid TxNode) (g : GraphEnrichments R) (txid : Txid) (node : TxNode)
      → Memᴰ (txid, node) nodes
      → contains_key (add_nodes ctx nodes g).tx_enrichments (ctx.show_txid txid) ≡ true
  unfolding add_nodes
  all_enriched [] g txid node at = elim at [ ]
  all_enriched ((t, n) ∷ nodes) g txid node (Memᴰ.head same) =
      let is : txid ≡ t = ap (λ p. p.0) same in
      nodes-keep_fees (ctx.show_txid txid) nodes _
        (rw (outputs-same_fees t 0 n.outputs _, is) (inserted (ctx.show_txid t) _ g.tx_enrichments))
  all_enriched ((t, n) ∷ nodes) g txid node (Memᴰ.tail at) = all_enriched nodes _ txid node at

  address-keeps_refs :
      (key output_ref : Text) (id : Option Text) (g : GraphEnrichments R)
      → contains_key g.output_address_refs key ≡ true
      → contains_key (add_address ctx output_ref id g).output_address_refs key ≡ true
  unfolding add_address
  address-keeps_refs key output_ref none g h = h
  address-keeps_refs key output_ref (some address) g h =
      still_there key output_ref address g.output_address_refs h

  outputs-keep_refs :
      (key : Text) (txid : Txid) (vout : ℕ) (outputs : List TxOutput) (g : GraphEnrichments R)
      → contains_key g.output_address_refs key ≡ true
      → contains_key (add_outputs ctx txid vout outputs g).output_address_refs key ≡ true
  unfolding add_outputs
  outputs-keep_refs key txid vout [] g h = h
  outputs-keep_refs key txid vout (o ∷ outputs) g h =
      outputs-keep_refs key txid (suc vout) outputs _
        (address-keeps_refs key (ref_of ctx txid vout) (output_id ctx o) _ h)

  nodes-keep_refs :
      (key : Text) (nodes : Map Txid TxNode) (g : GraphEnrichments R)
      → contains_key g.output_address_refs key ≡ true
      → contains_key (add_nodes ctx nodes g).output_address_refs key ≡ true
  unfolding add_nodes
  nodes-keep_refs key [] g h = h
  nodes-keep_refs key ((txid, node) ∷ nodes) g h =
      nodes-keep_refs key nodes _ (outputs-keep_refs key txid 0 node.outputs _ h)

  address-shown :
      (output_ref address : Text) (id : Option Text) (g : GraphEnrichments R)
      → id ≡ some address
      → contains_key (add_address ctx output_ref id g).output_address_refs output_ref ≡ true
  unfolding add_address
  address-shown output_ref address none g is = cc is
  address-shown output_ref address (some a) g is = inserted output_ref a g.output_address_refs

  outputs_shown :
      (txid : Txid) (vout i k : ℕ) (outputs : List TxOutput) (g : GraphEnrichments R) (o : TxOutput)
      (address : Text)
      → k ≡ i + vout
      → get_elem? outputs i ≡ some o
      → output_id ctx o ≡ some address
      → contains_key (add_outputs ctx txid vout outputs g).output_address_refs (ref_of ctx txid k)
        ≡ true
  unfolding add_outputs
  outputs_shown txid vout i k [] g o address is_k at is = cc at
  outputs_shown txid vout zero k (first ∷ outputs) g o address is_k at is =
      let e : k ≡ vout = omega (arith, is_k) in
      rw e (
        outputs-keep_refs (ref_of ctx txid vout) txid (suc vout) outputs _
          (address-shown (ref_of ctx txid vout) address (output_id ctx first) _ (cc (at, is))))
  outputs_shown txid vout (suc i) k (first ∷ outputs) g o address is_k at is =
      outputs_shown txid (suc vout) i k outputs _ o address (omega (arith, is_k)) at is

  all_shown :
      (nodes : Map Txid TxNode) (g : GraphEnrichments R) (txid : Txid) (node : TxNode) (vout : ℕ)
      (o : TxOutput) (address : Text)
      → Memᴰ (txid, node) nodes
      → get_elem? node.outputs vout ≡ some o
      → output_id ctx o ≡ some address
      → contains_key (add_nodes ctx nodes g).output_address_refs (ref_of ctx txid vout) ≡ true
  unfolding add_nodes
  all_shown [] g txid node vout o address at found is = elim at [ ]
  all_shown ((t, n) ∷ nodes) g txid node vout o address (Memᴰ.head same) found is =
      let same_txid : txid ≡ t = ap (λ p. p.0) same in
      let same_node : node ≡ n = ap (λ p. p.1) same in
      rw same_txid (
        nodes-keep_refs (ref_of ctx t vout) nodes _ (
          outputs_shown t 0 vout vout n.outputs _ o address (omega arith) (cc (found, same_node))
            is))
  all_shown ((t, n) ∷ nodes) g txid node vout o address (Memᴰ.tail at) found is =
      all_shown nodes _ txid node vout o address at found is

  -- No node and no output of the graph is missing.
  pub record IsWhole (graph : AncestryGraph) (g : GraphEnrichments R) : Type 0 where
    pub enriched :
        (txid : Txid) (node : TxNode)
        → Memᴰ (txid, node) graph.nodes
        → contains_key g.tx_enrichments (ctx.show_txid txid) ≡ true
    pub shown :
        (txid : Txid) (node : TxNode) (vout : ℕ) (o : TxOutput) (address : Text)
        → Memᴰ (txid, node) graph.nodes
        → get_elem? node.outputs vout ≡ some o
        → output_id ctx o ≡ some address
        → contains_key g.output_address_refs (ref_of ctx txid vout) ≡ true

  -- build_graph_enrichments leaves nothing of a graph out: each node has an enrichment under its
  -- txid, and each output with a display id has an address under its reference.
  pub build_graph_enrichments-IsWhole :
      (graph : AncestryGraph) → IsWhole graph (build_graph_enrichments ctx graph)
  unfolding build_graph_enrichments
  build_graph_enrichments-IsWhole graph = record {
    enriched = all_enriched graph.nodes _;
    shown = all_shown graph.nodes _;
  }
