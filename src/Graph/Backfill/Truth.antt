-- ===== src/Graph/Backfill/Truth.antt =====
-- backfill_inputs_from_graph (crates/cory-core/src/graph.rs) writes the truth, and all of it that the
-- graph has.
use cory.Base.{
  ℕ, zero, suc, ◌≡◌, refl, sym, ◌∙◌, ap, subst, Option, none, some, List, [], ◌∷◌, All, get_elem?,
  nat_eq, Option-cases, inl, inr,
}
use cory.Base.Map.{Map, get}
use cory.Types.{Txid, Amount, ScriptType, TxInput, TxOutput, TxNode, OutPoint}
use cory.Graph.Chain.{Chain, at_vout, funding_output, InputFaithful, FaithfulAt}
use cory.Graph.Backfill.{
  funding_outputs, data_at, fill_input, backfill_from, backfill_inputs, backfill_nodes,
}
use cory.Graph.Backfill.Keeps.{
  get-backfilled, prevout-backfill_from, prevouts-backfill_inputs, backfilled_input,
  get_elem?-backfill_inputs, data_at-funding_outputs, funding_outputs-data_at,
}

-- Every node of the map shows the transaction at its key.
abbrev pub NodesFaithful : Chain → Map Txid TxNode → Type 0
NodesFaithful chain m = (t : Txid) (node : TxNode) → get m t ≡ some node → FaithfulAt chain t node

All-get_elem? :
    {A : Type 0} (Q : A → Type 0) (xs : List A) (i : ℕ) (a : A)
    → All Q xs
    → get_elem? xs i ≡ some a
    → Q a
All-get_elem? Q [] i a h at = cc
All-get_elem? Q (x ∷ xs) zero a h at = subst Q (cc at) h.0
All-get_elem? Q (x ∷ xs) (suc i) a h at = All-get_elem? Q xs i a h.1 at

module _ (chain : Chain) (m : Map Txid TxNode) (true_nodes : NodesFaithful chain m) where
  -- The outputs of a node of the graph are those that the chain has at its key.
  at_key :
      (op : OutPoint) (node : TxNode)
      → get m op.txid ≡ some node
      → funding_output chain op ≡ get_elem? node.outputs op.vout
  at_key op node found =
      let (same, f) = true_nodes op.txid node found in
      let known : chain op.txid ≡ some f.original =
        subst (λ u. chain u ≡ some f.original) same f.known in
      ap (λ x. at_vout x op.vout) known ∙ ap (λ os. get_elem? os op.vout) (sym f.outputs)

  filled-Faithful :
      (input : TxInput) (op : OutPoint) (d : Option (Amount × ScriptType))
      → input.prevout ≡ some op
      → data_at (get (funding_outputs m) op.txid) op.vout ≡ d
      → InputFaithful chain input
      → InputFaithful chain (fill_input input d)
  unfolding fill_input
  filled-Faithful input op none spends at h = h
  filled-Faithful input op (some (v, k)) spends at h =
      let (node, o, found, there, is_data) = data_at-funding_outputs m op (v, k) at in
      let funded : funding_output chain op ≡ some o = at_key op node found ∙ there in
      record {
        value = λ v' e. (op, o, spends, funded, cc (is_data, e));
        script_type = λ k' e. (op, o, spends, funded, cc (is_data, e));
      }

  backfill_from-Faithful :
      (input : TxInput) (v : Option Amount) (p : Option OutPoint)
      → input.prevout ≡ p
      → InputFaithful chain input
      → InputFaithful chain (backfill_from (funding_outputs m) input v p)
  unfolding backfill_from
  backfill_from-Faithful input (some v) p e h = h
  backfill_from-Faithful input none none e h = h
  backfill_from-Faithful input none (some op) e h = filled-Faithful input op _ e refl h

  backfill_inputs-Faithful :
      (inputs : List TxInput)
      → All (InputFaithful chain) inputs
      → All (InputFaithful chain) (backfill_inputs (funding_outputs m) inputs)
  unfolding backfill_inputs
  backfill_inputs-Faithful [] h = tt
  backfill_inputs-Faithful (i ∷ inputs) h =
      (backfill_from-Faithful i i.value i.prevout refl h.0, backfill_inputs-Faithful inputs h.1)

  pub backfill_nodes-Faithful : NodesFaithful chain (backfill_nodes (funding_outputs m) m)
  backfill_nodes-Faithful t node found =
      let outs = funding_outputs m in
      let (old, was, filled) = get-backfilled outs m t node found in
      let (same, f) = true_nodes t old was in
      subst (FaithfulAt chain t) (sym filled) (
        same,
        record {
          original = f.original;
          known = f.known;
          outputs = f.outputs;
          spends = prevouts-backfill_inputs outs old.inputs ∙ f.spends;
          inputs = backfill_inputs-Faithful old.inputs f.inputs;
        },
      )

  value-known :
      (input : TxInput) (op : OutPoint) (o : TxOutput) (v : Amount)
      → input.value ≡ some v
      → input.prevout ≡ some op
      → funding_output chain op ≡ some o
      → InputFaithful chain input
      → input.value ≡ some o.value
  value-known input op o v has spends funded h =
      let (op', o', spends', funded', is_v) = h.value v has in
      let same_op : op' ≡ op = cc (spends, spends') in
      let same : o' ≡ o =
        cc (funded, subst (λ q. funding_output chain q ≡ some o') same_op funded') in
      cc (has, is_v, ap (λ (x : TxOutput). x.value) same)

  value-backfill_from :
      (input : TxInput) (v : Option Amount) (p : Option OutPoint) (op : OutPoint) (node : TxNode)
      (o : TxOutput)
      → input.value ≡ v
      → input.prevout ≡ p
      → p ≡ some op
      → get m op.txid ≡ some node
      → funding_output chain op ≡ some o
      → InputFaithful chain input
      → (backfill_from (funding_outputs m) input v p).value ≡ some o.value
  unfolding backfill_from fill_input
  value-backfill_from input (some v) p op node o has spends e found funded h =
      value-known input op o v has (spends ∙ e) funded h
  value-backfill_from input none none op node o has spends e found funded h = cc
  value-backfill_from input none (some q) op node o has spends e found funded h =
      let same : q ≡ op = cc e in
      let there = funding_outputs-data_at m op node o found (sym (at_key op node found) ∙ funded) in
      rw (same, there) refl

  -- Where the transaction that an input spends is in the graph, the filled input has the value.
  pub backfill_nodes-values :
      (t : Txid) (node : TxNode) (idx : ℕ) (input : TxInput) (op : OutPoint) (parent : TxNode)
      (o : TxOutput)
      → get (backfill_nodes (funding_outputs m) m) t ≡ some node
      → get_elem? node.inputs idx ≡ some input
      → input.prevout ≡ some op
      → get m op.txid ≡ some parent
      → funding_output chain op ≡ some o
      → input.value ≡ some o.value
  backfill_nodes-values t node idx input op parent o found at spends known funded =
      let outs = funding_outputs m in
      let (old, was, filled) = get-backfilled outs m t node found in
      let there : get_elem? (backfill_inputs outs old.inputs) idx ≡ some input =
        subst (λ (n : TxNode). get_elem? n.inputs idx ≡ some input) filled at in
      let law = get_elem?-backfill_inputs outs old.inputs idx in
      elim (Option-cases (get_elem? old.inputs idx)) [
        | inl beyond ↦ cc (there, law, ap (backfilled_input outs) beyond)
        | inr (i, is_i) ↦
            let same : backfill_from outs i i.value i.prevout ≡ input =
              cc (there, law, ap (backfilled_input outs) is_i) in
            let kept : i.prevout ≡ some op =
              sym (prevout-backfill_from outs i i.value i.prevout)
              ∙ ap (λ (x : TxInput). x.prevout) same
              ∙ spends in
            ap (λ (x : TxInput). x.value) (sym same)
            ∙ value-backfill_from i i.value i.prevout op parent o refl refl kept known funded (
                All-get_elem? (InputFaithful chain) old.inputs idx i
                  ((true_nodes t old was).1.inputs) is_i)
      ]
