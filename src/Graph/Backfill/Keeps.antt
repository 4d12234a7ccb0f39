-- ===== src/Graph/Backfill/Keeps.antt =====
-- backfill_inputs_from_graph (crates/cory-core/src/graph.rs): what it leaves as it was, and what it
-- fills.
use cory.Base.{
  ℕ, zero, suc, ◌≡◌, refl, ap, ◌∙◌, Option, none, some, List, [], ◌∷◌, length, get_elem?, nat_eq,
  ◌==◌, Bool-cases, Option-cases, inl, inr,
}
use cory.Base.Map.{Map, get, keys}
use cory.Types.{Txid, Amount, ScriptType, TxInput, TxOutput, TxNode, OutPoint}
use cory.Graph.Chain.{prevouts}
use cory.Graph.Backfill.{
  Outputs, output_data, funding_outputs, data_at, fill_input, backfill_from, backfill_inputs,
  backfill_nodes,
}

pub length-backfill_nodes :
    (outs : Map Txid Outputs) (m : Map Txid TxNode) → length (backfill_nodes outs m) ≡ length m
unfolding backfill_nodes
length-backfill_nodes outs [] = refl
length-backfill_nodes outs ((t, n) ∷ m) = ap suc (length-backfill_nodes outs m)

pub keys-backfill_nodes :
    (outs : Map Txid Outputs) (m : Map Txid TxNode) → keys (backfill_nodes outs m) ≡ keys m
unfolding backfill_nodes
keys-backfill_nodes outs [] = refl
keys-backfill_nodes outs ((t, n) ∷ m) = ap (λ ks. t ∷ ks) (keys-backfill_nodes outs m)

-- The node with its inputs filled.
abbrev pub backfilled : Map Txid Outputs → TxNode → TxNode
backfilled outs node = record node { inputs = backfill_inputs outs node.inputs }

abbrev pub backfilled_at : Map Txid Outputs → Option TxNode → Option TxNode
backfilled_at outs none = none
backfilled_at outs (some node) = some (backfilled outs node)

pub get-backfill_nodes :
    (outs : Map Txid Outputs) (m : Map Txid TxNode) (t : Txid)
    → get (backfill_nodes outs m) t ≡ backfilled_at outs (get m t)
unfolding backfill_nodes
get-backfill_nodes outs [] t = refl
get-backfill_nodes outs ((u, n) ∷ m) t = elim (Bool-cases (u == t)) [
  | inl same ↦ rw same refl
  | inr other ↦ rw other (get-backfill_nodes outs m t)
]

-- A node of the filled graph comes from the node at its key.
pub get-backfilled :
    (outs : Map Txid Outputs) (m : Map Txid TxNode) (t : Txid) (node : TxNode)
    → get (backfill_nodes outs m) t ≡ some node
    → (old : TxNode) × (get m t ≡ some old) × (node ≡ backfilled outs old)
get-backfilled outs m t node h = elim (Option-cases (get m t)) [
  | inl missing ↦ cc (h, get-backfill_nodes outs m t, ap (backfilled_at outs) missing)
  | inr (old, found) ↦
      (old, found, cc (h, get-backfill_nodes outs m t, ap (backfilled_at outs) found))
]

pub prevout-backfill_from :
    (outs : Map Txid Outputs) (input : TxInput) (v : Option Amount) (p : Option OutPoint)
    → (backfill_from outs input v p).prevout ≡ input.prevout
unfolding backfill_from fill_input
prevout-backfill_from outs input (some v) p = refl
prevout-backfill_from outs input none none = refl
prevout-backfill_from outs input none (some op) =
    elim (Option-cases (data_at (get outs op.txid) op.vout)) [
      | inl missing ↦ rw missing refl
      | inr ((v, k), found) ↦ rw found refl
    ]

pub prevouts-backfill_inputs :
    (outs : Map Txid Outputs) (inputs : List TxInput)
    → prevouts (backfill_inputs outs inputs) ≡ prevouts inputs
unfolding backfill_inputs
prevouts-backfill_inputs outs [] = refl
prevouts-backfill_inputs outs (i ∷ inputs) =
    cc (prevout-backfill_from outs i i.value i.prevout, prevouts-backfill_inputs outs inputs)

abbrev pub backfilled_input : Map Txid Outputs → Option TxInput → Option TxInput
backfilled_input outs none = none
backfilled_input outs (some i) = some (backfill_from outs i i.value i.prevout)

pub get_elem?-backfill_inputs :
    (outs : Map Txid Outputs) (inputs : List TxInput) (idx : ℕ)
    → get_elem? (backfill_inputs outs inputs) idx ≡ backfilled_input outs (get_elem? inputs idx)
unfolding backfill_inputs
get_elem?-backfill_inputs outs [] idx = refl
get_elem?-backfill_inputs outs (i ∷ inputs) zero = refl
get_elem?-backfill_inputs outs (i ∷ inputs) (suc idx) = get_elem?-backfill_inputs outs inputs idx

abbrev pub outputs_of : Option TxNode → Option Outputs
outputs_of none = none
outputs_of (some node) = some (output_data node.outputs)

-- The snapshot has the outputs of every node at its key.
pub get-funding_outputs :
    (m : Map Txid TxNode) (t : Txid) → get (funding_outputs m) t ≡ outputs_of (get m t)
unfolding funding_outputs
get-funding_outputs [] t = refl
get-funding_outputs ((u, n) ∷ m) t = elim (Bool-cases (u == t)) [
  | inl same ↦ rw same refl
  | inr other ↦ rw other (get-funding_outputs m t)
]

abbrev pub data_of : Option TxOutput → Option (Amount × ScriptType)
data_of none = none
data_of (some o) = some (o.value, o.script_type)

pub get_elem?-output_data :
    (os : List TxOutput) (idx : ℕ) → get_elem? (output_data os) idx ≡ data_of (get_elem? os idx)
unfolding output_data
get_elem?-output_data [] idx = refl
get_elem?-output_data (o ∷ os) zero = refl
get_elem?-output_data (o ∷ os) (suc idx) = get_elem?-output_data os idx

-- What the snapshot says of an outpoint is data of an output of the node that it names.
pub data_at-funding_outputs :
    (m : Map Txid TxNode) (op : OutPoint) (d : Amount × ScriptType)
    → data_at (get (funding_outputs m) op.txid) op.vout ≡ some d
    → (node : TxNode) × (o : TxOutput) × (get m op.txid ≡ some node)
      × (get_elem? node.outputs op.vout ≡ some o)
      × (d ≡ (o.value, o.script_type))
unfolding data_at
data_at-funding_outputs m op d h = elim (Option-cases (get m op.txid)) [
  | inl missing ↦ cc (rw (get-funding_outputs m op.txid, missing) at h)
  | inr (node, found) ↦
      let at = rw (get-funding_outputs m op.txid, found) at h in
      let law = get_elem?-output_data node.outputs op.vout in
      elim (Option-cases (get_elem? node.outputs op.vout)) [
        | inl beyond ↦ cc (at, law, ap data_of beyond)
        | inr (o, there) ↦ (node, o, found, there, cc (at, law, ap data_of there))
      ]
]

-- An output of a node of the graph is in the snapshot.
pub funding_outputs-data_at :
    (m : Map Txid TxNode) (op : OutPoint) (node : TxNode) (o : TxOutput)
    → get m op.txid ≡ some node
    → get_elem? node.outputs op.vout ≡ some o
    → data_at (get (funding_outputs m) op.txid) op.vout ≡ some (o.value, o.script_type)
unfolding data_at
funding_outputs-data_at m op node o found there =
    rw (get-funding_outputs m op.txid, found)
      (get_elem?-output_data node.outputs op.vout ∙ ap data_of there)
