-- ===== src/Graph/Backfill.antt =====
-- crates/cory-core/src/graph.rs, backfill_inputs_from_graph: inputs take the values that their
-- funding transactions in the graph have.
pub mod Keeps
pub mod Truth
use cory.Base.{Option, none, some, List, [], ◌∷◌, get_elem?, nat_eq, ℕ}
use cory.Base.Map.{Map, get}
use cory.Types.{Txid, Amount, ScriptType, TxInput, TxOutput, TxNode, OutPoint}

abbrev pub Outputs : Type 0
Outputs = List (Amount × ScriptType)

pub output_data : List TxOutput → Outputs
output_data [] = []
output_data (output ∷ outputs) = (output.value, output.script_type) ∷ output_data outputs

-- The snapshot `funding_outputs`.
pub funding_outputs : Map Txid TxNode → Map Txid Outputs
funding_outputs [] = []
funding_outputs ((txid, node) ∷ nodes) = (txid, output_data node.outputs) ∷ funding_outputs nodes

pub data_at : Option Outputs → ℕ → Option (Amount × ScriptType)
data_at none vout = none
data_at (some outputs) vout = get_elem? outputs vout

pub fill_input : TxInput → Option (Amount × ScriptType) → TxInput
fill_input input none = input
fill_input input (some (value, script_type)) = record input {
  value = some value;
  script_type = some script_type;
}

pub backfill_from : Map Txid Outputs → TxInput → Option Amount → Option OutPoint → TxInput
backfill_from outputs input (some value) prevout = input
backfill_from outputs input none none = input
backfill_from outputs input none (some op) =
    fill_input input (data_at (get outputs op.txid) op.vout)

pub backfill_inputs : Map Txid Outputs → List TxInput → List TxInput
backfill_inputs outputs [] = []
backfill_inputs outputs (input ∷ inputs) =
    backfill_from outputs input input.value input.prevout ∷ backfill_inputs outputs inputs

pub backfill_nodes : Map Txid Outputs → Map Txid TxNode → Map Txid TxNode
backfill_nodes outputs [] = []
backfill_nodes outputs ((txid, node) ∷ nodes) =
    (txid, record node { inputs = backfill_inputs outputs node.inputs })
    ∷ backfill_nodes outputs nodes

unfoldable pub backfill_inputs_from_graph : Map Txid TxNode → Map Txid TxNode
unfolding output_data funding_outputs data_at fill_input backfill_from backfill_inputs
    backfill_nodes
backfill_inputs_from_graph nodes = backfill_nodes (funding_outputs nodes) nodes
