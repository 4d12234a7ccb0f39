-- ===== src/Graph/Prevouts/Ends.antt =====
-- enrich_tx_node (crates/cory-core/src/graph.rs) ends whatever the node and the caches do.
use cory.Base.{nat_eq, ℕ, suc, Option, none, some, List, [], ◌∷◌, ◌++◌}
use cory.Base.Map.{Map, get}
use cory.Exec.{Ends, Ends-pure, Ends-then}
use cory.Error.{Result, ok, err}
use cory.Types.{Txid, TxInput, TxOutput, TxNode, OutPoint, Amount, ScriptType}
use cory.Graph.World.{
  Services, cached_tx, cache_tx, cached_prevout, cache_prevout, rpc_transactions, rpc_tx_outs,
}
use cory.Graph.Prevouts.{
  Unresolved, output_at, outpoints, still_unresolved, need_parent, by_txid, both,
  from_funding_output, from_cached_prevout, from_response, resolve_prevout_without_rpc,
  initial_input, build_inputs_initial, apply_tx_out, apply_tx_outs, after_tx_outs, collect_parents,
  fill_from_parents, after_parents, fetch_parents, resolve_unresolved_prevouts, resolve_if_any,
  enrich_tx_node, fill, set_info,
}

module _ {T P R : Type 0} (sv : Services T P R) where
  pub cached_tx-Ends : (t : Txid) → Ends (cached_tx sv t)
  unfolding cached_tx
  cached_tx-Ends t = record { ends = λ w. tt }

  pub cache_tx-Ends : (t : Txid) (n : TxNode) → Ends (cache_tx sv t n)
  unfolding cache_tx
  cache_tx-Ends t n = record { ends = λ w. tt }

  cached_prevout-Ends : (op : OutPoint) → Ends (cached_prevout sv op)
  unfolding cached_prevout
  cached_prevout-Ends op = record { ends = λ w. tt }

  cache_prevout-Ends : (op : OutPoint) (o : TxOutput) → Ends (cache_prevout sv op o)
  unfolding cache_prevout
  cache_prevout-Ends op o = record { ends = λ w. tt }

  pub rpc_transactions-Ends : (ts : List Txid) → Ends (rpc_transactions sv ts)
  unfolding rpc_transactions
  rpc_transactions-Ends ts = record { ends = λ w. tt }

  rpc_tx_outs-Ends : (ops : List OutPoint) → Ends (rpc_tx_outs sv ops)
  unfolding rpc_tx_outs
  rpc_tx_outs-Ends ops = record { ends = λ w. tt }

  from_funding_output-Ends :
      (op : OutPoint) (o : Option TxOutput) → Ends (from_funding_output sv op o)
  unfolding from_funding_output
  from_funding_output-Ends op none = Ends-pure none
  from_funding_output-Ends op (some o) =
      Ends-then (cache_prevout-Ends op o) (λ _. Ends-pure (some (o.value, o.script_type)))

  from_cached_prevout-Ends :
      (op : OutPoint) (o : Option TxOutput) → Ends (from_cached_prevout sv op o)
  unfolding from_cached_prevout
  from_cached_prevout-Ends op none =
      Ends-then (cached_tx-Ends op.txid) (λ tx. from_funding_output-Ends op (output_at tx op))
  from_cached_prevout-Ends op (some o) = Ends-pure (some (o.value, o.script_type))

  from_response-Ends :
      (op : OutPoint) (known : Option (Amount × ScriptType)) → Ends (from_response sv op known)
  unfolding from_response
  from_response-Ends op none =
      Ends-then (cached_prevout-Ends op) (λ info. from_cached_prevout-Ends op info)
  from_response-Ends op (some k) = Ends-pure (some k)

  initial_input-Ends :
      (idx : ℕ) (input : TxInput) (op : Option OutPoint) → Ends (initial_input sv idx input op)
  unfolding initial_input resolve_prevout_without_rpc
  initial_input-Ends idx input none = Ends-pure (input, [])
  initial_input-Ends idx input (some op) =
      Ends-then (from_response-Ends op (both input.value input.script_type))
        (λ found. Ends-pure (fill idx input op found))

  build_inputs_initial-Ends :
      (idx : ℕ) (inputs : List TxInput) → Ends (build_inputs_initial sv idx inputs)
  unfolding build_inputs_initial
  build_inputs_initial-Ends idx [] = Ends-pure ([], [])
  build_inputs_initial-Ends idx (input ∷ inputs) =
      Ends-then (initial_input-Ends idx input input.prevout) (λ first.
        Ends-then (build_inputs_initial-Ends (suc idx) inputs)
          (λ others. Ends-pure (first.0 ∷ others.0, first.1 ++ others.1)))

  apply_tx_out-Ends :
      (idx : ℕ) (op : OutPoint) (o : Option TxOutput) (inputs : List TxInput)
      → Ends (apply_tx_out sv idx op o inputs)
  unfolding apply_tx_out
  apply_tx_out-Ends idx op none inputs = Ends-pure inputs
  apply_tx_out-Ends idx op (some o) inputs =
      Ends-then (cache_prevout-Ends op o) (λ _. Ends-pure (set_info inputs idx o))

  apply_tx_outs-Ends :
      (us : Unresolved) (os : List (Option TxOutput)) (inputs : List TxInput)
      → Ends (apply_tx_outs sv us os inputs)
  unfolding apply_tx_outs
  apply_tx_outs-Ends [] os inputs = Ends-pure inputs
  apply_tx_outs-Ends (u ∷ us) [] inputs = Ends-pure inputs
  apply_tx_outs-Ends ((idx, op) ∷ us) (o ∷ os) inputs =
      Ends-then (apply_tx_out-Ends idx op o inputs) (λ inputs'. apply_tx_outs-Ends us os inputs')

  after_tx_outs-Ends :
      (us : Unresolved) (inputs : List TxInput) (r : Result (List (Option TxOutput)))
      → Ends (after_tx_outs sv us inputs r)
  unfolding after_tx_outs
  after_tx_outs-Ends us inputs (ok os) = apply_tx_outs-Ends us os inputs
  after_tx_outs-Ends us inputs (err e) = Ends-pure inputs

  collect_parents-Ends :
      (us : Unresolved) (needed : Unresolved × List Txid) → Ends (collect_parents sv us needed)
  unfolding collect_parents
  collect_parents-Ends [] needed = Ends-pure needed
  collect_parents-Ends ((idx, op) ∷ us) needed =
      Ends-then (cached_prevout-Ends op)
        (λ info. collect_parents-Ends us (need_parent idx op info needed))

  fill_from_parents-Ends :
      (m : Map Txid TxNode) (us : Unresolved) (inputs : List TxInput)
      → Ends (fill_from_parents sv m us inputs)
  unfolding fill_from_parents
  fill_from_parents-Ends m [] inputs = Ends-pure inputs
  fill_from_parents-Ends m ((idx, op) ∷ us) inputs =
      Ends-then (apply_tx_out-Ends idx op (output_at (get m op.txid) op) inputs)
        (λ inputs'. fill_from_parents-Ends m us inputs')

  after_parents-Ends :
      (us : Unresolved) (inputs : List TxInput) (r : Result (List TxNode))
      → Ends (after_parents sv us inputs r)
  unfolding after_parents
  after_parents-Ends us inputs (ok txs) = fill_from_parents-Ends (by_txid txs []) us inputs
  after_parents-Ends us inputs (err e) = Ends-pure inputs

  fetch_parents-Ends :
      (us : Unresolved) (inputs : List TxInput) (ts : List Txid)
      → Ends (fetch_parents sv us inputs ts)
  unfolding fetch_parents
  fetch_parents-Ends us inputs [] = Ends-pure inputs
  fetch_parents-Ends us inputs (t ∷ ts) =
      Ends-then (rpc_transactions-Ends (t ∷ ts)) (λ answer. after_parents-Ends us inputs answer)

  resolve_if_any-Ends :
      (inputs : List TxInput) (us : Unresolved) → Ends (resolve_if_any sv inputs us)
  unfolding resolve_if_any resolve_unresolved_prevouts
  resolve_if_any-Ends inputs [] = Ends-pure inputs
  resolve_if_any-Ends inputs (u ∷ us) = Ends-then (rpc_tx_outs-Ends (outpoints (u ∷ us))) (λ answer.
      Ends-then (after_tx_outs-Ends (u ∷ us) inputs answer) (λ inputs'.
        Ends-then (collect_parents-Ends (still_unresolved 0 inputs') ([], []))
          (λ needed. fetch_parents-Ends needed.0 inputs' needed.1)))

  pub enrich_tx_node-Ends : (tx : TxNode) → Ends (enrich_tx_node sv tx)
  unfolding enrich_tx_node
  enrich_tx_node-Ends tx = Ends-then (build_inputs_initial-Ends 0 tx.inputs) (λ first.
      Ends-then (resolve_if_any-Ends first.0 first.1)
        (λ inputs. Ends-pure (record tx { inputs = inputs })))
