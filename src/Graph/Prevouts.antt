-- ===== src/Graph/Prevouts.antt =====
-- crates/cory-core/src/graph.rs, enrich_tx_node and the functions below it: the value and the script
-- type of what each input spends.
pub mod Lists
pub mod Resolve
pub mod Truth
pub mod Ends
use cory.Base.{
  ℕ, zero, suc, ◌≡◌, Bool, true, false, ◌&&◌, Option, none, some, List, [], ◌∷◌, ◌++◌, get_elem?,
  contains, if◌then◌else◌, nat_eq,
}
use cory.Base.Map.{Map, get, insert}
use cory.Error.{Result, ok, err}
use cory.Exec.{Exec, pure, ◌>>=◌, ◌>>◌}
use cory.Types.{Txid, Amount, ScriptType, TxInput, TxOutput, TxNode, OutPoint, is_none, is_some}
use cory.Graph.World.{
  Services, World, cached_tx, cached_prevout, cache_prevout, rpc_transactions, rpc_tx_outs,
}

-- (usize, bitcoin::OutPoint)
abbrev pub Unresolved : Type 0
Unresolved = List (ℕ × OutPoint)

pub both : Option Amount → Option ScriptType → Option (Amount × ScriptType)
both (some value) (some script_type) = some (value, script_type)
both _ _ = none

abbrev pub with_info : TxInput → TxOutput → TxInput
with_info input info = record input { value = some info.value; script_type = some info.script_type }

-- `if let Some(input) = inputs.get_mut(idx)`: the input takes the data of the output.
pub set_info : List TxInput → ℕ → TxOutput → List TxInput
set_info [] idx info = []
set_info (input ∷ inputs) zero info = with_info input info ∷ inputs
set_info (input ∷ inputs) (suc idx) info = input ∷ set_info inputs idx info

-- What phase 1 writes to an input that spends `op`, and whether it goes on the list.
pub fill : ℕ → TxInput → OutPoint → Option (Amount × ScriptType) → TxInput × Unresolved
fill idx input op (some (value, script_type)) =
    (record input { value = some value; script_type = some script_type }, [])
fill idx input op none = (record input { value = none; script_type = none }, (idx, op) ∷ [])

pub unresolved_input : ℕ → Option OutPoint → Bool → Unresolved
unresolved_input idx (some op) true = (idx, op) ∷ []
unresolved_input idx _ _ = []

-- The inputs with a prevout and no value, from `idx` on: the index, and the prevout, which the loop
-- over the indices reads there again.
pub still_unresolved : ℕ → List TxInput → Unresolved
still_unresolved idx [] = []
still_unresolved idx (input ∷ inputs) =
    unresolved_input idx input.prevout (is_none input.value) ++ still_unresolved (suc idx) inputs

pub outpoints : Unresolved → List OutPoint
outpoints [] = []
outpoints ((idx, op) ∷ list) = op ∷ outpoints list

-- `parent_txs.into_iter().map(|tx| (tx.txid, tx)).collect()`
pub by_txid : List TxNode → Map Txid TxNode → Map Txid TxNode
by_txid [] m = m
by_txid (tx ∷ txs) m = by_txid txs (insert tx.txid tx m)

-- The output that an outpoint names, in the transaction that should have it.
pub output_at : Option TxNode → OutPoint → Option TxOutput
output_at none op = none
output_at (some tx) op = get_elem? tx.outputs op.vout

-- One round of the loop that collects `indices_needing_parent` and `needed_parent_txids`.
pub need_parent : ℕ → OutPoint → Option TxOutput → Unresolved × List Txid → Unresolved × List Txid
need_parent idx op (some info) needed = needed
need_parent idx op none (indices, parents) = (
  indices ++ (idx, op) ∷ [],
  if contains parents op.txid then parents else parents ++ op.txid ∷ [],
)

module _ {T P R : Type 0} (sv : Services T P R) where
  abbrev Action : Type 0 → Type 0
  Action = Exec (World T P R)

  -- The output is cached for later lookups before it is used.
  pub from_funding_output : OutPoint → Option TxOutput → Action (Option (Amount × ScriptType))
  from_funding_output op none = pure none
  from_funding_output op (some output) = do
    cache_prevout sv op output
    pure (some (output.value, output.script_type))

  pub from_cached_prevout : OutPoint → Option TxOutput → Action (Option (Amount × ScriptType))
  from_cached_prevout op (some info) = pure (some (info.value, info.script_type))
  from_cached_prevout op none = do
    funding_tx ← cached_tx sv op.txid
    from_funding_output op (output_at funding_tx op)

  pub from_response :
      OutPoint → Option (Amount × ScriptType) → Action (Option (Amount × ScriptType))
  from_response op (some known) = pure (some known)
  from_response op none = do info ← cached_prevout sv op; from_cached_prevout op info

  pub resolve_prevout_without_rpc : TxInput → OutPoint → Action (Option (Amount × ScriptType))
  resolve_prevout_without_rpc input op = from_response op (both input.value input.script_type)

  pub initial_input : ℕ → TxInput → Option OutPoint → Action (TxInput × Unresolved)
  initial_input idx input none = pure (input, [])
  initial_input idx input (some op) = do
    found ← resolve_prevout_without_rpc input op
    pure (fill idx input op found)

  -- The stream over `inputs.iter_mut().enumerate()`, from `idx` on.
  pub build_inputs_initial : ℕ → List TxInput → Action (List TxInput × Unresolved)
  build_inputs_initial idx [] = pure ([], [])
  build_inputs_initial idx (input ∷ inputs) = do
    first ← initial_input idx input input.prevout
    others ← build_inputs_initial (suc idx) inputs
    pure (first.0 ∷ others.0, first.1 ++ others.1)

  pub apply_tx_out : ℕ → OutPoint → Option TxOutput → List TxInput → Action (List TxInput)
  apply_tx_out idx op none inputs = pure inputs
  apply_tx_out idx op (some info) inputs = do
    cache_prevout sv op info
    pure (set_info inputs idx info)

  -- The loop over `unresolved` zipped with the answers of gettxout.
  pub apply_tx_outs : Unresolved → List (Option TxOutput) → List TxInput → Action (List TxInput)
  apply_tx_outs [] resolved inputs = pure inputs
  apply_tx_outs (u ∷ unresolved) [] inputs = pure inputs
  apply_tx_outs ((idx, op) ∷ unresolved) (info ∷ resolved) inputs = do
    inputs' ← apply_tx_out idx op info inputs
    apply_tx_outs unresolved resolved inputs'

  -- An error of the batch is logged, and the inputs stay unresolved.
  pub after_tx_outs :
      Unresolved → List TxInput → Result (List (Option TxOutput)) → Action (List TxInput)
  after_tx_outs unresolved inputs (ok resolved) = apply_tx_outs unresolved resolved inputs
  after_tx_outs unresolved inputs (err e) = pure inputs

  pub collect_parents : Unresolved → Unresolved × List Txid → Action (Unresolved × List Txid)
  collect_parents [] needed = pure needed
  collect_parents ((idx, op) ∷ list) needed = do
    info ← cached_prevout sv op
    collect_parents list (need_parent idx op info needed)

  pub fill_from_parents : Map Txid TxNode → Unresolved → List TxInput → Action (List TxInput)
  fill_from_parents parents [] inputs = pure inputs
  fill_from_parents parents ((idx, op) ∷ list) inputs = do
    inputs' ← apply_tx_out idx op (output_at (get parents op.txid) op) inputs
    fill_from_parents parents list inputs'

  pub after_parents : Unresolved → List TxInput → Result (List TxNode) → Action (List TxInput)
  after_parents indices inputs (ok parent_txs) =
      fill_from_parents (by_txid parent_txs []) indices inputs
  after_parents indices inputs (err e) = pure inputs

  pub fetch_parents : Unresolved → List TxInput → List Txid → Action (List TxInput)
  fetch_parents indices inputs [] = pure inputs
  fetch_parents indices inputs (t ∷ parents) = do
    answer ← rpc_transactions sv (t ∷ parents)
    after_parents indices inputs answer

  pub resolve_unresolved_prevouts : List TxInput → Unresolved → Action (List TxInput)
  resolve_unresolved_prevouts inputs unresolved = do
    answer ← rpc_tx_outs sv (outpoints unresolved)
    inputs' ← after_tx_outs unresolved inputs answer
    needed ← collect_parents (still_unresolved 0 inputs') ([], [])
    fetch_parents needed.0 inputs' needed.1

  pub resolve_if_any : List TxInput → Unresolved → Action (List TxInput)
  resolve_if_any inputs [] = pure inputs
  resolve_if_any inputs (u ∷ unresolved) = resolve_unresolved_prevouts inputs (u ∷ unresolved)

  unfoldable pub enrich_tx_node : TxNode → Action TxNode
  unfolding both set_info fill unresolved_input still_unresolved outpoints by_txid output_at
      from_funding_output from_cached_prevout from_response resolve_prevout_without_rpc
      initial_input build_inputs_initial apply_tx_out apply_tx_outs after_tx_outs need_parent
      collect_parents fill_from_parents after_parents fetch_parents resolve_unresolved_prevouts
      resolve_if_any cached_tx cached_prevout cache_prevout rpc_transactions rpc_tx_outs
  enrich_tx_node tx = do
    first ← build_inputs_initial 0 tx.inputs
    inputs ← resolve_if_any first.0 first.1
    pure (record tx { inputs = inputs })
