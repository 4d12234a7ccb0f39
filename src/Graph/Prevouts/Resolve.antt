-- ===== src/Graph/Prevouts/Resolve.antt =====
-- Phase 1 of enrich_tx_node (crates/cory-core/src/graph.rs) writes true data only.
use cory.Base.{
  ℕ, suc, ◌≡◌, refl, ap, ap₂, sym, ◌∙◌, subst, Option, none, some, List, [], ◌∷◌, ◌++◌, All,
  All-append, arith, get_elem?,
}
use cory.Exec.{Ensures, Ensures-then, Ensures-return}
use cory.Types.{Amount, ScriptType, TxInput, TxOutput, TxNode, OutPoint}
use cory.Graph.World.{Services, World}
use cory.Graph.Chain.{
  Chain, funding_output, at_vout, InputFaithful, FaithfulAt, CacheFaithful, prevouts,
}
use cory.Graph.Chain.Actions.{cached_tx-Faithful, cached_prevout-Faithful, cache_prevout-Faithful}
use cory.Graph.Prevouts.{
  Unresolved, both, fill, output_at, from_funding_output, from_cached_prevout, from_response,
  resolve_prevout_without_rpc, initial_input, build_inputs_initial,
}
use cory.Graph.Prevouts.Lists.{Points}
use cory.Base.{From, From-head, From-tail}

-- An output of a true node is the output of the chain.
pub output_at-funding :
    (chain : Chain) (op : OutPoint) (tx : Option TxNode) (o : TxOutput)
    → ((node : TxNode) → tx ≡ some node → FaithfulAt chain op.txid node)
    → output_at tx op ≡ some o
    → funding_output chain op ≡ some o
unfolding output_at
output_at-funding chain op none o h e = cc e
output_at-funding chain op (some node) o h e =
    let (is_txid, f) = h node refl in
    let known : chain op.txid ≡ some f.original = ap chain (sym is_txid) ∙ f.known in
    subst (λ tx. at_vout tx op.vout ≡ some o) (sym known)
      (subst (λ os. get_elem? os op.vout ≡ some o) f.outputs e)

-- What is found for a prevout is the data of its output.
abbrev pub DataOf : Chain → OutPoint → Option (Amount × ScriptType) → Type 0
DataOf chain op found =
    (v : Amount) (k : ScriptType)
    → found ≡ some (v, k)
    → (o : TxOutput) × (funding_output chain op ≡ some o) × (o.value ≡ v) × (o.script_type ≡ k)

both-eq-some :
    (a : Option Amount) (b : Option ScriptType) (v : Amount) (k : ScriptType)
    → both a b ≡ some (v, k)
    → (a ≡ some v) × (b ≡ some k)
unfolding both
both-eq-some (some a) (some b) v k e = (ground arith, ground arith)
both-eq-some (some a) none v k e = cc e
both-eq-some none b v k e = cc e

both-DataOf :
    (chain : Chain) (op : OutPoint) (input : TxInput)
    → input.prevout ≡ some op
    → InputFaithful chain input
    → DataOf chain op (both input.value input.script_type)
both-DataOf chain op input is_op h v k e =
    let (has_value, has_type) = both-eq-some input.value input.script_type v k e in
    let (op', o, prevout, funded, is_value) = h.value v has_value in
    let (op'', o', prevout', funded', is_type) = h.script_type k has_type in
    let same : op' ≡ op = cc (is_op, prevout) in
    let same' : op'' ≡ op = cc (is_op, prevout') in
    let funded_op : funding_output chain op ≡ some o =
      subst (λ x. funding_output chain x ≡ some o) same funded in
    let funded_op' : funding_output chain op ≡ some o' =
      subst (λ x. funding_output chain x ≡ some o') same' funded' in
    let same_output : o' ≡ o = cc (funded_op, funded_op') in
    (o, funded_op, is_value, subst (λ x. x.script_type ≡ k) same_output is_type)

module _ {T P R : Type 0} (chain : Chain) (sv : Services T P R) where
  abbrev Inv : World T P R → Type 0
  Inv = CacheFaithful chain sv

  from_funding_output-DataOf :
      (op : OutPoint) (output : Option TxOutput)
      → ((o : TxOutput) → output ≡ some o → funding_output chain op ≡ some o)
      → Ensures Inv (from_funding_output sv op output) (DataOf chain op)
  unfolding from_funding_output
  from_funding_output-DataOf op none h = Ensures-return none (λ v k e. cc e)
  from_funding_output-DataOf op (some o) h =
      Ensures-then (cache_prevout-Faithful chain sv op o (h o refl)) (λ _ _.
        Ensures-return (some (o.value, o.script_type))
          (λ v k e. (o, h o refl, ground arith, ground arith)))

  from_cached_prevout-DataOf :
      (op : OutPoint) (info : Option TxOutput)
      → ((o : TxOutput) → info ≡ some o → funding_output chain op ≡ some o)
      → Ensures Inv (from_cached_prevout sv op info) (DataOf chain op)
  unfolding from_cached_prevout
  from_cached_prevout-DataOf op (some o) h =
      Ensures-return (some (o.value, o.script_type))
        (λ v k e. (o, h o refl, ground arith, ground arith))
  from_cached_prevout-DataOf op none h =
      Ensures-then (cached_tx-Faithful chain sv op.txid) (λ tx known.
        from_funding_output-DataOf op (output_at tx op)
          (λ o e. output_at-funding chain op tx o known e))

  from_response-DataOf :
      (op : OutPoint) (known : Option (Amount × ScriptType))
      → DataOf chain op known
      → Ensures Inv (from_response sv op known) (DataOf chain op)
  unfolding from_response
  from_response-DataOf op (some data') h = Ensures-return (some data') h
  from_response-DataOf op none h =
      Ensures-then (cached_prevout-Faithful chain sv op)
        (λ info known. from_cached_prevout-DataOf op info known)

  resolve_prevout_without_rpc-DataOf :
      (input : TxInput) (op : OutPoint)
      → input.prevout ≡ some op
      → InputFaithful chain input
      → Ensures Inv (resolve_prevout_without_rpc sv input op) (DataOf chain op)
  unfolding resolve_prevout_without_rpc
  resolve_prevout_without_rpc-DataOf input op is_op h =
      from_response-DataOf op (both input.value input.script_type)
        (both-DataOf chain op input is_op h)

  -- The inputs at hand have the prevouts `qs`, and what they say is true.
  abbrev pub Good : List (Option OutPoint) → List TxInput → Type 0
  Good qs inputs = (prevouts inputs ≡ qs) × All (InputFaithful chain) inputs

  fill-Faithful :
      (idx : ℕ) (input : TxInput) (op : OutPoint) (found : Option (Amount × ScriptType))
      → input.prevout ≡ some op
      → DataOf chain op found
      → ((fill idx input op found).0.prevout ≡ input.prevout)
        × InputFaithful chain (fill idx input op found).0
  unfolding fill
  fill-Faithful idx input op none is_op h =
      (refl, record { value = λ v e. cc e; script_type = λ k e. cc e })
  fill-Faithful idx input op (some (v, k)) is_op h =
      let (o, funded, is_value, is_type) = h v k refl in
      (
        refl,
        record {
          value = λ v' e. (op, o, is_op, funded, is_value ∙ cc e);
          script_type = λ k' e. (op, o, is_op, funded, is_type ∙ cc e);
        },
      )

  module _ (ps : List (Option OutPoint)) where
    fill-Points :
        (idx : ℕ) (input : TxInput) (op : OutPoint) (found : Option (Amount × ScriptType))
        → get_elem? ps idx ≡ some (some op)
        → Points chain ps (fill idx input op found).1
    unfolding fill
    fill-Points idx input op none at = (at, tt)
    fill-Points idx input op (some (v, k)) at = tt

    abbrev First : TxInput → TxInput × Unresolved → Type 0
    First input r = (r.0.prevout ≡ input.prevout) × InputFaithful chain r.0 × Points chain ps r.1

    initial_input-Faithful :
        (idx : ℕ) (input : TxInput) (q : Option OutPoint)
        → input.prevout ≡ q
        → get_elem? ps idx ≡ some q
        → InputFaithful chain input
        → Ensures Inv (initial_input sv idx input q) (First input)
    unfolding initial_input
    initial_input-Faithful idx input none is_q at h = Ensures-return (input, []) (refl, h, tt)
    initial_input-Faithful idx input (some op) is_op at h =
        Ensures-then (resolve_prevout_without_rpc-DataOf input op is_op h) (λ found d.
          let (same, true_data) = fill-Faithful idx input op found is_op d in
          Ensures-return (fill idx input op found)
            (same, true_data, fill-Points idx input op found at))

    abbrev pub Initial : List TxInput → List TxInput × Unresolved → Type 0
    Initial inputs r = Good (prevouts inputs) r.0 × Points chain ps r.1

    pub build_inputs_initial-Faithful :
        (idx : ℕ) (inputs : List TxInput)
        → From ps idx (prevouts inputs)
        → All (InputFaithful chain) inputs
        → Ensures Inv (build_inputs_initial sv idx inputs) (Initial inputs)
    unfolding build_inputs_initial
    build_inputs_initial-Faithful idx [] at h = Ensures-return ([], []) ((refl, tt), tt)
    build_inputs_initial-Faithful idx (input ∷ inputs) at h =
        Ensures-then
          (initial_input-Faithful idx input input.prevout refl
            (From-head ps idx input.prevout (prevouts inputs) at) h.0)
          (λ first f.
            Ensures-then
              (build_inputs_initial-Faithful (suc idx) inputs
                (From-tail ps idx input.prevout (prevouts inputs) at) h.1)
              (λ others o.
                Ensures-return (first.0 ∷ others.0, first.1 ++ others.1)
                  (
                    (ap₂ (λ q qs. q ∷ qs) f.0 o.0.0, (f.1, o.0.1)),
                    All-append (λ (u : ℕ × OutPoint). get_elem? ps u.0 ≡ some (some u.1)) first.1
                        others.1 f.2 o.1,
                  )))
