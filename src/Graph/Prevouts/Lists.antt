-- ===== src/Graph/Prevouts/Lists.antt =====
-- The list functions of enrich_tx_node (crates/cory-core/src/graph.rs): they write true data to the
-- input that spends the output, and change no prevout.
use cory.Base.{
  ℕ, zero, suc, ◌≡◌, refl, ap, Option, none, some, true, false, Bool, List, [], ◌∷◌, All,
  All-append, get_elem?,
}
use cory.Base.{From, From-head, From-tail}
use cory.Types.{TxInput, TxOutput, OutPoint, is_none}
use cory.Graph.Chain.{Chain, funding_output, InputFaithful, prevouts}
use cory.Graph.Prevouts.{Unresolved, with_info, set_info, unresolved_input, still_unresolved}

module _ (chain : Chain) where
  -- Each listed index is that of an input with the listed prevout.
  abbrev pub Points : List (Option OutPoint) → Unresolved → Type 0
  Points ps = All (λ u. get_elem? ps u.0 ≡ some (some u.1))

  pub with_info-Faithful :
      (input : TxInput) (op : OutPoint) (info : TxOutput)
      → input.prevout ≡ some op
      → funding_output chain op ≡ some info
      → InputFaithful chain (with_info input info)
  with_info-Faithful input op info is_op funded = record {
    value = λ v e. (op, info, is_op, funded, cc e);
    script_type = λ k e. (op, info, is_op, funded, cc e);
  }

  pub set_info-Faithful :
      (inputs : List TxInput) (idx : ℕ) (op : OutPoint) (info : TxOutput)
      → get_elem? (prevouts inputs) idx ≡ some (some op)
      → funding_output chain op ≡ some info
      → All (InputFaithful chain) inputs
      → All (InputFaithful chain) (set_info inputs idx info)
  unfolding set_info
  set_info-Faithful [] idx op info at funded h = h
  set_info-Faithful (input ∷ inputs) zero op info at funded h =
      (with_info-Faithful input op info (cc at) funded, h.1)
  set_info-Faithful (input ∷ inputs) (suc idx) op info at funded h =
      (h.0, set_info-Faithful inputs idx op info at funded h.1)

pub prevouts-set_info :
    (inputs : List TxInput) (idx : ℕ) (info : TxOutput)
    → prevouts (set_info inputs idx info) ≡ prevouts inputs
unfolding set_info
prevouts-set_info [] idx info = refl
prevouts-set_info (input ∷ inputs) zero info = refl
prevouts-set_info (input ∷ inputs) (suc idx) info =
    ap (λ ps. input.prevout ∷ ps) (prevouts-set_info inputs idx info)

module _ (chain : Chain) (ps : List (Option OutPoint)) where
  unresolved_input-Points :
      (idx : ℕ) (q : Option OutPoint) (missing : Bool)
      → get_elem? ps idx ≡ some q
      → Points chain ps (unresolved_input idx q missing)
  unfolding unresolved_input
  unresolved_input-Points idx (some op) true h = (h, tt)
  unresolved_input-Points idx (some op) false h = tt
  unresolved_input-Points idx none missing h = tt

  pub still_unresolved-Points :
      (idx : ℕ) (inputs : List TxInput)
      → From ps idx (prevouts inputs)
      → Points chain ps (still_unresolved idx inputs)
  unfolding still_unresolved
  still_unresolved-Points idx [] h = tt
  still_unresolved-Points idx (input ∷ inputs) h =
      All-append (λ (u : ℕ × OutPoint). get_elem? ps u.0 ≡ some (some u.1))
        (unresolved_input idx input.prevout (is_none input.value))
        (still_unresolved (suc idx) inputs)
        (unresolved_input-Points idx input.prevout (is_none input.value)
          (From-head ps idx input.prevout (prevouts inputs) h))
        (still_unresolved-Points (suc idx) inputs
          (From-tail ps idx input.prevout (prevouts inputs) h))
