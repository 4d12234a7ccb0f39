-- ===== src/Types.antt =====
-- crates/cory-core/src/types.rs: the transaction and graph types, with their methods.
-- A txid, a block hash, a script and an amount are types of the bitcoin crate: a hash is its value
-- as a number, a script the list of its bytes, an amount its number of satoshis.
use cory.Base.{
  ℕ, ◌+◌, ◌-◌, ◌%◌, ◌^◌, Bool, true, false, ◌&&◌, Option, none, some, List, [], ◌∷◌, nat_beq,
  length, get_elem?, zero, suc, arith, ◌≡◌,
}
use cory.Base.Map.{Map}

abbrev pub Txid : Type 0
Txid = ℕ

abbrev pub BlockHash : Type 0
BlockHash = ℕ

abbrev pub Amount : Type 0
Amount = ℕ

abbrev pub Script : Type 0
Script = List ℕ

pub data ScriptType : Type 0 where
  p2pk p2pkh p2sh p2wpkh p2wsh p2tr anchor bare_multisig op_return unknown : ScriptType

abbrev pub BlockHeight : Type 0
BlockHeight = ℕ

-- bitcoin::OutPoint
pub record OutPoint : Type 0 where
  pub txid : Txid
  pub vout : ℕ

pub record TxInput : Type 0 where
  pub prevout : Option OutPoint
  pub sequence : ℕ
  pub value : Option Amount
  pub script_type : Option ScriptType

pub record TxOutput : Type 0 where
  pub value : Amount
  pub script_pub_key : Script
  pub script_type : ScriptType

-- `version` is an i32 that no code of the repository computes with: its bit pattern.
pub record TxNode : Type 0 where
  pub txid : Txid
  pub version : ℕ
  pub locktime : ℕ
  pub size : ℕ
  pub vsize : ℕ
  pub weight : ℕ
  pub block_hash : Option BlockHash
  pub block_height : Option BlockHeight
  pub inputs : List TxInput
  pub outputs : List TxOutput

abbrev pub is_none {ℓ} : {A : Type ℓ} → Option A → Bool
is_none none = true
is_none (some a) = false

abbrev pub is_some {ℓ} : {A : Type ℓ} → Option A → Bool
is_some none = false
is_some (some a) = true

first_has_no_prevout : List TxInput → Bool
first_has_no_prevout [] = false
first_has_no_prevout (i ∷ is) = is_none i.prevout

-- TxNode::is_coinbase
unfoldable pub is_coinbase : TxNode → Bool
unfolding first_has_no_prevout
is_coinbase node = nat_beq (length node.inputs) 1 && first_has_no_prevout node.inputs

abbrev confirmations_at : BlockHeight → Option BlockHeight → Option ℕ
confirmations_at tip none = none
confirmations_at tip (some h) = some ((tip - h + 1) % 2 ^ 32)

-- TxNode::confirmations; `saturating_sub` is the subtraction that stops at 0, and the sum is a u32.
unfoldable pub confirmations : TxNode → BlockHeight → Option ℕ
confirmations node tip = confirmations_at tip node.block_height

pub record AncestryEdge : Type 0 where
  pub spending_txid : Txid
  pub input_index : ℕ
  pub funding_txid : Txid
  pub funding_vout : ℕ

pub record GraphStats : Type 0 where
  pub node_count : ℕ
  pub edge_count : ℕ
  pub max_depth_reached : ℕ

pub record AncestryGraph : Type 0 where
  pub nodes : Map Txid TxNode
  pub edges : List AncestryEdge
  pub root_txid : Txid
  pub truncated : Bool
  pub stats : GraphStats

pub record GraphLimits : Type 0 where
  pub max_depth : ℕ
  pub max_nodes : ℕ
  pub max_edges : ℕ

-- GraphLimits::default
abbrev pub default_limits : GraphLimits
default_limits = record { max_depth = 50; max_nodes = 500; max_edges = 2000 }

coinbase-prevout :
    (inputs : List TxInput) (idx : ℕ) (input : TxInput)
    → (nat_beq (length inputs) 1 && first_has_no_prevout inputs) ≡ true
    → get_elem? inputs idx ≡ some input
    → input.prevout ≡ none
unfolding first_has_no_prevout
coinbase-prevout [] idx input h at = cc
coinbase-prevout (i ∷ []) zero input h at = ground arith
coinbase-prevout (i ∷ []) (suc idx) input h at = cc
coinbase-prevout (i ∷ j ∷ is) idx input h at = ground arith

-- No input of a coinbase transaction spends an output.
pub is_coinbase-prevout :
    (node : TxNode) (idx : ℕ) (input : TxInput)
    → is_coinbase node ≡ true
    → get_elem? node.inputs idx ≡ some input
    → input.prevout ≡ none
unfolding is_coinbase
is_coinbase-prevout node idx input h at = coinbase-prevout node.inputs idx input h at
