-- ===== src/Graph/Chain.antt =====
-- The specification of the prevout data: what the chain says of the transactions that
-- crates/cory-core/src/graph.rs reads from the cache and from the node.
pub mod Actions
use cory.Base.{ℕ, ◌≡◌, Option, none, some, List, [], ◌∷◌, All, Each, get_elem?}
use cory.Types.{Txid, Amount, ScriptType, TxInput, TxOutput, TxNode, OutPoint}
use cory.Error.{ok}
use cory.Rpc.{BitcoinRpc}
use cory.Graph.World.{Services, World}

-- The transactions that there are.
abbrev pub Chain : Type 0
Chain = Txid → Option TxNode

abbrev pub at_vout : Option TxNode → ℕ → Option TxOutput
at_vout none vout = none
at_vout (some tx) vout = get_elem? tx.outputs vout

-- The output that an outpoint names.
abbrev pub funding_output : Chain → OutPoint → Option TxOutput
funding_output chain op = at_vout (chain op.txid) op.vout

-- The output that a prevout names is there and has the property.
abbrev pub FundedBy : Chain → Option OutPoint → (TxOutput → Type 0) → Type 0
FundedBy chain prevout P =
    (op : OutPoint) × (o : TxOutput) × (prevout ≡ some op)
    × (funding_output chain op ≡ some o)
    × P o

-- What an input says of the output that it spends is true.
pub record InputFaithful (chain : Chain) (input : TxInput) : Type 0 where
  pub value : (v : Amount) → input.value ≡ some v → FundedBy chain input.prevout (λ o. o.value ≡ v)
  pub script_type :
      (k : ScriptType)
      → input.script_type ≡ some k
      → FundedBy chain input.prevout (λ o. o.script_type ≡ k)

abbrev pub prevouts : List TxInput → List (Option OutPoint)
prevouts [] = []
prevouts (input ∷ inputs) = input.prevout ∷ prevouts inputs

-- A node shows the transaction of its txid: its outputs, what it spends, and true input data.
pub record Faithful (chain : Chain) (node : TxNode) : Type 0 where
  pub original : TxNode
  pub known : chain node.txid ≡ some original
  pub outputs : node.outputs ≡ original.outputs
  pub spends : prevouts node.inputs ≡ prevouts original.inputs
  pub inputs : All (InputFaithful chain) node.inputs

abbrev pub FaithfulAt : Chain → Txid → TxNode → Type 0
FaithfulAt chain txid node = (node.txid ≡ txid) × Faithful chain node

-- What an answer of gettxout says of an outpoint.
abbrev pub AnswersOut : Chain → OutPoint → Option TxOutput → Type 0
AnswersOut chain op answer = (o : TxOutput) → answer ≡ some o → funding_output chain op ≡ some o

-- The node answers each request in its place, and truthfully.
pub record IsHonest {R : Type 0} (chain : Chain) (rpc : BitcoinRpc R) : Type 0 where
  pub transactions :
      (txids : List Txid) (r : R) (nodes : List TxNode)
      → (rpc.get_transactions txids r).0 ≡ ok nodes
      → Each (FaithfulAt chain) txids nodes
  pub tx_outs :
      (outpoints : List OutPoint) (r : R) (answers : List (Option TxOutput))
      → (rpc.get_tx_outs outpoints r).0 ≡ ok answers
      → Each (AnswersOut chain) outpoints answers

-- What the caches hold is true.
pub record CacheFaithful {T P R : Type 0} (chain : Chain) (sv : Services T P R) (w : World T P R)
    : Type 0 where
  pub txs :
      (txid : Txid) (node : TxNode)
      → (sv.txs.get txid w.cache.transactions).0 ≡ some node
      → FaithfulAt chain txid node
  pub outs :
      (txid : Txid) (vout : ℕ) (o : TxOutput)
      → (sv.outs.get (txid, vout) w.cache.prevouts).0 ≡ some o
      → at_vout (chain txid) vout ≡ some o
