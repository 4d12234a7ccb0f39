-- ===== src/Graph/Mock/Honest.antt =====
-- The mock node on a fixed list of transactions is honest, and empty caches are true.
use cory.Base.{
  ℕ, ◌≡◌, refl, sym, subst, Option, none, some, List, [], ◌∷◌, All, nat_eq, ◌==◌, ==_iff,
  Bool-cases, inl, inr,
}
use cory.Base.Map.{Map, get}
use cory.Error.{ok, err, io}
use cory.Types.{Txid, TxInput, TxOutput, TxNode, OutPoint}
use cory.Rpc.{BitcoinRpc, call_each-Each, get_transactions_default, get_tx_outs_default}
use cory.Graph.World.{Services, World}
use cory.Graph.Chain.{Chain, InputFaithful, FaithfulAt, AnswersOut, IsHonest, CacheFaithful}
use cory.Graph.Mock.{unbounded, known_tx, pair_eq, chain}

-- The node has no state: it answers from the list.
abbrev pub fixed_rpc : BitcoinRpc (Unit {0})
fixed_rpc = record {
  get_transaction = λ txid r. (known_tx txid (get chain txid), r);
  get_transactions = get_transactions_default (λ txid r. (known_tx txid (get chain txid), r));
  get_tx_out = λ txid vout r. (ok none, r);
  get_tx_outs = get_tx_outs_default (λ txid vout r. (ok none, r));
  get_blockchain_info = λ r. (err (io []), r);
}

abbrev pub fixed_services : Services (Map Txid TxNode) (Map (Txid × ℕ) TxOutput) (Unit {0})
fixed_services = record { txs = unbounded; outs = unbounded; rpc = fixed_rpc }

abbrev pub fixed_world : World (Map Txid TxNode) (Map (Txid × ℕ) TxOutput) (Unit {0})
fixed_world = record { cache = record { transactions = []; prevouts = [] }; node = tt }

abbrev pub fixed_chain : Chain
fixed_chain = get chain

-- A transaction that stands under its txid, with inputs that say nothing yet.
abbrev pub IsRaw : Txid × TxNode → Type 0
IsRaw (t, node) = (node.txid ≡ t) × All (λ i. (i.value ≡ none) × (i.script_type ≡ none)) node.inputs

raw-InputFaithful :
    (c : Chain) (inputs : List TxInput)
    → All (λ i. (i.value ≡ none) × (i.script_type ≡ none)) inputs
    → All (InputFaithful c) inputs
raw-InputFaithful c [] h = tt
raw-InputFaithful c (i ∷ inputs) h = (
  record { value = λ v e. cc (e, h.0.0); script_type = λ k e. cc (e, h.0.1) },
  raw-InputFaithful c inputs h.1,
)

get-IsRaw :
    (m : Map Txid TxNode) (t : Txid) (node : TxNode)
    → All IsRaw m
    → get m t ≡ some node
    → IsRaw (t, node)
get-IsRaw [] t node h e = cc e
get-IsRaw ((u, n) ∷ m) t node h e = elim (Bool-cases (u == t)) [
  | inl here ↦
      let same : u ≡ t = (==_iff u t).0 here in
      let is_node : n ≡ node = cc (rw here at e) in
      subst (λ x. IsRaw (t, x)) is_node (subst (λ x. IsRaw (x, n)) same h.0)
  | inr there ↦ get-IsRaw m t node h.1 (rw there at e)
]

-- The answers of a node that has such transactions only.
pub raw-FaithfulAt :
    (m : Map Txid TxNode) (t : Txid) (node : TxNode)
    → All IsRaw m
    → get m t ≡ some node
    → FaithfulAt (get m) t node
raw-FaithfulAt m t node all e =
    let (same, raw) = get-IsRaw m t node all e in
    (
      same,
      record {
        original = node;
        known = subst (λ x. get m x ≡ some node) (sym same) e;
        outputs = refl;
        spends = refl;
        inputs = raw-InputFaithful (get m) node.inputs raw;
      },
    )

chain-IsRaw : All IsRaw chain
chain-IsRaw =
    ((refl, ((refl, refl), tt)), ((refl, ((refl, refl), tt)), ((refl, ((refl, refl), tt)), tt)))

known_tx-some :
    (t : Txid) (o : Option TxNode) (node : TxNode) → known_tx t o ≡ ok node → o ≡ some node
known_tx-some t none node e = cc e
known_tx-some t (some n) node e = cc e

pub fixed_rpc-IsHonest : IsHonest fixed_chain fixed_rpc
unfolding get_transactions_default get_tx_outs_default
fixed_rpc-IsHonest = record {
  transactions = λ txids r nodes e.
      call_each-Each fixed_rpc.get_transaction (FaithfulAt fixed_chain)
        (λ t s node is.
          raw-FaithfulAt chain t node chain-IsRaw (known_tx-some t (fixed_chain t) node is))
        txids r nodes e;
  tx_outs = λ ops r answers e.
      call_each-Each (λ (op : OutPoint). fixed_rpc.get_tx_out op.txid op.vout)
        (AnswersOut fixed_chain) (λ op s answer is o found. cc (is, found)) ops r answers e;
}

pub fixed_world-CacheFaithful : CacheFaithful fixed_chain fixed_services fixed_world
fixed_world-CacheFaithful = record { txs = λ t node e. cc e; outs = λ t n o e. cc e }
