-- ===== src/Graph/Mock/Registered.antt =====
-- The node of crates/cory-core/src/rpc/mock.rs answers truthfully of the transactions that were
-- registered with its builder.
use cory.Base.{
  ◌≡◌, refl, ◌∙◌, sym, Option, none, some, List, [], ◌∷◌, All, nat_eq, ◌==◌, ==_iff, Bool-cases,
  inl, inr,
}
use cory.Base.Map.{Map, get, insert}
use cory.Error.{ok}
use cory.Types.{Txid, TxNode, TxOutput, OutPoint}
use cory.Rpc.{call_each-Each, get_transactions_default, get_tx_outs_default}
use cory.Rpc.Mock.{MockRpcBuilder, builder, with_tx, build, mock_rpc, tx_or_not_found, output_in}
use cory.Graph.Chain.{at_vout, FaithfulAt, AnswersOut, IsHonest}
use cory.Graph.Mock.Honest.{IsRaw, raw-FaithfulAt}

-- The builder with the transactions of a list, one after another.
abbrev pub with_txs : List TxNode → MockRpcBuilder → MockRpcBuilder
with_txs [] b = b
with_txs (tx ∷ txs) b = with_txs txs (with_tx tx b)

-- Its inputs say nothing yet of the outputs that they spend.
abbrev pub SaysNothing : TxNode → Type 0
SaysNothing node = All (λ i. (i.value ≡ none) × (i.script_type ≡ none)) node.inputs

insert-IsRaw :
    (node : TxNode) (m : Map Txid TxNode)
    → SaysNothing node
    → All IsRaw m
    → All IsRaw (insert node.txid node m)
insert-IsRaw node [] raw h = ((refl, raw), tt)
insert-IsRaw node ((u, n) ∷ m) raw h = elim (Bool-cases (u == node.txid)) [
  | inl same ↦ rw same ((sym ((==_iff u node.txid).0 same), raw), h.1)
  | inr differ ↦ rw differ (h.0, insert-IsRaw node m raw h.1)
]

with_txs-IsRaw :
    (txs : List TxNode) (b : MockRpcBuilder)
    → All SaysNothing txs
    → All IsRaw b.transactions
    → All IsRaw (with_txs txs b).transactions
with_txs-IsRaw [] b raw h = h
with_txs-IsRaw (tx ∷ txs) b raw h =
    with_txs-IsRaw txs (with_tx tx b) raw.1 (insert-IsRaw tx b.transactions raw.0 h)

tx_or_not_found-ok :
    (t : Txid) (o : Option TxNode) (node : TxNode) → tx_or_not_found t o ≡ ok node → o ≡ some node
tx_or_not_found-ok t none node e = cc e
tx_or_not_found-ok t (some n) node e = cc e

output_in-at_vout : (vout : _) (o : Option TxNode) → output_in vout o ≡ at_vout o vout
output_in-at_vout vout none = refl
output_in-at_vout vout (some tx) = refl

answered_with :
    (answer p : Option TxOutput) (o : TxOutput) → ok p ≡ ok answer → answer ≡ some o → p ≡ some o
answered_with answer p o is found = cc (is, found)

-- Whatever transactions are registered with the builder of the mock, in whatever order and however
-- often, as long as their inputs say nothing yet of what they spend: the mock answers as an honest
-- node of the chain of the transactions that it then has.
pub build-IsHonest :
    (txs : List TxNode)
    → All SaysNothing txs
    → IsHonest
        (get (build (with_txs txs builder)).transactions)
        (mock_rpc (build (with_txs txs builder)))
unfolding get_transactions_default get_tx_outs_default
build-IsHonest txs raw =
    let m = build (with_txs txs builder) in
    let all = with_txs-IsRaw txs builder raw tt in
    record {
      transactions = λ txids r nodes e.
          call_each-Each (mock_rpc m).get_transaction (FaithfulAt (get m.transactions))
            (λ t s node is.
              raw-FaithfulAt m.transactions t node all
                (tx_or_not_found-ok t (get m.transactions t) node is))
            txids r nodes e;
      tx_outs = λ ops r answers e.
          call_each-Each (λ (op : OutPoint). (mock_rpc m).get_tx_out op.txid op.vout)
            (AnswersOut (get m.transactions))
            (λ op s answer is o found.
              sym (output_in-at_vout op.vout (get m.transactions op.txid))
              ∙ answered_with answer (output_in op.vout (get m.transactions op.txid)) o is found)
            ops r answers e;
    }
