-- ===== src/Rpc.antt =====
-- crates/cory-core/src/rpc/mod.rs: the trait through which the program talks to Bitcoin Core. The
-- implementor and the node behind it have the state `R`, which every call may change.
pub mod Json
pub mod Parsing
pub mod Protocol
pub mod Connection
pub mod Client
pub mod Mock
mod Tests
use cory.Base.{ℕ, Bool, List, [], ◌∷◌, Option, ◌≡◌, refl, subst, Each}
use cory.Base.Text.{Text}
use cory.Error.{Result, ok, err}
use cory.Types.{Txid, BlockHash, TxNode, TxOutput, OutPoint}

-- crates/cory-core/src/rpc/types.rs
pub record ChainInfo : Type 0 where
  pub chain : Text
  pub blocks : ℕ
  pub best_block_hash : BlockHash
  pub pruned : Bool

pub record BitcoinRpc (R : Type 0) : Type 0 where
  pub get_transaction : Txid → R → Result TxNode × R
  pub get_transactions : List Txid → R → Result (List TxNode) × R
  pub get_tx_out : Txid → ℕ → R → Result (Option TxOutput) × R
  pub get_tx_outs : List OutPoint → R → Result (List (Option TxOutput)) × R
  pub get_blockchain_info : R → Result ChainInfo × R

module _ {R B : Type 0} where
  abbrev push_result : B → Result (List B) × R → Result (List B) × R
  push_result b (ok bs, r) = (ok (b ∷ bs), r)
  push_result b (err e, r) = (err e, r)

  abbrev after_call : Result B × R → (R → Result (List B) × R) → Result (List B) × R
  after_call (ok b, r) next = push_result b (next r)
  after_call (err e, r) next = (err e, r)

-- `for a in list { results.push(call(a).await?) }`
pub call_each : {R A B : Type 0} → (A → R → Result B × R) → List A → R → Result (List B) × R
call_each call [] r = (ok [], r)
call_each call (a ∷ list) r = after_call (call a r) (call_each call list)

-- The trait's default methods.
unfoldable pub get_transactions_default :
    {R : Type 0} → (Txid → R → Result TxNode × R) → List Txid → R → Result (List TxNode) × R
unfolding call_each
get_transactions_default get_transaction txids = call_each get_transaction txids

unfoldable pub get_tx_outs_default :
    {R : Type 0}
    → (Txid → ℕ → R → Result (Option TxOutput) × R)
    → List OutPoint
    → R
    → Result (List (Option TxOutput)) × R
unfolding call_each
get_tx_outs_default get_tx_out outpoints = call_each (λ op. get_tx_out op.txid op.vout) outpoints

-- What holds of every answer of a call holds of the answers to a list of calls, in its order.
module _ {R A B : Type 0} (call : A → R → Result B × R) (Q : A → B → Type 0)
    (answers : (a : A) (r : R) (b : B) → (call a r).0 ≡ ok b → Q a b) where
  push_result-Each :
      (a : A) (list : List A) (b : B) (p : Result (List B) × R) (bs : List B)
      → Q a b
      → ((cs : List B) → p.0 ≡ ok cs → Each Q list cs)
      → (push_result b p).0 ≡ ok bs
      → Each Q (a ∷ list) bs
  push_result-Each a list b (ok cs, r) bs q rest e =
      let same : b ∷ cs ≡ bs = cc e in subst (Each Q (a ∷ list)) same (q, rest cs refl)
  push_result-Each a list b (err x, r) bs q rest e = cc e

  after_call-Each :
      (a : A) (list : List A) (p : Result B × R) (next : R → Result (List B) × R) (bs : List B)
      → ((b : B) → p.0 ≡ ok b → Q a b)
      → ((r : R) (cs : List B) → (next r).0 ≡ ok cs → Each Q list cs)
      → (after_call p next).0 ≡ ok bs
      → Each Q (a ∷ list) bs
  after_call-Each a list (ok b, r) next bs q rest e =
      push_result-Each a list b (next r) bs (q b refl) (rest r) e
  after_call-Each a list (err x, r) next bs q rest e = cc e

  pub call_each-Each :
      (list : List A) (r : R) (bs : List B) → (call_each call list r).0 ≡ ok bs → Each Q list bs
  unfolding call_each
  call_each-Each [] r bs e = let same : [] ≡ bs = cc e in subst (Each Q []) same tt
  call_each-Each (a ∷ list) r bs e =
      after_call-Each a list (call a r) (call_each call list) bs (λ b. answers a r b)
        (λ r' cs. call_each-Each list r' cs) e

-- The default get_transactions answers with one transaction for each txid, in the order of the
-- txids, each the answer of a call of get_transaction.
pub get_transactions_default-Each :
    {R : Type 0} (get_transaction : Txid → R → Result TxNode × R) (txids : List Txid) (r : R)
    (nodes : List TxNode)
    → (get_transactions_default get_transaction txids r).0 ≡ ok nodes
    → Each (λ txid node. (s : R) × ((get_transaction txid s).0 ≡ ok node)) txids nodes
unfolding get_transactions_default
get_transactions_default-Each get_transaction txids r nodes e =
    call_each-Each get_transaction (λ txid node. (s : _) × ((get_transaction txid s).0 ≡ ok node))
      (λ txid s node is. (s, is)) txids r nodes e
