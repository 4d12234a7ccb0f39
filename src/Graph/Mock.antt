-- ===== src/Graph/Mock.antt =====
-- Concrete services for the tests: a cache that never evicts, and a node that knows a fixed list of
-- transactions (as crates/cory-core/src/rpc/mock.rs does).
pub mod Honest
pub mod Registered
use cory.Base.{
  ℕ, ◌≡◌, ◌≢◌, ◌⊎◌, inl, inr, refl, Option, none, some, List, [], ◌∷◌, arith, HashKey, ◌==◌, ==_iff,
  nat_eq, nat_beq, ◌&&◌, ◌↔◌, true, Bool, nat_beq_iff, get_elem?,
}
use cory.Base.Map.{Map, get, insert, get-insert}
use cory.Error.{Result, ok, err, CoreError, tx_not_found, io}
use cory.Types.{Txid, TxNode, TxInput, TxOutput, OutPoint, ScriptType}
use cory.Cache.{QuickCache}
use cory.Rpc.{BitcoinRpc, get_transactions_default, get_tx_outs_default}
use cory.Graph.World.{Services, World}

pub get-insert_self :
    {K V : Type 0} ⦃key : HashKey K⦄ (k : K) (v : V) (m : Map K V) → get (insert k v m) k ≡ some v
get-insert_self k v m = ground (arith, get-insert k k v m, ==_iff k k)

pub get-insert_ne :
    {K V : Type 0} ⦃key : HashKey K⦄ (j k : K) (v : V) (m : Map K V)
    → j ≢ k
    → get (insert k v m) j ≡ get m j
get-insert_ne j k v m ne = ground (arith, get-insert k j v m, ==_iff k j)

-- A cache with room for everything.
abbrev pub unbounded : {K V : Type 0} ⦃key : HashKey K⦄ → QuickCache K V (Map K V)
unbounded = record {
  create = λ n. [];
  get = λ k s. (get s k, s);
  insert = insert;
  get-create = λ k n. refl;
  get-get = λ j k s. refl;
  get-insert_self = λ k v s. inr (get-insert_self k v s);
  get-insert_ne = λ j k v s ne. inr (get-insert_ne j k v s ne);
}

abbrev pub pair_beq : Txid × ℕ → Txid × ℕ → Bool
pair_beq (a, i) (b, j) = nat_beq a b && nat_beq i j

pub pair_beq_iff : (p q : Txid × ℕ) → (pair_beq p q ≡ true) ↔ (p ≡ q)
pair_beq_iff (a, i) (b, j) = ground (arith, nat_beq_iff a b, nat_beq_iff i j)

instance abbrev pub pair_eq : HashKey (Txid × ℕ)
pair_eq = record { same_key = pair_beq; same_key_iff = pair_beq_iff }

abbrev pub known_tx : Txid → Option TxNode → Result TxNode
known_tx txid none = err (tx_not_found txid)
known_tx txid (some tx) = ok tx

-- The state of the node is the list of its transactions; its outputs are all spent.
abbrev pub mock : BitcoinRpc (Map Txid TxNode)
mock = record {
  get_transaction = λ txid r. (known_tx txid (get r txid), r);
  get_transactions = get_transactions_default (λ txid r. (known_tx txid (get r txid), r));
  get_tx_out = λ txid vout r. (ok none, r);
  get_tx_outs = get_tx_outs_default (λ txid vout r. (ok none, r));
  get_blockchain_info = λ r. (err (io []), r);
}

abbrev pub services : Services (Map Txid TxNode) (Map (Txid × ℕ) TxOutput) (Map Txid TxNode)
services = record { txs = unbounded; outs = unbounded; rpc = mock }

abbrev pub input_of : Txid → ℕ → TxInput
input_of txid vout = record {
  prevout = some (record { txid = txid; vout = vout });
  sequence = 0xffffffff;
  value = none;
  script_type = none;
}

abbrev pub coinbase_input : TxInput
coinbase_input = record { prevout = none; sequence = 0xffffffff; value = none; script_type = none }

abbrev pub output_of : ℕ → TxOutput
output_of value = record { value = value; script_pub_key = []; script_type = ScriptType.unknown }

abbrev pub tx : Txid → List TxInput → List TxOutput → TxNode
tx txid inputs outputs = record {
  txid = txid;
  version = 2;
  locktime = 0;
  size = 100;
  vsize = 100;
  weight = 400;
  block_hash = none;
  block_height = none;
  inputs = inputs;
  outputs = outputs;
}

-- coinbase 1, spent by 2, spent by 3.
abbrev pub chain : Map Txid TxNode
chain =
    (1, tx 1 (coinbase_input ∷ []) (output_of 5000 ∷ []))
    ∷ (2, tx 2 (input_of 1 0 ∷ []) (output_of 4000 ∷ []))
    ∷ (3, tx 3 (input_of 2 0 ∷ []) (output_of 3000 ∷ []))
    ∷ []

abbrev pub fresh : World (Map Txid TxNode) (Map (Txid × ℕ) TxOutput) (Map Txid TxNode)
fresh = record { cache = record { transactions = []; prevouts = [] }; node = chain }
