-- ===== src/Cache.antt =====
-- crates/cory-core/src/cache.rs: the two shared caches.
-- quick_cache is not code of the repository: `QuickCache` is what its documentation says of a
-- bounded cache. A lookup may change which entry is evicted next and nothing that is stored; an
-- insertion may evict any entry, the new one included.
use cory.Base.{ℕ, ltb, ◌&&◌, if◌then◌else◌, ◌≡◌, ◌≢◌, ◌⊎◌, Option, none, some}
use cory.Types.{Txid, TxNode, TxOutput}

pub record QuickCache (K V S : Type 0) : Type 0 where
  pub create : ℕ → S
  pub get : K → S → Option V × S
  pub insert : K → V → S → S
  pub get-create : (k : K) (n : ℕ) → (get k (create n)).0 ≡ none
  pub get-get : (j k : K) (s : S) → (get j (get k s).1).0 ≡ (get j s).0
  pub get-insert_self :
      (k : K) (v : V) (s : S)
      → ((get k (insert k v s)).0 ≡ none) ⊎ ((get k (insert k v s)).0 ≡ some v)
  pub get-insert_ne :
      (j k : K) (v : V) (s : S)
      → j ≢ k
      → ((get j (insert k v s)).0 ≡ none) ⊎ ((get j (insert k v s)).0 ≡ (get j s).0)

-- Cache; the key of a prevout is (Txid, u32).
pub record Cache (T P : Type 0) : Type 0 where
  pub transactions : T
  pub prevouts : P

abbrev pub default_tx_capacity : ℕ
default_tx_capacity = 20000

abbrev pub default_prevout_capacity : ℕ
default_prevout_capacity = 100000

module _ {T P : Type 0} (txs : QuickCache Txid TxNode T)
    (outs : QuickCache (Txid × ℕ) TxOutput P) where
  -- Cache::with_capacity; `none` is the panic of its assertions.
  unfoldable pub with_capacity : ℕ → ℕ → Option (Cache T P)
  with_capacity tx_cap prevout_cap =
      if ltb 0 tx_cap && ltb 0 prevout_cap
      then some (record { transactions = txs.create tx_cap; prevouts = outs.create prevout_cap })
      else none

  -- Cache::new
  unfoldable pub new : Option (Cache T P)
  unfolding with_capacity
  new = with_capacity default_tx_capacity default_prevout_capacity

  -- Cache::get_tx
  unfoldable pub get_tx : Txid → Cache T P → Option TxNode × Cache T P
  get_tx txid c =
      let (found, s) = txs.get txid c.transactions in (found, record c { transactions = s })

  -- Cache::insert_tx
  unfoldable pub insert_tx : Txid → TxNode → Cache T P → Cache T P
  insert_tx txid node c = record c { transactions = txs.insert txid node c.transactions }

  -- Cache::get_prevout
  unfoldable pub get_prevout : Txid → ℕ → Cache T P → Option TxOutput × Cache T P
  get_prevout txid vout c =
      let (found, s) = outs.get (txid, vout) c.prevouts in (found, record c { prevouts = s })

  -- Cache::insert_prevout
  unfoldable pub insert_prevout : Txid → ℕ → TxOutput → Cache T P → Cache T P
  insert_prevout txid vout info c = record c { prevouts = outs.insert (txid, vout) info c.prevouts }
