-- ===== src/Startup/Loads.antt =====
-- The label directories that main (crates/cory/src/main.rs) loads, and the caches that it makes.
use cory.Base.{ℕ, ◌≡◌, subst, some, inl, inr, List, [], ◌∷◌, arith, ◌<◌, ltb, ◌&&◌, Bool-cases}
use cory.Base.Text.{Text, text_eq}
use cory.Error.{Result, ok, ok-injective, Result-cases}
use cory.Labels.Store.{LabelStore, empty}
use cory.Labels.Store.WellFormed.{IsWellFormed}
use cory.Types.{Txid, TxNode, TxOutput}
use cory.Cache.{QuickCache, Cache, with_capacity}
use cory.Startup.{load_dirs}

pub empty-IsWellFormed : IsWellFormed empty
empty-IsWellFormed = record {
  rw_files = tt;
  browser_files = tt;
  ro_files = tt;
  unique = λ id. omega arith;
}

-- What the loads of single directories keep, the loads of all keep.
pub load_dirs-IsWellFormed :
    (load : Text → LabelStore → Result (Unit {0}) × LabelStore)
    → ((dir : Text) (s : LabelStore) → IsWellFormed s → IsWellFormed (load dir s).1)
    → (dirs : List Text) (s s' : LabelStore) → load_dirs load dirs s ≡ ok s'
    → IsWellFormed s
    → IsWellFormed s'
unfolding load_dirs
load_dirs-IsWellFormed load keeps [] s s' e h = subst IsWellFormed (ok-injective e) h
load_dirs-IsWellFormed load keeps (dir ∷ dirs) s s' e h = elim (Result-cases (load dir s).0) [
  | inl (u, loaded) ↦
      load_dirs-IsWellFormed load keeps dirs (load dir s).1 s' (rw (loaded, load_dirs) at e)
        (keeps dir s h)
  | inr (x, stopped) ↦ absurd (cc (rw (stopped, load_dirs) at e))
]

-- The store after one load after another, none of which failed.
abbrev pub AllLoaded :
    (Text → LabelStore → Result (Unit {0}) × LabelStore)
    → List Text
    → LabelStore
    → LabelStore
    → Type 0
AllLoaded load [] s after = s ≡ after
AllLoaded load (dir ∷ dirs) s after =
    ((load dir s).0 ≡ ok tt) × AllLoaded load dirs (load dir s).1 after

pub load_dirs-AllLoaded :
    (load : Text → LabelStore → Result (Unit {0}) × LabelStore) (dirs : List Text)
    (s after : LabelStore)
    → load_dirs load dirs s ≡ ok after
    → AllLoaded load dirs s after
unfolding load_dirs
load_dirs-AllLoaded load [] s after e = ok-injective e
load_dirs-AllLoaded load (dir ∷ dirs) s after e = elim (Result-cases (load dir s).0) [
  | inl (u, loaded) ↦
      (loaded, load_dirs-AllLoaded load dirs (load dir s).1 after (rw (loaded, load_dirs) at e))
  | inr (x, stopped) ↦ absurd (cc (rw (stopped, load_dirs) at e))
]

-- What a cache is that was made, and of which capacities.
pub with_capacity-some :
    {T P : Type 0} (txs : QuickCache Txid TxNode T) (outs : QuickCache (Txid × ℕ) TxOutput P)
    (tx_cap prevout_cap : ℕ) (cache : Cache T P)
    → with_capacity txs outs tx_cap prevout_cap ≡ some cache
    → (0 < tx_cap)
      × (0 < prevout_cap)
      × (cache ≡ record { transactions = txs.create tx_cap; prevouts = outs.create prevout_cap })
unfolding with_capacity
with_capacity-some txs outs tx_cap prevout_cap cache h =
    elim (Bool-cases (ltb 0 tx_cap && ltb 0 prevout_cap)) [
      | inl positive ↦ (ground (arith, positive), ground (arith, positive), cc (rw positive at h))
      | inr not_positive ↦ cc (rw not_positive at h)
    ]
