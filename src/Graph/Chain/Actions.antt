-- ===== src/Graph/Chain/Actions.antt =====
-- The calls of crates/cory-core/src/graph.rs on the cache and on the node keep the caches true.
use cory.Base.{ℕ, ◌≡◌, ◌≢◌, ◌⊎◌, inl, inr, Option, some, List, arith, Each, subst, sym, ◌∙◌}
use cory.Error.{ok}
use cory.Exec.{Ensures}
use cory.Types.{Txid, TxOutput, TxNode, OutPoint}
use cory.Cache.{QuickCache}
use cory.Graph.World.{
  Services, World, cached_tx, cache_tx, cached_prevout, cache_prevout, rpc_transactions,
  rpc_tx_outs,
}
use cory.Graph.Chain.{
  Chain, at_vout, funding_output, FaithfulAt, AnswersOut, IsHonest, CacheFaithful,
}

-- A predicate on the entries of a cache, behind an insertion and behind a lookup.
module _ {K V S : Type 0} (c : QuickCache K V S) (P : K → V → Type 0) where
  abbrev Holds : S → Type 0
  Holds s = (k : K) (v : V) → (c.get k s).0 ≡ some v → P k v

  Holds-get : (k : K) (s : S) → Holds s → Holds (c.get k s).1
  Holds-get k s h j v e = h j v (sym (c.get-get j k s) ∙ e)

  Holds-insert :
      (same : (j k : K) → (j ≡ k) ⊎ (j ≢ k)) (k : K) (v : V) (s : S)
      → P k v
      → Holds s
      → Holds (c.insert k v s)
  Holds-insert same k v s p h j u e = elim (same j k) [
    | inl is_k ↦
        let at_k = subst (λ (i : K). (c.get i (c.insert k v s)).0 ≡ some u) is_k e in
        elim (c.get-insert_self k v s) [
          | inl gone ↦ absurd (cc (gone, at_k))
          | inr new ↦
              let is_v : v ≡ u = cc (new, at_k) in
              subst (λ (i : K). P i u) (sym is_k) (subst (P k) is_v p)
        ]
    | inr other ↦ elim (c.get-insert_ne j k v s other) [
      | inl gone ↦ absurd (cc (gone, e))
      | inr kept ↦ h j u (sym kept ∙ e)
    ]
  ]

Txid-same : (a b : Txid) → (a ≡ b) ⊎ (a ≢ b)
Txid-same a b = ground arith

OutPoint-same : (p q : Txid × ℕ) → (p ≡ q) ⊎ (p ≢ q)
OutPoint-same (a, i) (b, j) = ground arith

module _ {T P R : Type 0} (chain : Chain) (sv : Services T P R) where
  abbrev Inv : World T P R → Type 0
  Inv = CacheFaithful chain sv

  pub cached_tx-Faithful :
      (txid : Txid)
      → Ensures Inv
          (cached_tx sv txid)
          (λ found. (node : TxNode) → found ≡ some node → FaithfulAt chain txid node)
  unfolding cached_tx
  cached_tx-Faithful txid = record {
    keeps = λ w i. record {
      txs = λ t n e. Holds-get sv.txs (FaithfulAt chain) txid w.cache.transactions i.txs t n e;
      outs = i.outs;
    };
    returns = λ w a i e node found. i.txs txid node (cc (e, found));
  }

  pub cache_tx-Faithful :
      (txid : Txid) (node : TxNode)
      → FaithfulAt chain txid node
      → Ensures Inv (cache_tx sv txid node) (λ _. Unit)
  unfolding cache_tx
  cache_tx-Faithful txid node h = record {
    keeps = λ w i. record {
      txs = λ t n e.
          Holds-insert sv.txs (FaithfulAt chain) Txid-same txid node w.cache.transactions h i.txs t
            n e;
      outs = i.outs;
    };
    returns = λ w a i e. tt;
  }

  abbrev OutAt : Txid × ℕ → TxOutput → Type 0
  OutAt p o = at_vout (chain p.0) p.1 ≡ some o

  pub cached_prevout-Faithful :
      (op : OutPoint)
      → Ensures Inv
          (cached_prevout sv op)
          (λ found. (o : TxOutput) → found ≡ some o → funding_output chain op ≡ some o)
  unfolding cached_prevout
  cached_prevout-Faithful op = record {
    keeps = λ w i. record {
      txs = i.txs;
      outs = λ t n o e.
          Holds-get sv.outs OutAt (op.txid, op.vout) w.cache.prevouts (λ p. i.outs p.0 p.1) (t, n) o
            e;
    };
    returns = λ w a i e o found. i.outs op.txid op.vout o (cc (e, found));
  }

  pub cache_prevout-Faithful :
      (op : OutPoint) (o : TxOutput)
      → funding_output chain op ≡ some o
      → Ensures Inv (cache_prevout sv op o) (λ _. Unit)
  unfolding cache_prevout
  cache_prevout-Faithful op o h = record {
    keeps = λ w i. record {
      txs = i.txs;
      outs = λ t n o' e.
          Holds-insert sv.outs OutAt OutPoint-same (op.txid, op.vout) o w.cache.prevouts h
            (λ p. i.outs p.0 p.1) (t, n) o' e;
    };
    returns = λ w a i e. tt;
  }

  module _ (honest : IsHonest chain sv.rpc) where
    pub rpc_transactions-Faithful :
        (txids : List Txid)
        → Ensures Inv (rpc_transactions sv txids) (λ answer.
          (nodes : List TxNode) → answer ≡ ok nodes → Each (FaithfulAt chain) txids nodes)
    unfolding rpc_transactions
    rpc_transactions-Faithful txids = record {
      keeps = λ w i. record { txs = i.txs; outs = i.outs };
      returns = λ w a i e nodes is_ok. honest.transactions txids w.node nodes (cc (e, is_ok));
    }

    pub rpc_tx_outs-Faithful :
        (ops : List OutPoint)
        → Ensures Inv (rpc_tx_outs sv ops) (λ answer.
          (answers : List (Option TxOutput))
          → answer ≡ ok answers
          → Each (AnswersOut chain) ops answers)
    unfolding rpc_tx_outs
    rpc_tx_outs-Faithful ops = record {
      keeps = λ w i. record { txs = i.txs; outs = i.outs };
      returns = λ w a i e answers is_ok. honest.tx_outs ops w.node answers (cc (e, is_ok));
    }
