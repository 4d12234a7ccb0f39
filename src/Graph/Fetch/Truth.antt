-- ===== src/Graph/Fetch/Truth.antt =====
-- fetch_and_convert_many (crates/cory-core/src/graph.rs) returns true nodes, each in its place.
use cory.Base.{◌≡◌, refl, subst, Option, none, some, List, [], ◌∷◌, Each, From-all}
use cory.Exec.{Ensures, Ensures-then, Ensures-return, lift}
use cory.Error.{Result, ok, err}
use cory.Types.{Txid, TxNode}
use cory.Graph.World.{Services, World}
use cory.Graph.Chain.{Chain, FaithfulAt, IsHonest, CacheFaithful}
use cory.Graph.Chain.Actions.{cached_tx-Faithful, cache_tx-Faithful, rpc_transactions-Faithful}
use cory.Graph.Prevouts.Truth.{enrich_tx_node-Faithful}
use cory.Graph.Fetch.{
  Lookups, write_positions, enrich_unless_cached, enrich_and_cache_tx, enrich_all, fetch_missing,
  fetch_and_convert_many,
}
use cory.Graph.Fetch.Slots.{
  Slot, Positions, write_positions-Each, look_up_all-LookedUp, expect_all-Each,
}

module _ {T P R : Type 0} (chain : Chain) (sv : Services T P R)
    (honest : IsHonest chain sv.rpc) where
  abbrev Inv : World T P R → Type 0
  Inv = CacheFaithful chain sv

  abbrev F : Txid → TxNode → Type 0
  F = FaithfulAt chain

  enrich_unless_cached-Faithful :
      (txid : Txid) (tx : TxNode) (found : Option TxNode)
      → F txid tx
      → Slot F tx.txid found
      → Ensures Inv (enrich_unless_cached sv tx found) (F tx.txid)
  unfolding enrich_unless_cached
  enrich_unless_cached-Faithful txid tx (some cached) f h = Ensures-return cached (h cached refl)
  enrich_unless_cached-Faithful txid tx none f h =
      Ensures-then (enrich_tx_node-Faithful chain sv honest tx.txid tx (refl, f.1)) (λ node g.
        Ensures-then (cache_tx-Faithful chain sv tx.txid node g) (λ _ _. Ensures-return node g))

  enrich_and_cache_tx-Faithful :
      (txid : Txid) (tx : TxNode) → F txid tx → Ensures Inv (enrich_and_cache_tx sv tx) (F tx.txid)
  unfolding enrich_and_cache_tx
  enrich_and_cache_tx-Faithful txid tx f =
      Ensures-then (cached_tx-Faithful chain sv tx.txid)
        (λ found h. enrich_unless_cached-Faithful txid tx found f h)

  enrich_all-Faithful :
      (txids : List Txid) (txs : List TxNode)
      → Each F txids txs
      → Ensures Inv (enrich_all sv txs) (Each F txids)
  unfolding enrich_all
  enrich_all-Faithful [] [] e = Ensures-return [] tt
  enrich_all-Faithful [] (tx ∷ txs) e = absurd e
  enrich_all-Faithful (t ∷ txids) [] e = absurd e
  enrich_all-Faithful (t ∷ txids) (tx ∷ txs) e =
      Ensures-then (enrich_and_cache_tx-Faithful t tx e.0) (λ node f.
        Ensures-then (enrich_all-Faithful txids txs e.1)
          (λ nodes fs. Ensures-return (node ∷ nodes) (subst (λ u. F u node) e.0.0 f, fs)))

  lift-Each :
      (txids : List Txid) (answer : Result (List TxNode))
      → ((txs : List TxNode) → answer ≡ ok txs → Each F txids txs)
      → Ensures Inv (lift answer) (Each F txids)
  lift-Each txids (ok txs) h = Ensures-return txs (h txs refl)
  lift-Each txids (err e) h = record { keeps = λ w i. i; returns = λ w a i e. cc e }

  fetch_missing-Slots :
      (all : List Txid) (l : Lookups) (missing : List Txid)
      → Positions F all l.missing_positions missing
      → Each (Slot F) all l.ordered
      → Ensures Inv (fetch_missing sv l missing) (Each (Slot F) all)
  unfolding fetch_missing
  fetch_missing-Slots all l [] at h = Ensures-return l.ordered h
  fetch_missing-Slots all l (t ∷ missing) at h =
      Ensures-then (rpc_transactions-Faithful chain sv honest (t ∷ missing)) (λ answer f.
        Ensures-then (lift-Each (t ∷ missing) answer f) (λ fetched g.
          Ensures-then (enrich_all-Faithful (t ∷ missing) fetched g) (λ enriched e.
            Ensures-return (write_positions l.missing_positions enriched l.ordered) (
              write_positions-Each F all l.missing_positions (t ∷ missing) enriched l.ordered at e
                h))))

  -- Where the node is honest and the caches are true, each requested txid is answered in its place
  -- by a true node of that txid, and the caches stay true.
  pub fetch_and_convert_many-Faithful :
      (txids : List Txid) → Ensures Inv (fetch_and_convert_many sv txids) (Each F txids)
  unfolding fetch_and_convert_many
  fetch_and_convert_many-Faithful txids =
      Ensures-then
        (look_up_all-LookedUp F sv Inv (cached_tx-Faithful chain sv) txids 0 txids (From-all txids))
        (λ l h.
          Ensures-then (fetch_missing-Slots txids l l.missing_txids h.positions h.slots)
            (λ slots s. expect_all-Each F sv Inv (cached_tx-Faithful chain sv) txids slots s))
