-- ===== src/Graph/Fetch/Total.antt =====
-- fetch_and_convert_many (crates/cory-core/src/graph.rs) over any node at all: one node for each
-- requested txid, or an error or a panic.
use cory.Base.{ℕ, zero, suc, Option, some, List, [], ◌∷◌, Each, set, From-all}
use cory.Exec.{lift, Ensures, Ensures-then, Ensures-return, Ensures-any}
use cory.Types.{Txid, TxNode}
use cory.Graph.World.{Services, World, cached_tx, rpc_transactions}
use cory.Graph.Fetch.{Lookups, write_positions, enrich_all, fetch_missing, fetch_and_convert_many}
use cory.Graph.Fetch.Slots.{Slot, look_up_all-LookedUp, expect_all-Each}

-- Anything, of a txid and its node.
abbrev pub SomeNode : Txid → TxNode → Type 0
SomeNode t node = Unit

set-Slots :
    (txids : List Txid) (slots : List (Option TxNode)) (p : ℕ) (slot : Option TxNode)
    → Each (Slot SomeNode) txids slots
    → Each (Slot SomeNode) txids (set slots p slot)
set-Slots [] [] p slot e = e
set-Slots [] (x ∷ slots) p slot e = absurd e
set-Slots (t ∷ txids) [] p slot e = absurd e
set-Slots (t ∷ txids) (x ∷ slots) zero slot e = (λ node h. tt, e.1)
set-Slots (t ∷ txids) (x ∷ slots) (suc p) slot e = (e.0, set-Slots txids slots p slot e.1)

write_positions-Slots :
    (txids : List Txid) (positions : List ℕ) (enriched : List TxNode) (slots : List (Option TxNode))
    → Each (Slot SomeNode) txids slots
    → Each (Slot SomeNode) txids (write_positions positions enriched slots)
unfolding write_positions
write_positions-Slots txids [] enriched slots e = e
write_positions-Slots txids (p ∷ positions) [] slots e = e
write_positions-Slots txids (p ∷ positions) (n ∷ enriched) slots e =
    write_positions-Slots txids positions enriched (set slots p (some n))
      (set-Slots txids slots p (some n) e)

module _ {T P R : Type 0} (sv : Services T P R) where
  abbrev pub Anything : World T P R → Type 0
  Anything w = Unit

  fetch_missing-Slots :
      (txids : List Txid) (l : Lookups) (missing : List Txid)
      → Each (Slot SomeNode) txids l.ordered
      → Ensures Anything (fetch_missing sv l missing) (Each (Slot SomeNode) txids)
  unfolding fetch_missing
  fetch_missing-Slots txids l [] e = Ensures-return l.ordered e
  fetch_missing-Slots txids l (t ∷ missing) e =
      Ensures-then (Ensures-any (rpc_transactions sv (t ∷ missing))) (λ answer _.
        Ensures-then (Ensures-any (lift answer)) (λ fetched _.
          Ensures-then (Ensures-any (enrich_all sv fetched)) (λ enriched _.
            Ensures-return (write_positions l.missing_positions enriched l.ordered)
              (write_positions-Slots txids l.missing_positions enriched l.ordered e))))

  pub fetch_and_convert_many-Each :
      (txids : List Txid) → Ensures Anything (fetch_and_convert_many sv txids) (Each SomeNode txids)
  unfolding fetch_and_convert_many
  fetch_and_convert_many-Each txids =
      let looked_up : (t : Txid) → Ensures Anything (cached_tx sv t) (Slot SomeNode t) =
        λ t. record { keeps = λ w i. tt; returns = λ w a i e node h. tt } in
      Ensures-then
        (look_up_all-LookedUp SomeNode sv Anything looked_up txids 0 txids (From-all txids))
        (λ l h.
          Ensures-then (fetch_missing-Slots txids l l.missing_txids h.slots)
            (λ slots s. expect_all-Each SomeNode sv Anything looked_up txids slots s))
