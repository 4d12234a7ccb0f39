-- ===== src/Graph/Fetch/Slots.antt =====
-- The slots `ordered` of fetch_and_convert_many (crates/cory-core/src/graph.rs): one for each
-- requested txid, in order.
use cory.Base.{
  From, From-head, From-tail, subst, ℕ, zero, suc, ◌≡◌, refl, Option, none, some, List, [], ◌∷◌,
  Each, get_elem?, set,
}
use cory.Exec.{Ensures, Ensures-then, Ensures-return}
use cory.Types.{Txid, TxNode}
use cory.Graph.World.{Services, World, cached_tx}
use cory.Graph.Fetch.{Lookups, note_lookup, write_positions, look_up_all, expect_all}

-- What is known of a slot, from what is known of the node in it.
abbrev pub Slot : (Txid → TxNode → Type 0) → Txid → Option TxNode → Type 0
Slot F txid slot = (node : TxNode) → slot ≡ some node → F txid node

module _ (F : Txid → TxNode → Type 0) where
  pub set-Each :
      (txids : List Txid) (slots : List (Option TxNode)) (p : ℕ) (t : Txid) (node : TxNode)
      → get_elem? txids p ≡ some t
      → F t node
      → Each (Slot F) txids slots
      → Each (Slot F) txids (set slots p (some node))
  set-Each [] [] p t node at f e = cc
  set-Each [] (x ∷ slots) p t node at f e = absurd e
  set-Each (u ∷ txids) [] p t node at f e = absurd e
  set-Each (u ∷ txids) (x ∷ slots) zero t node at f e =
      let is_t : t ≡ u = cc at in (λ n is_n. subst (λ v. F v n) is_t (subst (F t) (cc is_n) f), e.1)
  set-Each (u ∷ txids) (x ∷ slots) (suc p) t node at f e =
      (e.0, set-Each txids slots p t node at f e.1)

  -- Each missing position is that of the missing txid beside it.
  abbrev pub Positions : List Txid → List ℕ → List Txid → Type 0
  Positions all = Each (λ p t. get_elem? all p ≡ some t)

  pub write_positions-Each :
      (all : List Txid) (positions : List ℕ) (missing : List Txid) (enriched : List TxNode)
      (slots : List (Option TxNode))
      → Positions all positions missing
      → Each F missing enriched
      → Each (Slot F) all slots
      → Each (Slot F) all (write_positions positions enriched slots)
  unfolding write_positions
  write_positions-Each all [] missing enriched slots at e h = h
  write_positions-Each all (p ∷ positions) missing [] slots at e h = h
  write_positions-Each all (p ∷ positions) [] (n ∷ enriched) slots at e h = absurd at
  write_positions-Each all (p ∷ positions) (t ∷ missing) (n ∷ enriched) slots at e h =
      write_positions-Each all positions missing enriched (set slots p (some n)) at.1 e.1
        (set-Each all slots p t n at.0 e.0 h)

  module _ {T P R : Type 0} (sv : Services T P R) (I : World T P R → Type 0)
      (looked_up : (txid : Txid) → Ensures I (cached_tx sv txid) (Slot F txid)) where
    -- After the lookups of the txids from `idx` on: their slots, and where the missing ones are.
    pub record LookedUp (all txids : List Txid) (l : Lookups) : Type 0 where
      pub slots : Each (Slot F) txids l.ordered
      pub positions : Positions all l.missing_positions l.missing_txids

    note_lookup-LookedUp :
        (all txids : List Txid) (idx : ℕ) (txid : Txid) (found : Option TxNode) (l : Lookups)
        → get_elem? all idx ≡ some txid
        → Slot F txid found
        → LookedUp all txids l
        → LookedUp all (txid ∷ txids) (note_lookup idx txid found l)
    unfolding note_lookup
    note_lookup-LookedUp all txids idx txid (some n) l at f h = record {
      slots = (f, h.slots);
      positions = h.positions;
    }
    note_lookup-LookedUp all txids idx txid none l at f h = record {
      slots = (f, h.slots);
      positions = (at, h.positions);
    }

    pub look_up_all-LookedUp :
        (all : List Txid) (idx : ℕ) (txids : List Txid)
        → From all idx txids
        → Ensures I (look_up_all sv idx txids) (LookedUp all txids)
    unfolding look_up_all
    look_up_all-LookedUp all idx [] at =
        Ensures-return (record { ordered = []; missing_positions = []; missing_txids = [] })
          (record { slots = tt; positions = tt })
    look_up_all-LookedUp all idx (txid ∷ txids) at = Ensures-then (looked_up txid) (λ found f.
        Ensures-then (look_up_all-LookedUp all (suc idx) txids (From-tail all idx txid txids at))
          (λ others h. Ensures-return (note_lookup idx txid found others) (
            note_lookup-LookedUp all txids idx txid found others (From-head all idx txid txids at) f
              h)))

    -- `expect` panics at an empty slot, and otherwise every node is in its place.
    pub expect_all-Each :
        (txids : List Txid) (slots : List (Option TxNode))
        → Each (Slot F) txids slots
        → Ensures I (expect_all sv slots) (Each F txids)
    unfolding expect_all
    expect_all-Each [] [] e = Ensures-return [] tt
    expect_all-Each [] (x ∷ slots) e = absurd e
    expect_all-Each (t ∷ txids) [] e = absurd e
    expect_all-Each (t ∷ txids) (none ∷ slots) e = record {
      keeps = λ w i. i;
      returns = λ w a i h. cc h;
    }
    expect_all-Each (t ∷ txids) (some n ∷ slots) e =
        Ensures-then (expect_all-Each txids slots e.1)
          (λ nodes h. Ensures-return (n ∷ nodes) (e.0 n refl, h))
