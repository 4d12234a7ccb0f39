-- ===== src/Graph/Prevouts/Truth.antt =====
-- enrich_tx_node (crates/cory-core/src/graph.rs): the enriched transaction spends what it spent, and
-- what its inputs say of the outputs is true.
use cory.Base.{
  ℕ, ◌≡◌, refl, sym, ◌∙◌, subst, Option, none, some, List, [], ◌∷◌, All-append, Each, arith,
  get_elem?, nat_eq, Bool-cases, inl, inr, ◌==◌, ==_iff,
}
use cory.Base.Map.{Map, get, insert, get-insert}
use cory.Error.{Result, ok, err}
use cory.Exec.{Exec, Ensures, Ensures-then, Ensures-return}
use cory.Types.{Txid, TxInput, TxOutput, TxNode, OutPoint}
use cory.Graph.World.{Services, World}
use cory.Graph.Chain.{Chain, FaithfulAt, AnswersOut, IsHonest, CacheFaithful, prevouts}
use cory.Graph.Chain.Actions.{
  cached_prevout-Faithful, cache_prevout-Faithful, rpc_transactions-Faithful, rpc_tx_outs-Faithful,
}
use cory.Graph.Prevouts.{
  Unresolved, set_info, still_unresolved, outpoints, by_txid, output_at, apply_tx_out,
  apply_tx_outs, after_tx_outs, need_parent, collect_parents, fill_from_parents, after_parents,
  fetch_parents, resolve_unresolved_prevouts, resolve_if_any, enrich_tx_node,
}
use cory.Graph.Prevouts.Lists.{
  Points, set_info-Faithful, prevouts-set_info, still_unresolved-Points,
}
use cory.Base.{From, From-all}
use cory.Graph.Prevouts.Resolve.{output_at-funding, Good, build_inputs_initial-Faithful}

-- Every entry of the map is true at its key.
abbrev ParentsFaithful : Chain → Map Txid TxNode → Type 0
ParentsFaithful chain m =
    (txid : Txid) (node : TxNode) → get m txid ≡ some node → FaithfulAt chain txid node

by_txid-Faithful :
    (chain : Chain) (txids : List Txid) (txs : List TxNode) (m : Map Txid TxNode)
    → Each (FaithfulAt chain) txids txs
    → ParentsFaithful chain m
    → ParentsFaithful chain (by_txid txs m)
unfolding by_txid
by_txid-Faithful chain [] [] m e h = h
by_txid-Faithful chain (t ∷ ts) [] m e h = absurd e
by_txid-Faithful chain [] (tx ∷ txs) m e h = absurd e
by_txid-Faithful chain (t ∷ ts) (tx ∷ txs) m e h =
    by_txid-Faithful chain ts txs (insert tx.txid tx m) e.1 added
  where
    added : ParentsFaithful chain (insert tx.txid tx m)
    added u node found =
        let law = get-insert tx.txid u tx m in
        elim (Bool-cases (tx.txid == u)) [
          | inl same ↦
              let is_u : tx.txid ≡ u = (==_iff tx.txid u).0 same in
              let is_node : tx ≡ node = ground arith in
              subst (λ n. FaithfulAt chain u n) is_node (is_u, e.0.1)
          | inr other ↦ h u node (ground arith)
        ]

module _ {T P R : Type 0} (chain : Chain) (sv : Services T P R) (honest : IsHonest chain sv.rpc)
    (ps : List (Option OutPoint)) where
  abbrev Inv : World T P R → Type 0
  Inv = CacheFaithful chain sv

  abbrev Keeps : Exec (World T P R) (List TxInput) → Type 0
  Keeps m = Ensures Inv m (Good chain sv ps)

  apply_tx_out-Good :
      (idx : ℕ) (op : OutPoint) (info : Option TxOutput) (inputs : List TxInput)
      → get_elem? ps idx ≡ some (some op)
      → AnswersOut chain op info
      → Good chain sv ps inputs
      → Keeps (apply_tx_out sv idx op info inputs)
  unfolding apply_tx_out
  apply_tx_out-Good idx op none inputs at h g = Ensures-return inputs g
  apply_tx_out-Good idx op (some info) inputs at h g =
      let funded = h info refl in
      Ensures-then (cache_prevout-Faithful chain sv op info funded) (λ _ _.
        Ensures-return (set_info inputs idx info) (
          prevouts-set_info inputs idx info ∙ g.0,
          set_info-Faithful chain inputs idx op info
              (subst (λ qs. get_elem? qs idx ≡ some (some op)) (sym g.0) at) funded g.1,
        ))

  apply_tx_outs-Good :
      (unresolved : Unresolved) (resolved : List (Option TxOutput)) (inputs : List TxInput)
      → Points chain ps unresolved
      → Each (AnswersOut chain) (outpoints unresolved) resolved
      → Good chain sv ps inputs
      → Keeps (apply_tx_outs sv unresolved resolved inputs)
  unfolding apply_tx_outs outpoints
  apply_tx_outs-Good [] resolved inputs at e g = Ensures-return inputs g
  apply_tx_outs-Good (u ∷ unresolved) [] inputs at e g = Ensures-return inputs g
  apply_tx_outs-Good ((idx, op) ∷ unresolved) (info ∷ resolved) inputs at e g =
      Ensures-then (apply_tx_out-Good idx op info inputs at.0 e.0 g)
        (λ inputs' g'. apply_tx_outs-Good unresolved resolved inputs' at.1 e.1 g')

  after_tx_outs-Good :
      (unresolved : Unresolved) (inputs : List TxInput) (answer : Result (List (Option TxOutput)))
      → Points chain ps unresolved
      → ((outs : List (Option TxOutput))
          → answer ≡ ok outs
          → Each (AnswersOut chain) (outpoints unresolved) outs)
      → Good chain sv ps inputs
      → Keeps (after_tx_outs sv unresolved inputs answer)
  unfolding after_tx_outs
  after_tx_outs-Good unresolved inputs (ok outs) at h g =
      apply_tx_outs-Good unresolved outs inputs at (h outs refl) g
  after_tx_outs-Good unresolved inputs (err e) at h g = Ensures-return inputs g

  need_parent-Points :
      (idx : ℕ) (op : OutPoint) (info : Option TxOutput) (needed : Unresolved × List Txid)
      → get_elem? ps idx ≡ some (some op)
      → Points chain ps needed.0
      → Points chain ps (need_parent idx op info needed).0
  unfolding need_parent
  need_parent-Points idx op (some info) needed at h = h
  need_parent-Points idx op none (indices, parents) at h =
      All-append (λ (u : ℕ × OutPoint). get_elem? ps u.0 ≡ some (some u.1)) indices ((idx, op) ∷ [])
        h (at, tt)

  collect_parents-Points :
      (list : Unresolved) (needed : Unresolved × List Txid)
      → Points chain ps list
      → Points chain ps needed.0
      → Ensures Inv (collect_parents sv list needed) (λ r. Points chain ps r.0)
  unfolding collect_parents
  collect_parents-Points [] needed at h = Ensures-return needed h
  collect_parents-Points ((idx, op) ∷ list) needed at h =
      Ensures-then (cached_prevout-Faithful chain sv op) (λ info _.
        collect_parents-Points list (need_parent idx op info needed) at.1
          (need_parent-Points idx op info needed at.0 h))

  fill_from_parents-Good :
      (parents : Map Txid TxNode) (list : Unresolved) (inputs : List TxInput)
      → ParentsFaithful chain parents
      → Points chain ps list
      → Good chain sv ps inputs
      → Keeps (fill_from_parents sv parents list inputs)
  unfolding fill_from_parents
  fill_from_parents-Good parents [] inputs f at g = Ensures-return inputs g
  fill_from_parents-Good parents ((idx, op) ∷ list) inputs f at g =
      Ensures-then
        (apply_tx_out-Good idx op (output_at (get parents op.txid) op) inputs at.0
          (λ o e.
            output_at-funding chain op (get parents op.txid) o (λ node found. f op.txid node found)
              e)
          g)
        (λ inputs' g'. fill_from_parents-Good parents list inputs' f at.1 g')

  after_parents-Good :
      (indices : Unresolved) (inputs : List TxInput) (txids : List Txid)
      (answer : Result (List TxNode))
      → ((txs : List TxNode) → answer ≡ ok txs → Each (FaithfulAt chain) txids txs)
      → Points chain ps indices
      → Good chain sv ps inputs
      → Keeps (after_parents sv indices inputs answer)
  unfolding after_parents
  after_parents-Good indices inputs txids (ok txs) f at g =
      fill_from_parents-Good (by_txid txs []) indices inputs
        (by_txid-Faithful chain txids txs [] (f txs refl) (λ t n e. cc e)) at g
  after_parents-Good indices inputs txids (err e) f at g = Ensures-return inputs g

  fetch_parents-Good :
      (indices : Unresolved) (inputs : List TxInput) (parents : List Txid)
      → Points chain ps indices
      → Good chain sv ps inputs
      → Keeps (fetch_parents sv indices inputs parents)
  unfolding fetch_parents
  fetch_parents-Good indices inputs [] at g = Ensures-return inputs g
  fetch_parents-Good indices inputs (t ∷ parents) at g =
      Ensures-then (rpc_transactions-Faithful chain sv honest (t ∷ parents))
        (λ answer f. after_parents-Good indices inputs (t ∷ parents) answer f at g)

  resolve_unresolved_prevouts-Good :
      (inputs : List TxInput) (unresolved : Unresolved)
      → Points chain ps unresolved
      → Good chain sv ps inputs
      → Keeps (resolve_unresolved_prevouts sv inputs unresolved)
  unfolding resolve_unresolved_prevouts
  resolve_unresolved_prevouts-Good inputs unresolved at g =
      Ensures-then (rpc_tx_outs-Faithful chain sv honest (outpoints unresolved)) (λ answer f.
        Ensures-then (after_tx_outs-Good unresolved inputs answer at f g) (λ inputs' g'.
          Ensures-then
            (collect_parents-Points (still_unresolved 0 inputs') ([], [])
              (still_unresolved-Points chain ps 0 inputs'
                (subst (λ qs. From ps 0 qs) (sym g'.0) (From-all ps)))
              tt)
            (λ needed at'. fetch_parents-Good needed.0 inputs' needed.1 at' g')))

  resolve_if_any-Good :
      (inputs : List TxInput) (unresolved : Unresolved)
      → Points chain ps unresolved
      → Good chain sv ps inputs
      → Keeps (resolve_if_any sv inputs unresolved)
  unfolding resolve_if_any
  resolve_if_any-Good inputs [] at g = Ensures-return inputs g
  resolve_if_any-Good inputs (u ∷ unresolved) at g =
      resolve_unresolved_prevouts-Good inputs (u ∷ unresolved) at g

module _ {T P R : Type 0} (chain : Chain) (sv : Services T P R)
    (honest : IsHonest chain sv.rpc) where
  -- Where the node is honest and the caches are true, enriching a true transaction gives a true one,
  -- and leaves the caches true.
  pub enrich_tx_node-Faithful :
      (txid : Txid) (tx : TxNode)
      → FaithfulAt chain txid tx
      → Ensures (CacheFaithful chain sv) (enrich_tx_node sv tx) (FaithfulAt chain txid)
  unfolding enrich_tx_node
  enrich_tx_node-Faithful txid tx (is_txid, f) =
      let ps = prevouts tx.inputs in
      Ensures-then (build_inputs_initial-Faithful chain sv ps 0 tx.inputs (From-all ps) f.inputs)
        (λ first i.
          Ensures-then (resolve_if_any-Good chain sv honest ps first.0 first.1 i.1 i.0) (λ inputs g.
            Ensures-return (record tx { inputs = inputs })
              (
                is_txid,
                record {
                  original = f.original;
                  known = f.known;
                  outputs = f.outputs;
                  spends = g.0 ∙ f.spends;
                  inputs = g.1;
                },
              )))
