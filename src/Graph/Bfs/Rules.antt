-- ===== src/Graph/Bfs/Rules.antt =====
-- Induction rules for the loops of build_ancestry (crates/cory-core/src/graph.rs).
use cory.Base.{
  ℕ, zero, suc, ◌≡◌, refl, subst, ◌⊎◌, inl, inr, true, List, [], ◌∷◌, arith, length, Bool-cases,
  List-cases, ap, false, ◌+◌, ◌<◌, ◌≤◌, leb, ltb, contains, nat_eq, Each,
}
use cory.Exec.{Exec, done, bind_done, pure, Ensures, Ensures-bind, Ensures-pure}
use cory.Types.{Txid, TxNode, GraphLimits}
use cory.Graph.Bfs.{
  Bfs, Queue, Verdict, verdict, advance, stops, drain, process, insert_node, add_edges, note_depth,
  txids, level, expand, loop,
}

advance-queue :
    (v : Verdict) (t : Txid) (d : ℕ) (rest : Queue) (s : Bfs) (f : Queue)
    → (advance v t d rest s f).0.queue ≡ rest
unfolding advance
advance-queue Verdict.seen t d rest s f = refl
advance-queue _ t d rest s f = refl

stops-truncated :
    (v : Verdict) (t : Txid) (d : ℕ) (rest : Queue) (s : Bfs) (f : Queue)
    → stops v ≡ true
    → (advance v t d rest s f).0.truncated ≡ true
unfolding advance stops
stops-truncated Verdict.node_limit t d rest s f h = refl
stops-truncated _ t d rest s f h = ground arith

-- What each verdict says of the popped entry.
pub data View (lim : GraphLimits) (s : Bfs) (f : Queue) (t : Txid) (d : ℕ) : Verdict → Type 0 where
  seen : contains s.visited t ≡ true → View lim s f t d Verdict.seen
  node_limit : View lim s f t d Verdict.node_limit
  too_deep : View lim s f t d Verdict.too_deep
  edge_limit : View lim s f t d Verdict.edge_limit
  accept :
      contains s.visited t ≡ false
      → length s.nodes + length f < lim.max_nodes
      → d ≤ lim.max_depth
      → length s.edges < lim.max_edges
      → View lim s f t d Verdict.accept

pub view :
    (lim : GraphLimits) (s : Bfs) (f : Queue) (t : Txid) (d : ℕ)
    → View lim s f t d (verdict lim s f t d)
unfolding verdict
view lim s f t d = elim (Bool-cases (contains s.visited t)) [
  | inl old ↦ rw old (View.seen old)
  | inr new ↦ elim (Bool-cases (leb lim.max_nodes (length s.nodes + length f))) [
    | inl full ↦ rw (new, full) View.node_limit
    | inr room ↦ elim (Bool-cases (ltb lim.max_depth d)) [
      | inl deep ↦ rw (new, room, deep) View.too_deep
      | inr shallow ↦ elim (Bool-cases (leb lim.max_edges (length s.edges))) [
        | inl full ↦ rw (new, room, shallow, full) View.edge_limit
        | inr few ↦
            rw (new, room, shallow, few)
              (View.accept new (ground arith) (ground arith) (ground arith))
      ]
    ]
  ]
]

-- A predicate on the state and the nodes that are visited and not yet processed.
module _ {ℓ} (lim : GraphLimits) (P : Bfs → Queue → Type ℓ) where
  abbrev pub KeepsOffer : Type ℓ
  KeepsOffer =
      (s : Bfs) (f : Queue) (t : Txid) (d : ℕ) (rest : Queue)
      → s.queue ≡ (t, d) ∷ rest
      → P s f
      → P (advance (verdict lim s f t d) t d rest s f).0
          (advance (verdict lim s f t d) t d rest s f).1

  -- `Good` is what the fetched node of a txid is known to be.
  abbrev pub KeepsGood : (Txid → TxNode → Type 0) → Type ℓ
  KeepsGood Good =
      (s : Bfs) (t : Txid) (d : ℕ) (f : Queue) (node : TxNode)
      → Good t node
      → P s ((t, d) ∷ f)
      → P (insert_node t node (add_edges lim t d node (note_depth d s))) f

  abbrev pub KeepsNode : Type ℓ
  KeepsNode =
      (s : Bfs) (t : Txid) (d : ℕ) (f : Queue) (node : TxNode)
      → P s ((t, d) ∷ f)
      → P (insert_node t node (add_edges lim t d node (note_depth d s))) f

  pub drain_rule :
      KeepsOffer
      → (q : Queue) (s : Bfs) (f : Queue) → s.queue ≡ q
      → P s f
      → P (drain lim q s f).0 (drain lim q s f).1
  unfolding drain
  drain_rule keep [] s f e p = p
  drain_rule keep ((t, d) ∷ rest) s f e p =
      let v = verdict lim s f t d in
      let next = advance v t d rest s f in
      let kept = keep s f t d rest e p in
      elim (Bool-cases (stops v)) [
        | inl stop ↦ rw (stop, drain) kept
        | inr on ↦
            rw (on, drain) (drain_rule keep rest next.0 next.1 (advance-queue v t d rest s f) kept)
      ]

  pub process_rule :
      (Good : Txid → TxNode → Type 0)
      → KeepsGood Good
      → (f : Queue) (fetched : List TxNode) (s : Bfs) → Each Good (txids f) fetched
      → P s f
      → P (process lim f fetched s) []
  unfolding process
  process_rule Good keep [] fetched s e p = p
  process_rule Good keep (x ∷ f) [] s e p = absurd e
  process_rule Good keep ((t, d) ∷ f) (node ∷ fetched) s e p =
      process_rule Good keep f fetched _ e.1 (keep s t d f node e.0 p)

-- The drain ends with an empty queue, or it has been cut short.
pub drain_ends :
    (lim : GraphLimits) (q : Queue) (s : Bfs) (f : Queue)
    → s.queue ≡ q
    → ((drain lim q s f).0.queue ≡ []) ⊎ ((drain lim q s f).0.truncated ≡ true)
unfolding drain
drain_ends lim [] s f e = inl e
drain_ends lim ((t, d) ∷ rest) s f e =
    let v = verdict lim s f t d in
    let next = advance v t d rest s f in
    elim (Bool-cases (stops v)) [
      | inl stop ↦ rw (stop, drain) (inr (stops-truncated v t d rest s f stop))
      | inr on ↦ rw (on, drain) (drain_ends lim rest next.0 next.1 (advance-queue v t d rest s f))
    ]

-- `fetch` keeps the invariant of the world and answers for each txid in its place.
abbrev pub Answers :
    {W : Type 0}
    → (W → Type 0)
    → (Txid → TxNode → Type 0)
    → (List Txid → Exec W (List TxNode))
    → Type 0
Answers I Good fetch = (ids : List Txid) → Ensures I (fetch ids) (Each Good ids)

-- At the end of the search the queue is empty, or the search has been cut short.
abbrev pub Ended {ℓ} : (Bfs → Queue → Type ℓ) → Bfs → Type ℓ
Ended P t = P t [] × ((t.queue ≡ []) ⊎ (t.truncated ≡ true))

-- What every round keeps holds of the state that the search returns.
module _ {ℓ} {W : Type 0} (I : W → Type 0) (Good : Txid → TxNode → Type 0)
    (fetch : List Txid → Exec W (List TxNode)) (lim : GraphLimits) (answers : Answers I Good fetch)
    (P : Bfs → Queue → Type ℓ) (offer : KeepsOffer lim P) (node : KeepsGood lim P Good) where
  level_rule :
      (f : Queue) (s s' : Bfs) (w w' : W)
      → I w
      → level fetch lim f s w ≡ (done s', w')
      → P s f
      → P s' []
  unfolding level
  level_rule f s s' w w' i h p =
      let (fetched, returned, rest) = bind_done _ (fetch (txids f)) w h in
      let good = (answers (txids f)).returns w fetched i returned in
      subst (λ x. P x []) (cc rest) (process_rule lim P Good node f fetched s good p)

  level_keeps : (f : Queue) (s : Bfs) (w : W) → I w → I (level fetch lim f s w).1
  unfolding level
  level_keeps f s w i =
      (Ensures-bind I (λ fetched. pure (process lim f fetched s)) (λ _. Unit) (λ _. Unit)
          (λ fetched _. Ensures-pure I (process lim f fetched s) (λ _. Unit) tt) (fetch (txids f))
          (record { keeps = (answers (txids f)).keeps; returns = λ _ _ _ _. tt })).keeps
        w i

  expand_rule :
      (k : Bfs → Exec W Bfs) (f : Queue) (s t : Bfs) (w w' : W)
      → I w
      → ((s' : Bfs) (u : W) → I u → P s' [] → k s' u ≡ (done t, w') → Ended P t)
      → (s.queue ≡ []) ⊎ (s.truncated ≡ true)
      → P s f
      → expand fetch lim k s f w ≡ (done t, w')
      → Ended P t
  unfolding expand
  expand_rule k [] s t w w' i rest ended p h = subst (Ended P) (cc h) (p, ended)
  expand_rule k (x ∷ f) s t w w' i rest ended p h =
      let (s', returned, h') = bind_done k (level fetch lim (x ∷ f) s) w h in
      rest s' (level fetch lim (x ∷ f) s w).1 (level_keeps (x ∷ f) s w i)
        (level_rule (x ∷ f) s s' w _ i (ap (λ r. (r, (level fetch lim (x ∷ f) s w).1)) returned) p)
        h'

  pub loop_rule :
      (fuel : ℕ) (s t : Bfs) (w w' : W)
      → I w
      → P s []
      → loop fetch lim fuel s w ≡ (done t, w')
      → Ended P t
  unfolding loop
  loop_rule zero s t w w' i p h = elim (List-cases s.queue) [
    | inl empty ↦ subst (Ended P) (cc (rw (empty, loop) at h)) (p, inl empty)
    | inr (x, rest, e) ↦ cc (rw (e, loop) at h)
  ]
  loop_rule (suc fuel) s t w w' i p h = elim (List-cases s.queue) [
    | inl empty ↦ subst (Ended P) (cc (rw (empty, loop) at h)) (p, inl empty)
    | inr (x, rest, e) ↦
        let (s', f) = drain lim s.queue s [] in
        expand_rule (loop fetch lim fuel) f s' t w w' i
          (λ s'' u i'' p'' h''. loop_rule fuel s'' t u w' i'' p'' h'')
          (drain_ends lim s.queue s [] refl) (drain_rule lim P offer s.queue s [] refl p)
          (rw (e, loop) at h)
  ]
