-- ===== src/Server/Enrichment/Described.antt =====
-- The enrichment of a transaction and the labels of a reference (crates/cory/src/server/graph.rs,
-- crates/cory-core/src/enrich.rs) are what they stand for.
use cory.Base.{
  ℕ, ◌≡◌, ◌≢◌, refl, sym, ap, ◌<◌, ◌↔◌, inl, inr, true, ltb, nat_beq, Option, none, some, List, [],
  ◌∷◌, Memᴰ, arith, Bool-cases, Option-cases, subst,
}
use mathlib.Core.List.Memᴰ
use cory.Base.Map.{get}
use cory.Base.Text.{Text}
use cory.Types.{TxInput, TxNode}
use cory.Enrich.{any_below, is_rbf_signaling, locktime_info, compute_fee, compute_feerate}
use cory.Enrich.Fees.{compute_fee-HasFee}
use cory.Labels.{Bip329Type, Bip329Record, LabelFile, key_eq}
use cory.Labels.Store.{LabelStore, list_files, labels_in, get_all_labels_for}
use cory.Server.Enrichment.{
  LabelEntry, Context, to_label_entries, labels_for, rate_of, enrichment_of,
}
use cory.Server.Enrichment.Claims.{InStore, HasBelow, IsLocktime, ShowsLabels, IsRate, Describes}

any_below-HasBelow :
    (bound : ℕ) (inputs : List TxInput) → any_below bound inputs ≡ true → HasBelow bound inputs
any_below-HasBelow bound [] h = cc h
any_below-HasBelow bound (i ∷ inputs) h = elim (Bool-cases (ltb i.sequence bound)) [
  | inl small ↦ record { input = i; there = Memᴰ.head refl; below = ground (arith, small) }
  | inr large ↦
      let rest = any_below-HasBelow bound inputs (rw large at h) in
      record { input = rest.input; there = Memᴰ.tail rest.there; below = rest.below }
]

HasBelow-any_below :
    (bound : ℕ) (inputs : List TxInput) (i : TxInput)
    → Memᴰ i inputs
    → i.sequence < bound
    → any_below bound inputs ≡ true
HasBelow-any_below bound [] i at small = elim at [ ]
HasBelow-any_below bound (j ∷ inputs) i (Memᴰ.head is) small =
    let same : i.sequence ≡ j.sequence = ap (λ (x : TxInput). x.sequence) is in
    ground (arith, same, small)
HasBelow-any_below bound (j ∷ inputs) i (Memᴰ.tail at) small =
    ground (arith, HasBelow-any_below bound inputs i at small)

any_below_iff :
    (bound : ℕ) (inputs : List TxInput) → (any_below bound inputs ≡ true) ↔ HasBelow bound inputs
any_below_iff bound inputs =
    (any_below-HasBelow bound inputs, λ h. HasBelow-any_below bound inputs h.input h.there h.below)

locktime_info-IsLocktime :
    (node : TxNode)
    → IsLocktime node (locktime_info node.locktime (any_below 0xffffffff node.inputs))
unfolding locktime_info
locktime_info-IsLocktime node =
    let law = any_below_iff 0xffffffff node.inputs in
    elim (Bool-cases (nat_beq node.locktime 0)) [
      | inl zero_time ↦ rw zero_time (record {
        raw = ground (arith, zero_time);
        kind = ground (arith, zero_time);
        active = ((λ e. cc e), (λ h. absurd (ground (arith, zero_time, h.0))));
      })
      | inr some_time ↦ rw some_time (record {
        raw = refl;
        kind = elim (Bool-cases (ltb node.locktime 500000000)) [
          | inl height ↦ rw height (ground (arith, some_time), ground (arith, height))
          | inr time ↦ rw time (ground (arith, time))
        ];
        active = ((λ e. (ground (arith, some_time), law.0 e)), (λ h. law.1 h.1));
      })
    ]

-- The labels of a list of files.
module _ (kind : Bip329Type) (ref_id : Text) where
  abbrev entry_of : LabelFile → Bip329Record → LabelEntry
  entry_of f r = record {
    file_id = f.id;
    file_name = f.name;
    file_kind = f.kind;
    editable = f.editable;
    label = r.label;
  }

  abbrev entries_in : List LabelFile → List LabelEntry
  entries_in fs = to_label_entries (labels_in (kind, ref_id) fs)

  record LabelIn (fs : List LabelFile) (e : LabelEntry) : Type 0 where
    file : LabelFile
    rec : Bip329Record
    there : Memᴰ file fs
    has_label : get file.labels (kind, ref_id) ≡ some rec
    shows : e ≡ entry_of file rec

  later_file :
      (f : LabelFile) (fs : List LabelFile) (e : LabelEntry) → LabelIn fs e → LabelIn (f ∷ fs) e
  later_file f fs e h = record {
    file = h.file;
    rec = h.rec;
    there = Memᴰ.tail h.there;
    has_label = h.has_label;
    shows = h.shows;
  }

  first_or_later :
      (f : LabelFile) (r : Bip329Record) (fs : List LabelFile) (e : LabelEntry)
      → get f.labels (kind, ref_id) ≡ some r
      → (Memᴰ e (entries_in fs) → LabelIn fs e)
      → Memᴰ e (entry_of f r ∷ entries_in fs)
      → LabelIn (f ∷ fs) e
  first_or_later f r fs e found rest (Memᴰ.head is) = record {
    file = f;
    rec = r;
    there = Memᴰ.head refl;
    has_label = found;
    shows = is;
  }
  first_or_later f r fs e found rest (Memᴰ.tail at) = later_file f fs e (rest at)

  entries_in-missing :
      (f : LabelFile) (fs : List LabelFile)
      → get f.labels (kind, ref_id) ≡ none
      → entries_in (f ∷ fs) ≡ entries_in fs
  entries_in-missing f fs missing =
      ap
        (λ (o : Option Bip329Record). to_label_entries (elim o [
          | none ↦ labels_in (kind, ref_id) fs
          | some r ↦ (f, r) ∷ labels_in (kind, ref_id) fs
        ]))
        missing

  entries_in-found :
      (f : LabelFile) (r : Bip329Record) (fs : List LabelFile)
      → get f.labels (kind, ref_id) ≡ some r
      → entries_in (f ∷ fs) ≡ entry_of f r ∷ entries_in fs
  entries_in-found f r fs found =
      ap
        (λ (o : Option Bip329Record). to_label_entries (elim o [
          | none ↦ labels_in (kind, ref_id) fs
          | some q ↦ (f, q) ∷ labels_in (kind, ref_id) fs
        ]))
        found

  entries_in-LabelIn :
      (fs : List LabelFile) (e : LabelEntry) → Memᴰ e (entries_in fs) → LabelIn fs e
  entries_in-LabelIn [] e at = elim at [ ]
  entries_in-LabelIn (f ∷ fs) e at = elim (Option-cases (get f.labels (kind, ref_id))) [
    | inl missing ↦
        later_file f fs e
          (entries_in-LabelIn fs e (subst (Memᴰ e) (entries_in-missing f fs missing) at))
    | inr (r, found) ↦
        first_or_later f r fs e found (entries_in-LabelIn fs e)
          (subst (Memᴰ e) (entries_in-found f r fs found) at)
  ]

  in_entries :
      (fs : List LabelFile) (f : LabelFile) (r : Bip329Record)
      → Memᴰ f fs
      → get f.labels (kind, ref_id) ≡ some r
      → Memᴰ (entry_of f r) (entries_in fs)
  in_entries [] f r at found = elim at [ ]
  in_entries (g ∷ fs) f r (Memᴰ.head is) found =
      let there : get g.labels (kind, ref_id) ≡ some r =
        subst (λ (x : LabelFile). get x.labels (kind, ref_id) ≡ some r) is found in
      subst (Memᴰ (entry_of f r)) (sym (entries_in-found g r fs there))
        (Memᴰ.head (ap (λ x. entry_of x r) is))
  in_entries (g ∷ fs) f r (Memᴰ.tail at) found =
      let rest = in_entries fs f r at found in
      elim (Option-cases (get g.labels (kind, ref_id))) [
        | inl missing ↦ subst (Memᴰ (entry_of f r)) (sym (entries_in-missing g fs missing)) rest
        | inr (q, there) ↦
            subst (Memᴰ (entry_of f r)) (sym (entries_in-found g q fs there)) (Memᴰ.tail rest)
      ]

-- The three lists one after another.
listed-InStore : (f : LabelFile) (s : LabelStore) → Memᴰ f (list_files s) → InStore f s
listed-InStore f s at = elim (Memᴰ.append_cases s.persistent_rw_files at) [
  | inl rw_file ↦ inl rw_file
  | inr others ↦ inr (Memᴰ.append_cases s.browser_rw_files others)
]

InStore-listed : (f : LabelFile) (s : LabelStore) → InStore f s → Memᴰ f (list_files s)
InStore-listed f s (inl at) = Memᴰ.append_left _ at
InStore-listed f s (inr (inl at)) = Memᴰ.append_right s.persistent_rw_files (Memᴰ.append_left _ at)
InStore-listed f s (inr (inr at)) =
    Memᴰ.append_right s.persistent_rw_files (Memᴰ.append_right s.browser_rw_files at)

module _ {R : Type 0} (ctx : Context R) where
  pub labels_for-ShowsLabels :
      (kind : Bip329Type) (ref_id : Text)
      → labels_for ctx kind ref_id ≢ []
      → ShowsLabels ctx kind ref_id (labels_for ctx kind ref_id)
  unfolding get_all_labels_for
  labels_for-ShowsLabels kind ref_id some_label = record {
    some_label = some_label;
    sound = λ e at.
        let h = entries_in-LabelIn kind ref_id (list_files ctx.store) e at in
        record {
          file = h.file;
          rec = h.rec;
          in_store = listed-InStore h.file ctx.store h.there;
          has_label = h.has_label;
          shows = h.shows;
        };
    whole = λ e h.
        subst (λ x. Memᴰ x (labels_for ctx kind ref_id)) (sym h.shows)
          (in_entries kind ref_id (list_files ctx.store) h.file h.rec
            (InStore-listed h.file ctx.store h.in_store) h.has_label);
  }

  rate_of-IsRate : (vsize : ℕ) (fee : Option ℕ) → IsRate ctx vsize fee (rate_of ctx fee vsize)
  unfolding compute_feerate
  rate_of-IsRate vsize none = refl
  rate_of-IsRate vsize (some fee) = elim (Bool-cases (nat_beq vsize 0)) [
    | inl empty ↦ inl (ground (arith, empty), (rw empty refl))
    | inr sized ↦ inr (ground (arith, sized), (rw sized refl))
  ]

  pub enrichment_of-Describes : (node : TxNode) → Describes ctx node (enrichment_of ctx node)
  unfolding enrichment_of is_rbf_signaling
  enrichment_of-Describes node = record {
    fee = compute_fee-HasFee node;
    rate = rate_of-IsRate node.vsize (compute_fee node);
    rbf = any_below_iff 0xfffffffe node.inputs;
    locktime = locktime_info-IsLocktime node;
  }
