-- ===== src/Labels/Store/Writes.antt =====
-- What a label that set_label has written is read back as (crates/cory-core/src/labels/store.rs).
use cory.Base.{
  ◌≡◌, ◌≢◌, refl, sym, ◌∙◌, ap, true, false, Option, none, some, List, [], ◌∷◌, ◌++◌, arith,
  if◌then◌else◌, ◌==◌, ==_iff, contains, Bool-cases, inl, inr,
}
use cory.Base.Map.{Map, get, insert, get-insert}
use cory.Base.Text.{Text, trim, is_empty, text_eq}
use cory.Labels.{Bip329Type, Bip329Record, LabelKey, LabelFile, ok, key_eq}
use cory.Labels.Jsonl.{Json}
use cory.Labels.Store.{
  FileSystem, LabelStore, ids, find_file, find_file_by_id, update_first, write_labels, edit_found,
  write_and_flush, set_label,
}
use cory.Labels.Store.Files.{
  with_labels, with_labels_at, find_file-append, find_file-update_first, ids-update_first,
}

-- The three lists are searched in their order of precedence.
abbrev first_of : Text → List LabelFile → List LabelFile → List LabelFile → Option LabelFile
first_of id a b c =
    if contains (ids a) id
    then find_file id a
    else if contains (ids b) id
    then find_file id b
    else find_file id c

find_file-first_of :
    (id : Text) (a b c : List LabelFile) → find_file id (a ++ (b ++ c)) ≡ first_of id a b c
find_file-first_of id a b c =
    ground (arith, find_file-append id a (b ++ c), find_file-append id b c)

other-update_first :
    (id j : Text) (labels : Map LabelKey Bip329Record) (xs : List LabelFile)
    → (id == j) ≡ false
    → find_file j (update_first id labels xs) ≡ find_file j xs
other-update_first id j labels [] other = refl
other-update_first id j labels (x ∷ xs) other =
    ground
      (arith, other-update_first id j labels xs other, ==_iff id j, ==_iff x.id id, ==_iff x.id j)

module _ (id : Text) (labels : Map LabelKey Bip329Record) (s : LabelStore) where
  -- A write is seen under its id.
  find-write_labels :
      find_file_by_id (write_labels id labels s) id ≡ with_labels_at labels (find_file_by_id s id)
  find-write_labels =
      let a = s.persistent_rw_files in
      let b = s.browser_rw_files in
      let c = s.persistent_ro_files in
      let before = find_file-first_of id a b c in
      elim (Bool-cases (contains (ids a) id)) [
        | inl in_a ↦
            let after = find_file-first_of id (update_first id labels a) b c in
            rw in_a (
              after
              ∙ (rw (ids-update_first id labels a, in_a)
                  (find_file-update_first id labels a
                    ∙ ap (with_labels_at labels) (sym (rw in_a at before)))))
        | inr not_a ↦ elim (Bool-cases (contains (ids b) id)) [
          | inl in_b ↦
              let after = find_file-first_of id a (update_first id labels b) c in
              rw (not_a, in_b)
                (after
                  ∙ (rw (not_a, ids-update_first id labels b, in_b)
                      (find_file-update_first id labels b
                        ∙ ap (with_labels_at labels) (sym (rw (not_a, in_b) at before)))))
          | inr not_b ↦
              let after = find_file-first_of id a b (update_first id labels c) in
              rw (not_a, not_b)
                (after
                  ∙ (rw (not_a, not_b)
                      (find_file-update_first id labels c
                        ∙ ap (with_labels_at labels) (sym (rw (not_a, not_b) at before)))))
        ]
      ]

  -- A write is not seen under another id.
  find-write_labels_other :
      (j : Text)
      → (id == j) ≡ false
      → find_file_by_id (write_labels id labels s) j ≡ find_file_by_id s j
  find-write_labels_other j other =
      let a = s.persistent_rw_files in
      let b = s.browser_rw_files in
      let c = s.persistent_ro_files in
      let before = find_file-first_of j a b c in
      elim (Bool-cases (contains (ids a) id)) [
        | inl in_a ↦ rw in_a (
            find_file-first_of j (update_first id labels a) b c
            ∙ (rw (ids-update_first id labels a, other-update_first id j labels a other)
                (sym before)))
        | inr not_a ↦ elim (Bool-cases (contains (ids b) id)) [
          | inl in_b ↦
              rw (not_a, in_b)
                (find_file-first_of j a (update_first id labels b) c
                  ∙ (rw (ids-update_first id labels b, other-update_first id j labels b other)
                      (sym before)))
          | inr not_b ↦
              rw (not_a, not_b)
                (find_file-first_of j a b (update_first id labels c)
                  ∙ (rw (other-update_first id j labels c other) (sym before)))
        ]
      ]

-- After a successful set_label: the file has the label, without origin and spendable flag, its other
-- labels are as before, and so is every other file.
pub record IsWritten (id : Text) (t : Bip329Type) (ref_id label : Text) (s s' : LabelStore)
    : Type 0 where
  pub old : LabelFile
  pub new : LabelFile
  pub was : find_file_by_id s id ≡ some old
  pub is : find_file_by_id s' id ≡ some new
  pub was_editable : old.editable ≡ true
  pub has_ref : is_empty (trim ref_id) ≡ false
  pub has_label : is_empty (trim label) ≡ false
  pub reads :
      get new.labels (t, ref_id)
      ≡ some (record {
        label_type = t;
        ref_id = ref_id;
        label = label;
        origin = none;
        spendable = none;
      })
  pub others : (k : LabelKey) → (t, ref_id) ≢ k → get new.labels k ≡ get old.labels k
  pub other_files : (j : Text) → id ≢ j → find_file_by_id s' j ≡ find_file_by_id s j

module _ (json : Json) {D : Type 0} (fs : FileSystem D) (id : Text) (t : Bip329Type)
    (ref_id label : Text) (s : LabelStore) (d : D) where
  abbrev written_record : Bip329Record
  written_record = record {
    label_type = t;
    ref_id = ref_id;
    label = label;
    origin = none;
    spendable = none;
  }

  write_labels-IsWritten :
      (f : LabelFile)
      → find_file_by_id s id ≡ some f
      → f.editable ≡ true
      → is_empty (trim ref_id) ≡ false
      → is_empty (trim label) ≡ false
      → IsWritten id t ref_id label s
          (write_labels id (insert (t, ref_id) written_record f.labels) s)
  write_labels-IsWritten f found editable has_ref has_label =
      let labels = insert (t, ref_id) written_record f.labels in
      let key : LabelKey = (t, ref_id) in
      record {
        old = f;
        new = with_labels labels f;
        was = found;
        is = find-write_labels id labels s ∙ ap (with_labels_at labels) found;
        was_editable = editable;
        has_ref = has_ref;
        has_label = has_label;
        reads =
            let same : (key == key) ≡ true = (==_iff key key).1 refl in
            get-insert key key written_record f.labels ∙ (rw same refl);
        others = λ k other. elim (Bool-cases (key == k)) [
          | inl same ↦ absurd (other ((==_iff key k).0 same))
          | inr differ ↦ get-insert key k written_record f.labels ∙ (rw differ refl)
        ];
        other_files = λ j other. elim (Bool-cases (id == j)) [
          | inl same ↦ absurd (other ((==_iff id j).0 same))
          | inr differ ↦ find-write_labels_other id labels s j differ
        ];
      }

  edit_found-IsWritten :
      (found : Option LabelFile)
      → find_file_by_id s id ≡ found
      → is_empty (trim ref_id) ≡ false
      → is_empty (trim label) ≡ false
      → (edit_found json fs id found (insert (t, ref_id) written_record) s d).0 ≡ ok tt
      → IsWritten id t ref_id label s
          (edit_found json fs id found (insert (t, ref_id) written_record) s d).1
  unfolding edit_found write_and_flush
  edit_found-IsWritten none found has_ref has_label is_ok = cc
  edit_found-IsWritten (some f) found has_ref has_label is_ok = elim (Bool-cases f.editable) [
    | inl editable ↦ rw editable (write_labels-IsWritten f found editable has_ref has_label)
    | inr fixed ↦ absurd (cc (rw fixed at is_ok))
  ]

  -- Where set_label returns Ok, the reference and the label were not blank, the file was there and
  -- editable, and the file now has exactly this label under the type and the reference: its other
  -- labels, and all other files, are as before. This holds whatever the file system does.
  pub set_label-IsWritten :
      (set_label json fs id t ref_id label s d).0 ≡ ok tt
      → IsWritten id t ref_id label s (set_label json fs id t ref_id label s d).1
  unfolding set_label
  set_label-IsWritten is_ok = elim (Bool-cases (is_empty (trim ref_id))) [
    | inl no_ref ↦ cc (rw no_ref at is_ok)
    | inr has_ref ↦ elim (Bool-cases (is_empty (trim label))) [
      | inl no_label ↦ cc (rw (has_ref, no_label) at is_ok)
      | inr has_label ↦
          rw (has_ref, has_label)
            (edit_found-IsWritten (find_file_by_id s id) refl has_ref has_label
              (rw (has_ref, has_label) at is_ok))
    ]
  ]
