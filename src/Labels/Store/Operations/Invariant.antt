-- ===== src/Labels/Store/Operations/Invariant.antt =====
-- What every operation of the label store keeps (crates/cory-core/src/labels/store.rs).
use cory.Base.{
  ◌≡◌, refl, ◌∙◌, ap, true, Option, none, some, List, [], ◌∷◌, ◌++◌, arith, All-append, All-mono,
  Bool-cases, Option-cases, inl, inr,
}
use cory.Base.Map.{Map}
use cory.Base.Text.{Text, trim, is_empty, text_eq}
use cory.Error.{Result}
use cory.Labels.{Bip329Type, Bip329Record, LabelKey, LabelFile, StoreResult, ok, err, is_browser}
use cory.Labels.Jsonl.{Json, ParsedLocalFileName, parse_local_file_name, parse_jsonl_records}
use cory.Labels.Store.{
  FileSystem, LabelStore, list_files, find_file_by_id, create_parsed, create_browser_file,
  import_labels, import_parsed, import_browser_file, replace_labels, replace_found,
  replace_browser_file_content, remove_found, remove_browser_file, write_and_flush, edit_found,
  set_label, delete_label,
}
use cory.Labels.Store.Files.{find_file-All, occurrences-remove_first, All-remove_first}
use cory.Labels.Store.Operations.{
  Operation, create, import_file, replace, remove_file, set_one, delete_one, apply, run,
}
use cory.Labels.Store.WellFormed.{
  IsRw, IsBrowser, IsRo, IsWellFormed, Safe, Safe-same, push_new-Safe, write_labels-Safe,
}

-- What each operation does to the store.
module _ (s : LabelStore) (h : IsWellFormed s) where
  create_parsed-Safe : (p : StoreResult ParsedLocalFileName) → Safe s (create_parsed p s).1
  unfolding create_parsed
  create_parsed-Safe (err e) = Safe-same s h
  create_parsed-Safe (ok parsed) = elim (Option-cases (find_file_by_id s parsed.id)) [
    | inl new ↦ rw (new, create_parsed) (push_new-Safe parsed [] s new h)
    | inr (f, found) ↦ rw (found, create_parsed) (Safe-same s h)
  ]

  remove_found-Safe : (id : Text) (found : Option LabelFile) → Safe s (remove_found id found s).1
  unfolding remove_found
  remove_found-Safe id none = Safe-same s h
  remove_found-Safe id (some f) = elim (Bool-cases (is_browser f.kind)) [
    | inl holds ↦ rw holds (record {
      well_formed = record {
        rw_files = h.rw_files;
        browser_files = All-remove_first IsBrowser id s.browser_rw_files h.browser_files;
        ro_files = h.ro_files;
        unique = λ j. omega (arith, h.unique j, occurrences-remove_first id j s.browser_rw_files);
      };
      read_only = refl;
    })
    | inr fails ↦ rw fails (Safe-same s h)
  ]

  module _ (json : Json) where
    import_labels-Safe :
        (parsed : ParsedLocalFileName) (r : Result (Map LabelKey Bip329Record))
        → find_file_by_id s parsed.id ≡ none
        → Safe s (import_labels json parsed r s).1
    unfolding import_labels
    import_labels-Safe parsed (Result.err e) new = Safe-same s h
    import_labels-Safe parsed (Result.ok labels) new = push_new-Safe parsed labels s new h

    import_parsed-Safe :
        (p : StoreResult ParsedLocalFileName) (content : Text)
        → Safe s (import_parsed json p content s).1
    unfolding import_parsed
    import_parsed-Safe (err e) content = Safe-same s h
    import_parsed-Safe (ok parsed) content = elim (Option-cases (find_file_by_id s parsed.id)) [
      | inl new ↦
          rw (new, import_parsed) (import_labels-Safe parsed (parse_jsonl_records json content) new)
      | inr (f, found) ↦ rw (found, import_parsed) (Safe-same s h)
    ]

    replace_labels-Safe :
        (id : Text) (r : Result (Map LabelKey Bip329Record)) (f : LabelFile)
        → find_file_by_id s id ≡ some f
        → f.editable ≡ true
        → Safe s (replace_labels json id r s).1
    unfolding replace_labels
    replace_labels-Safe id (Result.err e) f found editable = Safe-same s h
    replace_labels-Safe id (Result.ok labels) f found editable =
        write_labels-Safe id labels s f found editable h

    -- A file of the store that is a browser file is editable.
    browser-editable :
        (id : Text) (f : LabelFile)
        → find_file_by_id s id ≡ some f
        → is_browser f.kind ≡ true
        → f.editable ≡ true
    unfolding is_browser
    browser-editable id f found browser =
        let Q : LabelFile → Type 0 = λ g. is_browser g.kind ≡ true → g.editable ≡ true in
        let rw_files = All-mono IsRw Q s.persistent_rw_files (λ g k b. k.1) h.rw_files in
        let browser_files =
          All-mono IsBrowser Q s.browser_rw_files (λ g k b. k.1) h.browser_files in
        let ro_files =
          All-mono IsRo Q s.persistent_ro_files (λ g k b. cc (b, ap is_browser k.0)) h.ro_files in
        find_file-All Q id (list_files s) f
          (All-append Q s.persistent_rw_files (s.browser_rw_files ++ s.persistent_ro_files) rw_files
            (All-append Q s.browser_rw_files s.persistent_ro_files browser_files ro_files))
          found browser

    replace_found-Safe :
        (id : Text) (found : Option LabelFile) (content : Text)
        → find_file_by_id s id ≡ found
        → Safe s (replace_found json id found content s).1
    unfolding replace_found
    replace_found-Safe id none content found = Safe-same s h
    replace_found-Safe id (some f) content found = elim (Bool-cases (is_browser f.kind)) [
      | inl holds ↦ rw holds (
          replace_labels-Safe id (parse_jsonl_records json content) f found
            (browser-editable id f found holds))
      | inr fails ↦ rw fails (Safe-same s h)
    ]

    module _ {D : Type 0} (fs : FileSystem D) (d : D) where
      edit_found-Safe :
          (id : Text) (found : Option LabelFile)
          (edit : Map LabelKey Bip329Record → Map LabelKey Bip329Record)
          → find_file_by_id s id ≡ found
          → Safe s (edit_found json fs id found edit s d).1
      unfolding edit_found write_and_flush
      edit_found-Safe id none edit found = Safe-same s h
      edit_found-Safe id (some f) edit found = elim (Bool-cases f.editable) [
        | inl holds ↦ rw holds (write_labels-Safe id (edit f.labels) s f found holds h)
        | inr fails ↦ rw fails (Safe-same s h)
      ]

      pub set_one-Safe :
          (id : Text) (t : Bip329Type) (ref_id label : Text)
          → Safe s (set_label json fs id t ref_id label s d).1
      unfolding set_label
      set_one-Safe id t ref_id label = elim (Bool-cases (is_empty (trim ref_id))) [
        | inl no_ref ↦ rw no_ref (Safe-same s h)
        | inr has_ref ↦ elim (Bool-cases (is_empty (trim label))) [
          | inl no_label ↦ rw (has_ref, no_label) (Safe-same s h)
          | inr has_label ↦
              rw (has_ref, has_label) (edit_found-Safe id (find_file_by_id s id) _ refl)
        ]
      ]

module _ (s : LabelStore) (h : IsWellFormed s) where
  pub create-Safe : (name : Text) → Safe s (create_browser_file name s).1
  unfolding create_browser_file
  create-Safe name = create_parsed-Safe s h (parse_local_file_name name)

  pub remove_file-Safe : (id : Text) → Safe s (remove_browser_file id s).1
  unfolding remove_browser_file
  remove_file-Safe id = remove_found-Safe s h id (find_file_by_id s id)

  module _ (json : Json) where
    pub import_file-Safe :
        (name content : Text) → Safe s (import_browser_file json name content s).1
    unfolding import_browser_file
    import_file-Safe name content = import_parsed-Safe s h json (parse_local_file_name name) content

    pub replace-Safe :
        (id content : Text) → Safe s (replace_browser_file_content json id content s).1
    unfolding replace_browser_file_content
    replace-Safe id content = replace_found-Safe s h json id (find_file_by_id s id) content refl

    module _ {D : Type 0} (fs : FileSystem D) (d : D) where
      pub delete_one-Safe :
          (id : Text) (t : Bip329Type) (ref_id : Text)
          → Safe s (delete_label json fs id t ref_id s d).1
      unfolding delete_label
      delete_one-Safe id t ref_id = edit_found-Safe s h json fs d id (find_file_by_id s id) _ refl

module _ (json : Json) {D : Type 0} (fs : FileSystem D) where
  apply-Safe :
      (op : Operation) (s : LabelStore) (d : D)
      → IsWellFormed s
      → Safe s (apply json fs op (s, d)).0
  unfolding apply
  apply-Safe (create name) s d h = create-Safe s h name
  apply-Safe (import_file name content) s d h = import_file-Safe s h json name content
  apply-Safe (replace id content) s d h = replace-Safe s h json id content
  apply-Safe (remove_file id) s d h = remove_file-Safe s h id
  apply-Safe (set_one id t ref_id label) s d h = set_one-Safe s h json fs d id t ref_id label
  apply-Safe (delete_one id t ref_id) s d h = delete_one-Safe s h json fs d id t ref_id

  -- A well-formed store (the files of each list have its kind, editable flag and source path, and no
  -- two files have the same id) stays well-formed under any sequence of operations, and the files
  -- that were loaded read-only stay exactly as they are. This holds whatever the file system and the
  -- JSON library do, and also where operations fail.
  pub run-Safe :
      (ops : List Operation) (s : LabelStore) (d : D)
      → IsWellFormed s
      → Safe s (run json fs ops (s, d)).0
  unfolding run
  run-Safe [] s d h = Safe-same s h
  run-Safe (op ∷ ops) s d h =
      let (s', d') = apply json fs op (s, d) in
      let first = apply-Safe op s d h in
      let others = run-Safe ops s' d' first.well_formed in
      record { well_formed = others.well_formed; read_only = others.read_only ∙ first.read_only }
