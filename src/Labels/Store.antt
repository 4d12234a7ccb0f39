-- ===== src/Labels/Store.antt =====
-- crates/cory-core/src/labels/store.rs: the label files in memory and their operations.
-- The file system is a parameter; its errors are their messages.
pub mod Files
pub mod Writes
pub mod WellFormed
pub mod Operations
use cory.Base.{true, not, Option, none, some, List, [], ◌∷◌, ◌++◌, if◌then◌else◌, ◌==◌, contains}
use cory.Base.Map.{Map, get, insert, remove}
use cory.Base.Text.{Text, trim, is_empty, text_eq}
use cory.Error.{io, Result}
use cory.Labels.{
  Bip329Type, Bip329Record, LabelKey, LabelFile, LabelFileKind, LabelStoreError, StoreResult, ok,
  err, is_browser, key_eq,
}
use cory.Labels.Jsonl.{
  Json, ParsedLocalFileName, parse_jsonl_records, export_map_to_jsonl, parse_local_file_name,
}

-- std::fs and std::path on a disk `D`; an error is on the left.
pub record FileSystem (D : Type 0) : Type 0 where
  pub parent : Text → Option Text
  pub create_dir_all : Text → D → Option Text × D
  pub write : Text → Text → D → Option Text × D

pub record LabelStore : Type 0 where
  pub persistent_rw_files : List LabelFile
  pub browser_rw_files : List LabelFile
  pub persistent_ro_files : List LabelFile

-- LabelStore::new
abbrev pub empty : LabelStore
empty = record { persistent_rw_files = []; browser_rw_files = []; persistent_ro_files = [] }

-- LabelStore::list_files
abbrev pub list_files : LabelStore → List LabelFile
list_files s = s.persistent_rw_files ++ (s.browser_rw_files ++ s.persistent_ro_files)

abbrev pub ids : List LabelFile → List Text
ids [] = []
ids (f ∷ files) = f.id ∷ ids files

-- LabelStore::all_ids
abbrev pub all_ids : LabelStore → List Text
all_ids s = ids (list_files s)

-- `find(|f| f.id == file_id)`
abbrev pub find_file : Text → List LabelFile → Option LabelFile
find_file file_id [] = none
find_file file_id (f ∷ files) = if f.id == file_id then some f else find_file file_id files

abbrev pub find_file_by_id : LabelStore → Text → Option LabelFile
find_file_by_id s file_id = find_file file_id (list_files s)

-- LabelStore::get_file
abbrev pub get_file : LabelStore → Text → Option LabelFile
get_file s file_id = find_file_by_id s file_id

-- A write to the first file with the id, in the order of the list.
abbrev pub update_first : Text → Map LabelKey Bip329Record → List LabelFile → List LabelFile
update_first file_id labels [] = []
update_first file_id labels (f ∷ files) =
    if f.id == file_id
    then record f { labels = labels } ∷ files
    else f ∷ update_first file_id labels files

-- What is written through the reference that LabelStore::find_file_mut returns.
abbrev pub write_labels : Text → Map LabelKey Bip329Record → LabelStore → LabelStore
write_labels file_id labels s =
    if contains (ids s.persistent_rw_files) file_id
    then record s { persistent_rw_files = update_first file_id labels s.persistent_rw_files }
    else if contains (ids s.browser_rw_files) file_id
    then record s { browser_rw_files = update_first file_id labels s.browser_rw_files }
    else record s { persistent_ro_files = update_first file_id labels s.persistent_ro_files }

pub push_new :
    ParsedLocalFileName → Map LabelKey Bip329Record → LabelStore → StoreResult Text × LabelStore
push_new parsed labels s = (
  ok parsed.id,
  record s {
    browser_rw_files =
        s.browser_rw_files
        ++ record {
          id = parsed.id;
          name = parsed.name;
          kind = LabelFileKind.browser_rw;
          editable = true;
          source_path = none;
          labels = labels;
        }
          ∷ [];
  },
)

pub create_parsed : StoreResult ParsedLocalFileName → LabelStore → StoreResult Text × LabelStore
create_parsed (err e) s = (err e, s)
create_parsed (ok parsed) s = elim (find_file_by_id s parsed.id) [
  | some f ↦ (err (LabelStoreError.duplicate_file_id parsed.id), s)
  | none ↦ push_new parsed [] s
]

unfoldable pub create_browser_file : Text → LabelStore → StoreResult Text × LabelStore
unfolding create_parsed push_new
create_browser_file name s = create_parsed (parse_local_file_name name) s

abbrev pub remove_first : Text → List LabelFile → List LabelFile
remove_first file_id [] = []
remove_first file_id (f ∷ files) = if f.id == file_id then files else f ∷ remove_first file_id files

pub remove_found : Text → Option LabelFile → LabelStore → StoreResult (Unit {0}) × LabelStore
remove_found file_id none s = (err (LabelStoreError.file_not_found file_id), s)
remove_found file_id (some f) s =
    if is_browser f.kind
    then (ok tt, record s { browser_rw_files = remove_first file_id s.browser_rw_files })
    else (err (LabelStoreError.not_browser_file file_id), s)

-- Its `expect` stands for an id that is found and a file that is not in the browser list.
unfoldable pub remove_browser_file : Text → LabelStore → StoreResult (Unit {0}) × LabelStore
unfolding remove_found is_browser
remove_browser_file file_id s = remove_found file_id (find_file_by_id s file_id) s

-- LabelStore::get_all_labels_for
abbrev pub labels_in : LabelKey → List LabelFile → List (LabelFile × Bip329Record)
labels_in key [] = []
labels_in key (f ∷ files) =
    let others = labels_in key files in
    elim (get f.labels key) [ none ↦ others | some r ↦ (f, r) ∷ others ]

unfoldable pub get_all_labels_for : Bip329Type → Text → LabelStore → List (LabelFile × Bip329Record)
get_all_labels_for label_type ref_id s = labels_in (label_type, ref_id) (list_files s)

module _ (json : Json) where
  pub import_labels :
      ParsedLocalFileName
      → Result (Map LabelKey Bip329Record)
      → LabelStore
      → StoreResult Text × LabelStore
  import_labels parsed (Result.err e) s = (err (LabelStoreError.core e), s)
  import_labels parsed (Result.ok labels) s = push_new parsed labels s

  pub import_parsed :
      StoreResult ParsedLocalFileName → Text → LabelStore → StoreResult Text × LabelStore
  import_parsed (err e) content s = (err e, s)
  import_parsed (ok parsed) content s = elim (find_file_by_id s parsed.id) [
    | some f ↦ (err (LabelStoreError.duplicate_file_id parsed.id), s)
    | none ↦ import_labels parsed (parse_jsonl_records json content) s
  ]

  unfoldable pub import_browser_file : Text → Text → LabelStore → StoreResult Text × LabelStore
  unfolding import_parsed import_labels push_new
  import_browser_file name content s = import_parsed (parse_local_file_name name) content s

  pub replace_labels :
      Text → Result (Map LabelKey Bip329Record) → LabelStore → StoreResult (Unit {0}) × LabelStore
  replace_labels file_id (Result.err e) s = (err (LabelStoreError.core e), s)
  replace_labels file_id (Result.ok labels) s = (ok tt, write_labels file_id labels s)

  pub replace_found :
      Text → Option LabelFile → Text → LabelStore → StoreResult (Unit {0}) × LabelStore
  replace_found file_id none content s = (err (LabelStoreError.file_not_found file_id), s)
  replace_found file_id (some f) content s =
      if is_browser f.kind
      then replace_labels file_id (parse_jsonl_records json content) s
      else (err (LabelStoreError.not_browser_file file_id), s)

  unfoldable pub replace_browser_file_content :
      Text → Text → LabelStore → StoreResult (Unit {0}) × LabelStore
  unfolding replace_found replace_labels is_browser
  replace_browser_file_content file_id content s =
      replace_found file_id (find_file_by_id s file_id) content s

  pub export_found : Text → Option LabelFile → StoreResult Text
  export_found file_id none = err (LabelStoreError.file_not_found file_id)
  export_found file_id (some f) = ok (export_map_to_jsonl json f.labels)

  unfoldable pub export_file : Text → LabelStore → StoreResult Text
  unfolding export_found
  export_file file_id s = export_found file_id (find_file_by_id s file_id)

  module _ {D : Type 0} (fs : FileSystem D) where
    pub write_result : Option Text × D → StoreResult (Unit {0}) × D
    write_result (none, d) = (ok tt, d)
    write_result (some message, d) = (err (LabelStoreError.core (io message)), d)

    pub write_after : Option Text × D → Text → Text → StoreResult (Unit {0}) × D
    write_after (none, d) path content = write_result (fs.write path content d)
    write_after (some message, d) path content = (err (LabelStoreError.core (io message)), d)

    pub make_parent : Option Text → D → Option Text × D
    make_parent none d = (none, d)
    make_parent (some dir) d = fs.create_dir_all dir d

    pub flush_to : Option Text → Map LabelKey Bip329Record → D → StoreResult (Unit {0}) × D
    flush_to none labels d = (ok tt, d)
    flush_to (some path) labels d =
        write_after (make_parent (fs.parent path) d) path (export_map_to_jsonl json labels)

    pub flush_found : Text → Option LabelFile → D → StoreResult (Unit {0}) × D
    flush_found file_id none d = (err (LabelStoreError.file_not_found file_id), d)
    flush_found file_id (some f) d = flush_to f.source_path f.labels d

    pub flush_file : LabelStore → Text → D → StoreResult (Unit {0}) × D
    flush_file s file_id d = flush_found file_id (find_file_by_id s file_id) d

    -- The write and the flush behind it, of set_label and of delete_label.
    pub write_and_flush :
        Text → Map LabelKey Bip329Record → LabelStore → D → StoreResult (Unit {0}) × LabelStore × D
    write_and_flush file_id labels s d =
        let s' = write_labels file_id labels s in
        let (r, d') = flush_file s' file_id d in (r, s', d')

    pub edit_found :
        Text
        → Option LabelFile
        → (Map LabelKey Bip329Record → Map LabelKey Bip329Record)
        → LabelStore
        → D
        → StoreResult (Unit {0}) × LabelStore × D
    edit_found file_id none edit s d = (err (LabelStoreError.file_not_found file_id), s, d)
    edit_found file_id (some f) edit s d =
        if not f.editable
        then (err (LabelStoreError.read_only_file file_id), s, d)
        else write_and_flush file_id (edit f.labels) s d

    unfoldable pub set_label :
        Text → Bip329Type → Text → Text → LabelStore → D → StoreResult (Unit {0}) × LabelStore × D
    unfolding edit_found write_and_flush flush_file flush_found flush_to make_parent write_after
        write_result
    set_label file_id label_type ref_id label s d =
        if is_empty (trim ref_id)
        then (err LabelStoreError.empty_ref, s, d)
        else if is_empty (trim label)
        then (err LabelStoreError.empty_label, s, d)
        else edit_found file_id (find_file_by_id s file_id)
            (insert (label_type, ref_id)
              (record {
                label_type = label_type;
                ref_id = ref_id;
                label = label;
                origin = none;
                spendable = none;
              }))
            s d

    unfoldable pub delete_label :
        Text → Bip329Type → Text → LabelStore → D → StoreResult (Unit {0}) × LabelStore × D
    unfolding edit_found write_and_flush flush_file flush_found flush_to make_parent write_after
        write_result
    delete_label file_id label_type ref_id s d =
        edit_found file_id (find_file_by_id s file_id) (remove (label_type, ref_id)) s d
