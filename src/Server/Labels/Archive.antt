-- ===== src/Server/Labels/Archive.antt =====
-- crates/cory/src/server/labels.rs, zip_browser_labels: the browser's label files in one archive. The
-- zip crate's writer is a parameter.
pub mod Names
pub mod Contents
use cory.Base.{
  ℕ, zero, suc, ◌+◌, Bool, true, false, Option, none, some, List, [], ◌∷◌, ◌++◌, if◌then◌else◌,
  contains, length,
}
use cory.Base.Text.{Text, text, text_eq, trim, is_empty, replace_char, decimal}
use cory.Labels.{LabelFile, StoreResult, is_browser}
use cory.Labels.Jsonl.{Json}
use cory.Labels.Store.{LabelStore, list_files, export_file}
use cory.Server.{AppError, Reply, ok, err, Messages, map_label_store_error, check_auth}

-- `replace(['/', '\\'], "_")`, and a name in place of a blank one.
unfoldable pub sanitize_zip_base_name : Text → Text
sanitize_zip_base_name name =
    let replaced = replace_char 92 95 (replace_char 47 95 (trim name)) in
    if is_empty (trim replaced) then text "browser-label" else replaced

abbrev pub initial_name : Text → Text
initial_name base_name = text "labels/" ++ (base_name ++ text ".jsonl")

abbrev pub candidate : Text → ℕ → Text
candidate base_name suffix =
    text "labels/" ++ (base_name ++ (text "-" ++ (decimal suffix ++ text ".jsonl")))

-- The loop over the suffixes, which are i32; `none` when the fuel is gone.
unfoldable pub free_candidate : ℕ → ℕ → Text → List Text → Option Text
free_candidate zero suffix base_name used_names = none
free_candidate (suc fuel) suffix base_name used_names =
    let rest = free_candidate fuel (suc suffix) base_name used_names in
    if contains used_names (candidate base_name suffix)
    then rest
    else some (candidate base_name suffix)

-- The caller inserts the name into `used_names`, as the source does here.
unfoldable pub unique_zip_entry_name : Text → List Text → Option Text
unique_zip_entry_name base_name used_names =
    let other = free_candidate (suc (length used_names)) 2 base_name used_names in
    if contains used_names (initial_name base_name) then other else some (initial_name base_name)

abbrev pub only_browser_files : List LabelFile → List LabelFile
only_browser_files [] = []
only_browser_files (file ∷ files) =
    let rest = only_browser_files files in if is_browser file.kind then file ∷ rest else rest

-- Rust's Vec<(String, Vec<u8>)>, a text standing for its bytes.
abbrev pub Entries : Type 0
Entries = List (Text × Text)

-- A reply, unless the suffixes of a name ran out of fuel.
abbrev pub Ended : Type 0 → Type 0
Ended A = Option (Reply A)

module _ (show : Messages) (json : Json) (s : LabelStore) where
  pub with_rest : Text → Text → Ended Entries → Ended Entries
  with_rest name content none = none
  with_rest name content (some (err e)) = some (err e)
  with_rest name content (some (ok entries)) = some (ok ((name, content) ∷ entries))

  -- The entry of a file before the entries of the files after it.
  pub with_entry : StoreResult Text → Option Text → Ended Entries → Ended Entries
  with_entry (StoreResult.err e) name rest = some (err (map_label_store_error show e))
  with_entry (StoreResult.ok content) none rest = none
  with_entry (StoreResult.ok content) (some name) rest = with_rest name content rest

  abbrev pub with_name : Option Text → List Text → List Text
  with_name none used_names = used_names
  with_name (some name) used_names = name ∷ used_names

  -- The loop over the files, with the names used so far.
  pub zip_entries : List LabelFile → List Text → Ended Entries
  zip_entries [] used_names = some (ok [])
  zip_entries (file ∷ files) used_names =
      let name = unique_zip_entry_name (sanitize_zip_base_name file.name) used_names in
      let rest = zip_entries files (with_name name used_names) in
      with_entry (export_file json file.id s) name rest

  module _ {A : Type 0} (build_zip : Entries → Reply A) where
    pub archived : Ended Entries → Ended A
    archived none = none
    archived (some (err e)) = some (err e)
    archived (some (ok [])) =
        some (err (AppError.not_found (text "no browser label files to export")))
    archived (some (ok (e ∷ entries))) = some (build_zip (e ∷ entries))

    unfoldable pub guarded_zip : Reply (Unit {0}) → Ended A
    guarded_zip (err e) = some (err e)
    guarded_zip (ok u) = archived (zip_entries (only_browser_files (list_files s)) [])

    unfoldable pub zip_browser_labels : Text → Option Text → Ended A
    unfolding guarded_zip archived zip_entries with_entry with_rest sanitize_zip_base_name
        unique_zip_entry_name free_candidate map_label_store_error
    zip_browser_labels api_token header = guarded_zip (check_auth api_token header)
