-- ===== src/Server/Labels/Archive/Contents.antt =====
-- zip_browser_labels (crates/cory/src/server/labels.rs): what the archive holds.
use cory.Base.{
  ◌+◌, ◌<◌, ◌^◌, ◌≡◌, ◌≢◌, refl, ap, false, Option, some, List, [], ◌∷◌, contains, length, arith,
  Bool-cases, inl, inr, ◌==◌, ==_iff, All, All-mono, Distinct, Each, Memᴰ,
}
use cory.Base.Text.{Text, text, text_eq}
use cory.Labels.{LabelFile, StoreResult, is_browser}
use cory.Labels.Jsonl.{Json, export_map_to_jsonl}
use cory.Labels.Store.{LabelStore, list_files, find_file, export_file}
use cory.Server.{AppError, Reply, ok, err, Messages, check_auth}
use cory.Server.Labels.Archive.{
  sanitize_zip_base_name, only_browser_files, Entries, Ended, with_rest, with_entry, zip_entries,
  archived, guarded_zip, zip_browser_labels,
}
use cory.Server.Labels.Archive.Names.{unique_zip_entry_name-IsNew}

find_file-found :
    (f : LabelFile) (files : List LabelFile)
    → Memᴰ f files
    → (g : LabelFile) × (find_file f.id files ≡ some g)
find_file-found f [] at = elim at [ ]
find_file-found f (g ∷ files) (Memᴰ.head same) =
    (g, ground (arith, ==_iff g.id f.id, ap (λ h. h.id) same))
find_file-found f (g ∷ files) (Memᴰ.tail at) =
    let (h, found) = find_file-found f files at in
    elim (Bool-cases (g.id == f.id)) [
      | inl first ↦ (g, rw first refl)
      | inr later ↦ (h, rw later found)
    ]

put_back :
    (f g : LabelFile) (files : List LabelFile)
    → (Memᴰ f (only_browser_files files) → Memᴰ f files)
    → Memᴰ f (g ∷ only_browser_files files)
    → Memᴰ f (g ∷ files)
put_back f g files h (Memᴰ.head same) = Memᴰ.head same
put_back f g files h (Memᴰ.tail at) = Memᴰ.tail (h at)

only_browser_files-listed :
    (f : LabelFile) (files : List LabelFile) → Memᴰ f (only_browser_files files) → Memᴰ f files
only_browser_files-listed f [] at = at
only_browser_files-listed f (g ∷ files) at = elim (Bool-cases (is_browser g.kind)) [
  | inl browser ↦ put_back f g files (only_browser_files-listed f files) (rw browser at at)
  | inr other ↦ Memᴰ.tail (only_browser_files-listed f files (rw other at at))
]

abbrev pub names : Entries → List Text
names [] = []
names ((name, content) ∷ entries) = name ∷ names entries

abbrev pub IsNew : List Text → Text → Type 0
IsNew used name = contains used name ≡ false

apart :
    (name other : Text) (used : List Text)
    → IsNew (name ∷ used) other
    → (name ≢ other) × IsNew used other
apart name other used h = ((λ e. ground (arith, ==_iff name other, e)), ground arith)

module _ (show : Messages) (json : Json) (s : LabelStore) where
  -- An entry for each file, with what the file exports, under a new name that no other entry has.
  pub record Archived (files : List LabelFile) (used : List Text) (entries : Entries) : Type 0 where
    pub contents : Each (λ f e. export_file json f.id s ≡ StoreResult.ok (e.1)) files entries
    pub new : All (IsNew used) (names entries)
    pub distinct : Distinct (names entries)

  abbrev Exported : LabelFile → Type 0
  Exported f = (content : Text) × (export_file json f.id s ≡ StoreResult.ok content)

  listed-Exported : (f : LabelFile) → Memᴰ f (list_files s) → Exported f
  unfolding export_file
  listed-Exported f at =
      let (g, found) = find_file-found f (list_files s) at in
      (export_map_to_jsonl json g.labels, rw found refl)

  zip_entries-Archived :
      (files : List LabelFile) (used : List Text)
      → ((f : LabelFile) → Memᴰ f files → Exported f)
      → length files + length used < 2 ^ 30
      → (entries : Entries) × (zip_entries show json s files used ≡ some (ok entries))
        × Archived files used entries
  unfolding zip_entries with_entry with_rest
  zip_entries-Archived [] used exported few =
      ([], refl, record { contents = tt; new = tt; distinct = tt })
  zip_entries-Archived (f ∷ files) used exported few =
      let (name, is_name, new) =
        unique_zip_entry_name-IsNew (sanitize_zip_base_name f.name) used (omega arith) in
      let (content, is_content) = exported f (Memᴰ.head refl) in
      let (entries, is_entries, rest) =
        zip_entries-Archived files (name ∷ used) (λ g at. exported g (Memᴰ.tail at))
          (omega arith) in
      (
        (name, content) ∷ entries,
        rw (is_content, is_name, is_entries) refl,
        record {
          contents = (is_content, rest.contents);
          new = (
            new,
            All-mono (IsNew (name ∷ used)) _ (names entries) (λ n h. (apart name n used h).1)
                rest.new,
          );
          distinct = (
            All-mono (IsNew (name ∷ used)) _ (names entries) (λ n h. (apart name n used h).0)
                rest.new,
            rest.distinct,
          );
        },
      )

  module _ {A : Type 0} (build_zip : Entries → Reply A) where
    -- The reply for the entries: an error if there are none.
    abbrev pub IsReply : Entries → Ended A → Type 0
    IsReply [] r = r ≡ some (err (AppError.not_found (text "no browser label files to export")))
    IsReply (e ∷ entries) r = r ≡ some (build_zip (e ∷ entries))

    -- What is replied after a token check.
    abbrev pub Zipped : Reply (Unit {0}) → Ended A → Type 0
    Zipped (err e) r = r ≡ some (err e)
    Zipped (ok u) r =
        (entries : Entries) × Archived (only_browser_files (list_files s)) [] entries
        × IsReply entries r

    archived-IsReply :
        (entries : Entries) (ended : Ended Entries)
        → ended ≡ some (ok entries)
        → IsReply entries (archived show json s build_zip ended)
    unfolding archived
    archived-IsReply [] ended is = rw is refl
    archived-IsReply (e ∷ entries) ended is = rw is refl

    guarded_zip-Zipped :
        (r : Reply (Unit {0}))
        → length (only_browser_files (list_files s)) < 2 ^ 30
        → Zipped r (guarded_zip show json s build_zip r)
    unfolding guarded_zip
    guarded_zip-Zipped (err e) few = refl
    guarded_zip-Zipped (ok u) few =
        let files = only_browser_files (list_files s) in
        let (entries, is_entries, is_archive) =
          zip_entries-Archived files []
            (λ f at. listed-Exported f (only_browser_files-listed f (list_files s) at))
            (omega (arith, few)) in
        (entries, is_archive, archived-IsReply entries _ is_entries)

    -- zip_browser_labels on a store of fewer than 2 ^ 30 browser files: its loops end, and it replies
    -- with the error of the token check, or else with an archive that has an entry for each browser
    -- file in their order, with what the file exports and under a name that no other entry has, or
    -- with not found where there is no browser file.
    pub zip_browser_labels-Zipped :
        (api_token : Text) (header : Option Text)
        → length (only_browser_files (list_files s)) < 2 ^ 30
        → Zipped
            (check_auth api_token header)
            (zip_browser_labels show json s build_zip api_token header)
    unfolding zip_browser_labels
    zip_browser_labels-Zipped api_token header few =
        guarded_zip-Zipped (check_auth api_token header) few
