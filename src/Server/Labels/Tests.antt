-- ===== src/Server/Labels/Tests.antt =====
-- zip_browser_labels (crates/cory/src/server/labels.rs) on two files of one name.
use cory.Base.{◌≡◌, refl, none, some, [], ◌∷◌, length, arith}
use cory.Base.Text.{Text, text}
use cory.Labels.{LabelFile, LabelFileKind, is_browser}
use cory.Labels.Store.{LabelStore, list_files, export_file}
use cory.Labels.Tests.{json, file}
use cory.Server.{Messages, ok, check_auth}
use cory.Server.Labels.Archive.{only_browser_files, zip_browser_labels, sanitize_zip_base_name}
use cory.Server.Labels.Archive.Contents.{names, Zipped, zip_browser_labels-Zipped}

abbrev messages : Messages
messages = record { of_core = λ e. []; of_store = λ e. []; of_header = λ s. none }

abbrev named : Text → Text → LabelFile
named id name = record (file id LabelFileKind.browser_rw) { name = name }

abbrev two_of_a_name : LabelStore
two_of_a_name = record {
  persistent_rw_files = file (text "p") LabelFileKind.persistent_rw ∷ [];
  browser_rw_files = named (text "x") (text "a/b") ∷ named (text "y") (text " a_b") ∷ [];
  persistent_ro_files = [];
}

slash_replaced : sanitize_zip_base_name (text " a/b") ≡ text "a_b"
unfolding sanitize_zip_base_name
slash_replaced = refl

named_in_archive :
    zip_browser_labels messages json two_of_a_name
      (λ entries. ok (names entries))
      (text "s")
      (some (text "s"))
    ≡ some (ok (text "labels/a_b.jsonl" ∷ text "labels/a_b-2.jsonl" ∷ []))
unfolding zip_browser_labels export_file check_auth is_browser
named_in_archive = refl

two_files : length (only_browser_files (list_files two_of_a_name)) ≡ 2
unfolding is_browser
two_files = refl

zip_browser_labels-Zipped_example :
    Zipped messages json two_of_a_name
      (λ entries. ok (names entries))
      (check_auth (text "s") (some (text "s")))
      (zip_browser_labels messages json two_of_a_name
        (λ entries. ok (names entries))
        (text "s")
        (some (text "s")))
zip_browser_labels-Zipped_example =
    zip_browser_labels-Zipped messages json two_of_a_name (λ entries. ok (names entries)) (text "s")
      (some (text "s")) (omega (arith, two_files))
