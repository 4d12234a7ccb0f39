-- ===== src/Labels/Store/Operations.antt =====
-- The operations of the label store (crates/cory-core/src/labels/store.rs) as values, and runs of
-- them: the requests of crates/cory/src/server/labels.rs one after another, since the server takes
-- the write lock of the store for each.
pub mod Invariant
use cory.Base.{List, [], ◌∷◌}
use cory.Base.Text.{Text}
use cory.Labels.{Bip329Type, StoreResult}
use cory.Labels.Jsonl.{Json}
use cory.Labels.Store.{
  FileSystem, LabelStore, create_browser_file, import_browser_file, replace_browser_file_content,
  remove_browser_file, set_label, delete_label,
}

pub data Operation : Type 0 where
  create : (name : Text) → Operation
  import_file : (name content : Text) → Operation
  replace : (file_id content : Text) → Operation
  remove_file : (file_id : Text) → Operation
  set_one : (file_id : Text) (label_type : Bip329Type) (ref_id label : Text) → Operation
  delete_one : (file_id : Text) (label_type : Bip329Type) (ref_id : Text) → Operation

module _ (json : Json) {D : Type 0} (fs : FileSystem D) where
  -- The store and the disk after the operation, whatever it returns.
  pub apply : Operation → LabelStore × D → LabelStore × D
  apply (create name) (s, d) = ((create_browser_file name s).1, d)
  apply (import_file name content) (s, d) = ((import_browser_file json name content s).1, d)
  apply (replace file_id content) (s, d) =
      ((replace_browser_file_content json file_id content s).1, d)
  apply (remove_file file_id) (s, d) = ((remove_browser_file file_id s).1, d)
  apply (set_one file_id label_type ref_id label) (s, d) =
      let (_, s', d') = set_label json fs file_id label_type ref_id label s d in (s', d')
  apply (delete_one file_id label_type ref_id) (s, d) =
      let (_, s', d') = delete_label json fs file_id label_type ref_id s d in (s', d')

  unfoldable pub run : List Operation → LabelStore × D → LabelStore × D
  unfolding apply
  run [] sd = sd
  run (op ∷ ops) sd = run ops (apply op sd)
