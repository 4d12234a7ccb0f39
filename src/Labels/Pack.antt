-- ===== src/Labels/Pack.antt =====
-- crates/cory-core/src/labels/pack.rs, and the loading of directories in labels/store.rs. A
-- directory is its tree, with the entries in the order of their paths, and what cannot be read is
-- the message of the error. The functions of std::path are a parameter.
pub mod Loaded
use cory.Base.{
  Bool, true, false, Option, none, some, List, [], ◌∷◌, ◌++◌, ◌⊎◌, inl, inr, contains,
  if◌then◌else◌,
}
use cory.Base.Map.{Map}
use cory.Base.Text.{Text, text, is_empty, replace_char, text_eq}
use cory.Error.{CoreError, label_parse, io, Result, ok, err}
use cory.Labels.{Bip329Record, LabelKey, LabelFile, LabelFileKind}
use cory.Labels.Jsonl.{Json, parse_jsonl_records}
use cory.Labels.Store.{LabelStore, all_ids}

mutual
  pub data Entry : Type 0 where
    plain_file : (path : Text) → (content : Text ⊎ Text) → Entry
    directory : Listing → Entry

  pub data Listing : Type 0 where
    unreadable : (message : Text) → Listing
    no_more : Listing
    entry : Entry → Listing → Listing

-- `relative` is strip_prefix(base).unwrap_or(path) without its extension, as text.
pub record Paths : Type 0 where
  pub is_jsonl : Text → Bool
  pub relative : Text → Text → Text
  pub display : Text → Text

-- `files` and `seen_ids`, which the functions write through.
pub record Loading : Type 0 where
  pub files : List LabelFile
  pub seen_ids : List Text

pub loaded_file : LabelFileKind → Text → Text → Map LabelKey Bip329Record → LabelFile
loaded_file LabelFileKind.persistent_rw id path labels = record {
  id = id;
  name = id;
  kind = LabelFileKind.persistent_rw;
  editable = true;
  source_path = some path;
  labels = labels;
}
loaded_file LabelFileKind.persistent_ro id path labels = record {
  id = id;
  name = id;
  kind = LabelFileKind.persistent_ro;
  editable = false;
  source_path = none;
  labels = labels;
}
loaded_file LabelFileKind.browser_rw id path labels = record {
  id = id;
  name = id;
  kind = LabelFileKind.browser_rw;
  editable = true;
  source_path = none;
  labels = labels;
}

module _ (json : Json) (paths : Paths) (base : Text) (kind : LabelFileKind) where
  pub push_loaded :
      Text → Text → Result (Map LabelKey Bip329Record) → Loading → Result (Unit {0}) × Loading
  push_loaded id path (err e) l = (err e, l)
  push_loaded id path (ok labels) l =
      (ok tt, record l { files = l.files ++ loaded_file kind id path labels ∷ [] })

  pub read_content : Text → Text → Text ⊎ Text → Loading → Result (Unit {0}) × Loading
  read_content id path (inl message) l = (err (io message), l)
  read_content id path (inr content) l = push_loaded id path (parse_jsonl_records json content) l

  pub load_id : Text → Text → Text ⊎ Text → Loading → Result (Unit {0}) × Loading
  load_id id path content l =
      if is_empty id
      then (ok tt, l)
      else if contains l.seen_ids id
      then (
        err (
            label_parse 0
              (text "duplicate label file ID `" ++ id ++ text "` from " ++ paths.display path)),
        l,
      )
      else read_content id path content (record l { seen_ids = id ∷ l.seen_ids })

  pub load_single_label_file : Text → Text ⊎ Text → Loading → Result (Unit {0}) × Loading
  load_single_label_file path content l =
      load_id (replace_char 92 47 (paths.relative base path)) path content l

  pub load_if_jsonl : Bool → Text → Text ⊎ Text → Loading → Result (Unit {0}) × Loading
  load_if_jsonl false path content l = (ok tt, l)
  load_if_jsonl true path content l = load_single_label_file path content l

  abbrev pub and_rest :
      Result (Unit {0}) × Loading
      → (Loading → Result (Unit {0}) × Loading)
      → Result (Unit {0}) × Loading
  and_rest (err e, l) rest = (err e, l)
  and_rest (ok u, l) rest = rest l

  -- A listing that cannot be read in full fails before its first entry is loaded.
  abbrev pub broken : Listing → Option Text
  broken (unreadable message) = some message
  broken no_more = none
  broken (entry e others) = broken others

  abbrev pub unless_broken :
      Option Text → Result (Unit {0}) × Loading → Loading → Result (Unit {0}) × Loading
  unless_broken (some message) walked l = (err (io message), l)
  unless_broken none walked l = walked

  mutual
    pub walk_entry : Entry → Loading → Result (Unit {0}) × Loading
    walk_entry (plain_file path content) l = load_if_jsonl (paths.is_jsonl path) path content l
    walk_entry (directory listing) l = unless_broken (broken listing) (walk_entries listing l) l

    pub walk_entries : Listing → Loading → Result (Unit {0}) × Loading
    walk_entries (unreadable message) l = (err (io message), l)
    walk_entries no_more l = (ok tt, l)
    walk_entries (entry e others) l = and_rest (walk_entry e l) (λ l'. walk_entries others l')

module _ (json : Json) (paths : Paths) where
  pub walk_label_dir : Text → Listing → LabelFileKind → Loading → Result (Unit {0}) × Loading
  walk_label_dir base listing kind l = walk_entry json paths base kind (directory listing) l

  -- What is found at the path: `none` where it is not a directory.
  unfoldable pub load_rw_dir : Text → Option Listing → LabelStore → Result (Unit {0}) × LabelStore
  unfolding walk_label_dir walk_entry walk_entries load_if_jsonl load_single_label_file load_id
      read_content push_loaded loaded_file
  load_rw_dir dir none s =
      (err (io (text "labels-rw directory not found: " ++ paths.display dir)), s)
  load_rw_dir dir (some listing) s =
      let (r, l) =
        walk_label_dir dir listing LabelFileKind.persistent_rw
          (record { files = s.persistent_rw_files; seen_ids = all_ids s }) in
      (r, record s { persistent_rw_files = l.files })

  unfoldable pub load_ro_dir : Text → Option Listing → LabelStore → Result (Unit {0}) × LabelStore
  unfolding walk_label_dir walk_entry walk_entries load_if_jsonl load_single_label_file load_id
      read_content push_loaded loaded_file
  load_ro_dir dir none s =
      (err (io (text "labels-ro directory not found: " ++ paths.display dir)), s)
  load_ro_dir dir (some listing) s =
      let (r, l) =
        walk_label_dir dir listing LabelFileKind.persistent_ro
          (record { files = s.persistent_ro_files; seen_ids = all_ids s }) in
      (r, record s { persistent_ro_files = l.files })
