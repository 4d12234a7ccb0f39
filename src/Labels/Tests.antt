-- ===== src/Labels/Tests.antt =====
-- The label store (crates/cory-core/src/labels/store.rs) with one file of each kind.
use cory.Base.{
  All, ℕ, ◌≢◌, ◌==◌, if◌then◌else◌, ◌≡◌, refl, ◌≤◌, inl, inr, true, false, none, some, List, [],
  ◌∷◌, ◌++◌, arith,
}
use cory.Base.Text.{Text, text, text_eq}
use cory.Error.{Result}
use cory.Base.Map.{Map, get}
use cory.Labels.{
  LabelKey, key_eq, Bip329Record, LabelFile, LabelFileKind, Bip329Type, ok, type_name,
}
use cory.Labels.Jsonl.{Json, parse_jsonl_records, export_map_to_jsonl}
use cory.Labels.Jsonl.RoundTrip.{IsCompact, IsKeyed, parse_jsonl_records-export}
use cory.Labels.Pack.{
  Paths, Listing, entry, directory, plain_file, no_more, load_rw_dir, load_ro_dir,
}
use cory.Labels.Pack.Loaded.{load_rw_dir-IsWellFormed, load_ro_dir-IsWellFormed}
use cory.Labels.Store.{FileSystem, LabelStore, set_label}
use cory.Labels.Store.Writes.{IsWritten, set_label-IsWritten}
use cory.Labels.Store.Operations.{Operation, create, set_one, remove_file, run}
use cory.Labels.Store.WellFormed.{count, IsWellFormed, Safe}
use cory.Labels.Store.Operations.Invariant.{run-Safe}

-- A JSON library that reads nothing, and a disk that only keeps what was written last.
abbrev pub json : Json
json = record { read = λ line. inl line; write = λ r. type_name r.label_type ++ r.ref_id }

abbrev pub disk : FileSystem Text
disk = record {
  parent = λ path. none;
  create_dir_all = λ path d. (none, d);
  write = λ path content d. (none, content);
}

abbrev pub file : Text → LabelFileKind → LabelFile
file id kind = record {
  id = id;
  name = id;
  kind = kind;
  editable = true;
  source_path = none;
  labels = [];
}

abbrev pub one_of_each : LabelStore
one_of_each = record {
  persistent_rw_files =
      record (file (text "a") LabelFileKind.persistent_rw) { source_path = some (text "rw.jsonl") }
      ∷ [];
  browser_rw_files = file (text "b") LabelFileKind.browser_rw ∷ [];
  persistent_ro_files =
      record (file (text "c") LabelFileKind.persistent_ro) { editable = false } ∷ [];
}

unique_ids : (id : Text) → count id one_of_each ≤ 1
unique_ids [] = ground arith
unique_ids (c ∷ []) = ground arith
unique_ids (c ∷ d ∷ id) = ground arith

pub one_of_each-IsWellFormed : IsWellFormed one_of_each
one_of_each-IsWellFormed = record {
  rw_files = ((refl, refl), tt);
  browser_files = ((refl, refl, refl), tt);
  ro_files = ((refl, refl, refl), tt);
  unique = unique_ids;
}

abbrev some_operations : List Operation
some_operations =
    create (text "wallet.jsonl")
    ∷ set_one (text "a") Bip329Type.tx (text "ab") (text "rent")
    ∷ set_one (text "c") Bip329Type.tx (text "ab") (text "rent")
    ∷ remove_file (text "b")
    ∷ []

run-Safe_example : Safe one_of_each (run json disk some_operations (one_of_each, [])).0
run-Safe_example = run-Safe json disk some_operations one_of_each [] one_of_each-IsWellFormed

set_ok :
    (set_label json disk (text "a") Bip329Type.tx (text "ab") (text "rent") one_of_each []).0
    ≡ ok tt
unfolding set_label
set_ok = refl

set_label-IsWritten_example :
    IsWritten
      (text "a")
      Bip329Type.tx
      (text "ab")
      (text "rent")
      one_of_each
      (set_label json disk (text "a") Bip329Type.tx (text "ab") (text "rent") one_of_each []).1
set_label-IsWritten_example =
    set_label-IsWritten json disk (text "a") Bip329Type.tx (text "ab") (text "rent") one_of_each []
      set_ok

abbrev pub paths : Paths
paths = record { is_jsonl = λ path. true; relative = λ dir path. path; display = λ path. path }

abbrev two_files : Listing
two_files =
    entry (directory (entry (plain_file (text "d") (inr [])) no_more))
      (entry (plain_file (text "a") (inr [])) no_more)

load_rw_dir-IsWellFormed_example :
    IsWellFormed (load_rw_dir json paths (text "dir") (some two_files) one_of_each).1
load_rw_dir-IsWellFormed_example =
    load_rw_dir-IsWellFormed json paths (text "dir") one_of_each one_of_each-IsWellFormed
      (some two_files)

load_ro_dir-IsWellFormed_example :
    IsWellFormed (load_ro_dir json paths (text "dir") (some two_files) one_of_each).1
load_ro_dir-IsWellFormed_example =
    load_ro_dir-IsWellFormed json paths (text "dir") one_of_each one_of_each-IsWellFormed
      (some two_files)

abbrev rent : Bip329Record
rent = record {
  label_type = Bip329Type.tx;
  ref_id = text "ab";
  label = text "rent";
  origin = none;
  spendable = none;
}

abbrev home : Bip329Record
home = record {
  label_type = Bip329Type.addr;
  ref_id = text "cd";
  label = text "home";
  origin = none;
  spendable = none;
}

-- A JSON library that knows two records by their labels.
abbrev two_known : Json
two_known = record {
  read = λ line. if line == text "rent" then inr rent else inr home;
  write = λ r. r.label;
}

abbrev two_labels : Map LabelKey Bip329Record
two_labels = ((Bip329Type.addr, text "cd"), home) ∷ ((Bip329Type.tx, text "ab"), rent) ∷ []

no_feed : (c : ℕ) → 32 ≤ c → (c ≢ 10) × (c ≢ 13)
no_feed c h = ((λ e. omega (arith, h, e)), (λ e. omega (arith, h, e)))

four_chars :
    (a b c d : ℕ)
    → 32 ≤ a
    → 32 ≤ b
    → 32 ≤ c
    → 32 ≤ d
    → All (λ x. (x ≢ 10) × (x ≢ 13)) (a ∷ b ∷ c ∷ d ∷ [])
four_chars a b c d ha hb hc hd = (no_feed a ha, (no_feed b hb, (no_feed c hc, (no_feed d hd, tt))))

rent-IsCompact : IsCompact two_known rent
rent-IsCompact = record {
  one_line = four_chars 114 101 110 116 (omega arith) (omega arith) (omega arith) (omega arith);
  trimmed = refl;
  some_text = refl;
  read_back = refl;
}

home-IsCompact : IsCompact two_known home
home-IsCompact = record {
  one_line = four_chars 104 111 109 101 (omega arith) (omega arith) (omega arith) (omega arith);
  trimmed = refl;
  some_text = refl;
  read_back = refl;
}

two_labels-IsKeyed : IsKeyed two_known two_labels
two_labels-IsKeyed = (
  record { key = refl; compact = home-IsCompact },
  refl,
  (record { key = refl; compact = rent-IsCompact }, refl, tt),
)

parse_jsonl_records-export_example :
    (parsed : Map LabelKey Bip329Record) × (parse_jsonl_records two_known
        (export_map_to_jsonl two_known two_labels)
      ≡ Result.ok parsed)
    × ((k : LabelKey) → get parsed k ≡ get two_labels k)
parse_jsonl_records-export_example =
    parse_jsonl_records-export two_known two_labels two_labels-IsKeyed
