-- ===== src/Labels/Jsonl.antt =====
-- crates/cory-core/src/labels/jsonl.rs: label maps as lines of JSON, and the names of label files.
-- serde_json is a parameter: `read` is from_str at Bip329Record, `write` is to_string.
pub mod RoundTrip
use cory.Base.{
  ℕ, suc, ◌+◌, Bool, ◌&&◌, ◌||◌, List, [], ◌∷◌, ◌++◌, ◌⊎◌, inl, inr, ltb, nat_beq, if◌then◌else◌,
}
use cory.Base.Map.{Map, insert}
use cory.Base.Text.{Text, text, trim, is_empty, without_suffix, replace_char, text_ltb, lines}
use cory.Error.{label_parse, Result, ok, err}
use cory.Labels.{rank, Bip329Record, LabelKey, LabelStoreError, StoreResult, key_eq}

-- `read` returns the message of the error on the left.
pub record Json : Type 0 where
  pub read : Text → Text ⊎ Bip329Record
  pub write : Bip329Record → Text

module _ (json : Json) where
  abbrev pub key_of : Bip329Record → LabelKey
  key_of record_ = (record_.label_type, record_.ref_id)

  pub insert_line :
      ℕ → Text ⊎ Bip329Record → Map LabelKey Bip329Record → Result (Map LabelKey Bip329Record)
  insert_line line_num (inl message) m = err (label_parse (line_num + 1) message)
  insert_line line_num (inr r) m = ok (insert (key_of r) r m)

  -- One round of the `try_fold`; an empty line is skipped.
  pub fold_line : ℕ → Text → Map LabelKey Bip329Record → Result (Map LabelKey Bip329Record)
  fold_line line_num line m =
      if is_empty (trim line) then ok m else insert_line line_num (json.read (trim line)) m

  pub fold_lines :
      ℕ → List Text → Result (Map LabelKey Bip329Record) → Result (Map LabelKey Bip329Record)
  fold_lines line_num others (err e) = err e
  fold_lines line_num [] (ok m) = ok m
  fold_lines line_num (line ∷ others) (ok m) =
      fold_lines (suc line_num) others (fold_line line_num line m)

  unfoldable pub parse_jsonl_records : Text → Result (Map LabelKey Bip329Record)
  unfolding fold_lines fold_line insert_line lines
  parse_jsonl_records content = fold_lines 0 (lines content) (ok [])

  pub key_ltb : LabelKey → LabelKey → Bool
  key_ltb (t, r) (u, q) = ltb (rank t) (rank u) || nat_beq (rank t) (rank u) && text_ltb r q

  pub insert_sorted :
      LabelKey × Bip329Record → Map LabelKey Bip329Record → Map LabelKey Bip329Record
  insert_sorted e [] = e ∷ []
  insert_sorted e (x ∷ others) =
      if key_ltb x.0 e.0 then x ∷ insert_sorted e others else e ∷ x ∷ others

  pub sort_entries : Map LabelKey Bip329Record → Map LabelKey Bip329Record
  sort_entries [] = []
  sort_entries (e ∷ m) = insert_sorted e (sort_entries m)

  pub write_entries : Map LabelKey Bip329Record → Text
  write_entries [] = []
  write_entries ((k, r) ∷ m) = json.write r ++ 10 ∷ write_entries m

  unfoldable pub export_map_to_jsonl : Map LabelKey Bip329Record → Text
  unfolding write_entries sort_entries insert_sorted key_ltb
  export_map_to_jsonl m = write_entries (sort_entries m)

abbrev pub jsonl_suffix : Text
jsonl_suffix = text ".jsonl"

unfoldable pub normalize_label_file_id : Text → Text
normalize_label_file_id name = replace_char 92 47 (trim (without_suffix jsonl_suffix (trim name)))

pub record ParsedLocalFileName : Type 0 where
  pub id : Text
  pub name : Text

pub checked_id : Text → Text → StoreResult ParsedLocalFileName
checked_id name id =
    if is_empty id
    then StoreResult.err LabelStoreError.empty_file_name
    else StoreResult.ok (record { id = id; name = name })

pub checked_name : Text → StoreResult ParsedLocalFileName
checked_name name =
    if is_empty name
    then StoreResult.err LabelStoreError.empty_file_name
    else checked_id name (normalize_label_file_id name)

unfoldable pub parse_local_file_name : Text → StoreResult ParsedLocalFileName
unfolding checked_name checked_id
parse_local_file_name raw =
    if is_empty (trim raw)
    then StoreResult.err LabelStoreError.empty_file_name
    else checked_name (trim (without_suffix jsonl_suffix (trim raw)))
