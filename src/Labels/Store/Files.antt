-- ===== src/Labels/Store/Files.antt =====
-- Lists of label files (crates/cory-core/src/labels/store.rs): finding, rewriting and removing one.
use cory.Base.{
  ℕ, suc, ◌+◌, ◌≤◌, ◌≡◌, refl, Option, none, some, List, [], ◌∷◌, ◌++◌, arith, All, if◌then◌else◌,
  ◌==◌, contains, Bool-cases, inl, inr, subst,
}
use cory.Base.Map.{Map}
use cory.Base.Text.{Text, text_eq}
use cory.Labels.{Bip329Record, LabelKey, LabelFile}
use cory.Labels.Store.{ids, find_file, update_first, remove_first}

abbrev pub with_labels : Map LabelKey Bip329Record → LabelFile → LabelFile
with_labels labels f = record f { labels = labels }

abbrev pub with_labels_at : Map LabelKey Bip329Record → Option LabelFile → Option LabelFile
with_labels_at labels none = none
with_labels_at labels (some f) = some (with_labels labels f)

-- How many of the files have the id.
abbrev pub occurrences : Text → List LabelFile → ℕ
occurrences id [] = 0
occurrences id (f ∷ files) = if f.id == id then suc (occurrences id files) else occurrences id files

pub find_file-append :
    (id : Text) (xs ys : List LabelFile)
    → find_file id (xs ++ ys) ≡ (if contains (ids xs) id then find_file id xs else find_file id ys)
find_file-append id [] ys = refl
find_file-append id (f ∷ xs) ys = ground (arith, find_file-append id xs ys)

pub find_file-All :
    (P : LabelFile → Type 0) (id : Text) (xs : List LabelFile) (f : LabelFile)
    → All P xs
    → find_file id xs ≡ some f
    → P f
find_file-All P id [] f h e = cc e
find_file-All P id (x ∷ xs) f h e = elim (Bool-cases (x.id == id)) [
  | inl here ↦ subst P (cc (rw here at e)) h.0
  | inr there ↦ find_file-All P id xs f h.1 (rw there at e)
]

pub find_file-update_first :
    (id : Text) (labels : Map LabelKey Bip329Record) (xs : List LabelFile)
    → find_file id (update_first id labels xs) ≡ with_labels_at labels (find_file id xs)
find_file-update_first id labels [] = refl
find_file-update_first id labels (x ∷ xs) = elim (Bool-cases (x.id == id)) [
  | inl here ↦ rw (here, here) refl
  | inr there ↦ rw (there, there) (find_file-update_first id labels xs)
]

pub ids-update_first :
    (id : Text) (labels : Map LabelKey Bip329Record) (xs : List LabelFile)
    → ids (update_first id labels xs) ≡ ids xs
ids-update_first id labels [] = refl
ids-update_first id labels (x ∷ xs) = ground (arith, ids-update_first id labels xs)

pub occurrences-update_first :
    (id j : Text) (labels : Map LabelKey Bip329Record) (xs : List LabelFile)
    → occurrences j (update_first id labels xs) ≡ occurrences j xs
occurrences-update_first id j labels [] = refl
occurrences-update_first id j labels (x ∷ xs) =
    ground (arith, occurrences-update_first id j labels xs)

pub occurrences-remove_first :
    (id j : Text) (xs : List LabelFile) → occurrences j (remove_first id xs) ≤ occurrences j xs
occurrences-remove_first id j [] = omega arith
occurrences-remove_first id j (x ∷ xs) = ground (arith, occurrences-remove_first id j xs)

pub occurrences-append :
    (id : Text) (xs ys : List LabelFile)
    → occurrences id (xs ++ ys) ≡ occurrences id xs + occurrences id ys
occurrences-append id [] ys = omega arith
occurrences-append id (x ∷ xs) ys = ground (arith, occurrences-append id xs ys)

pub occurrences-missing :
    (id : Text) (xs : List LabelFile) → find_file id xs ≡ none → occurrences id xs ≡ 0
occurrences-missing id [] h = refl
occurrences-missing id (x ∷ xs) h = ground (arith, occurrences-missing id xs)

-- A property that does not read the labels.
pub All-update_first :
    (P : LabelFile → Type 0) (id : Text) (labels : Map LabelKey Bip329Record) (xs : List LabelFile)
    → ((f : LabelFile) → P f → P (with_labels labels f))
    → All P xs
    → All P (update_first id labels xs)
All-update_first P id labels [] keep h = tt
All-update_first P id labels (x ∷ xs) keep h = elim (Bool-cases (x.id == id)) [
  | inl here ↦ rw here (keep x h.0, h.1)
  | inr there ↦ rw there (h.0, All-update_first P id labels xs keep h.1)
]

pub All-remove_first :
    (P : LabelFile → Type 0) (id : Text) (xs : List LabelFile)
    → All P xs
    → All P (remove_first id xs)
All-remove_first P id [] h = tt
All-remove_first P id (x ∷ xs) h = elim (Bool-cases (x.id == id)) [
  | inl here ↦ rw here h.1
  | inr there ↦ rw there (h.0, All-remove_first P id xs h.1)
]
