-- ===== src/Server/Labels/Archive/Names.antt =====
-- unique_zip_entry_name (crates/cory/src/server/labels.rs): the loop over the suffixes ends, with a
-- name that is not used.
use cory.Base.{
  ℕ, zero, suc, ◌+◌, ◌≤◌, ◌<◌, ◌^◌, ◌≡◌, ◌≢◌, refl, sym, ◌∙◌, true, false, some, List, [], ◌∷◌,
  if◌then◌else◌, contains, length, arith, Bool-cases, inl, inr, ◌==◌, ==_iff,
}
use mathlib.Core.List.{append_cancel_left, append_cancel_right}
use cory.Base.Text.{Text, text, text_eq, decimal}
use cory.Base.Integers.RoundTrip.{decimal-injective}
use cory.Server.Labels.Archive.{initial_name, candidate, free_candidate, unique_zip_entry_name}

candidate-injective :
    (base_name : Text) (n m : ℕ)
    → n < 2 ^ 64
    → m < 2 ^ 64
    → candidate base_name n ≡ candidate base_name m
    → n ≡ m
candidate-injective base_name n m small small' same =
    let after_folder = append_cancel_left (text "labels/") _ _ same in
    let after_base = append_cancel_left base_name _ _ after_folder in
    let after_dash = append_cancel_left (text "-") _ _ after_base in
    decimal-injective n m small small'
      (append_cancel_right (decimal n) (decimal m) (text ".jsonl") after_dash)

-- The names without one of them.
without : Text → List Text → List Text
without name [] = []
without name (n ∷ names) = let rest = without name names in if n == name then names else n ∷ rest

length-without :
    (name : Text) (names : List Text)
    → contains names name ≡ true
    → suc (length (without name names)) ≡ length names
unfolding without
length-without name [] h = cc h
length-without name (n ∷ names) h = ground (arith, length-without name names)

contains-without :
    (name other : Text) (names : List Text)
    → name ≢ other
    → contains (without name names) other ≡ contains names other
unfolding without
contains-without name other [] differ = refl
contains-without name other (n ∷ names) differ =
    ground (arith, ==_iff n name, ==_iff n other, contains-without name other names differ)

-- Only the candidates matter of the used names.
free_candidate-same :
    (fuel suffix : ℕ) (base_name : Text) (used used' : List Text)
    → ((k : ℕ)
        → suffix ≤ k
        → k < suffix + fuel
        → contains used (candidate base_name k) ≡ contains used' (candidate base_name k))
    → free_candidate fuel suffix base_name used ≡ free_candidate fuel suffix base_name used'
unfolding free_candidate
free_candidate-same zero suffix base_name used used' h = refl
free_candidate-same (suc fuel) suffix base_name used used' h =
    let now = h suffix (omega arith) (omega arith) in
    let later =
      free_candidate-same fuel (suc suffix) base_name used used'
        (λ k a b. h k (omega arith) (omega arith)) in
    cc (now, later)

-- More suffixes than used names, all below 2 ^ 64, are enough.
free_candidate-found :
    (fuel suffix : ℕ) (base_name : Text) (used : List Text)
    → length used < fuel
    → suffix + fuel < 2 ^ 64
    → (name : Text) × (free_candidate fuel suffix base_name used ≡ some name)
unfolding free_candidate
free_candidate-found zero suffix base_name used enough small = absurd (omega arith)
free_candidate-found (suc fuel) suffix base_name used enough small =
    elim (Bool-cases (contains used (candidate base_name suffix))) [
      | inl taken ↦
          let name = candidate base_name suffix in
          let fewer = length-without name used taken in
          let (other, found) =
            free_candidate-found fuel (suc suffix) base_name (without name used) (omega arith)
              (omega arith) in
          let same =
            free_candidate-same fuel (suc suffix) base_name used (without name used) (λ k from to.
              sym (
                contains-without name (candidate base_name k) used (λ e. omega (
                  arith,
                  candidate-injective base_name suffix k (omega arith) (omega arith) e,
                )))) in
          (other, rw taken (same ∙ found))
      | inr free ↦ (candidate base_name suffix, rw free refl)
    ]

free_candidate-unused :
    (fuel suffix : ℕ) (base_name : Text) (used : List Text) (name : Text)
    → free_candidate fuel suffix base_name used ≡ some name
    → contains used name ≡ false
unfolding free_candidate
free_candidate-unused zero suffix base_name used name h = cc h
free_candidate-unused (suc fuel) suffix base_name used name h =
    elim (Bool-cases (contains used (candidate base_name suffix))) [
      | inl taken ↦ free_candidate-unused fuel (suc suffix) base_name used name (rw taken at h)
      | inr free ↦
          let same : some (candidate base_name suffix) ≡ some name = rw free at h in
          let is : candidate base_name suffix ≡ name = cc same in rw is at free
    ]

-- unique_zip_entry_name returns a name that no entry has, if fewer than 2 ^ 30 names are used.
pub unique_zip_entry_name-IsNew :
    (base_name : Text) (used : List Text)
    → length used < 2 ^ 30
    → (name : Text) × (unique_zip_entry_name base_name used ≡ some name)
      × (contains used name ≡ false)
unfolding unique_zip_entry_name
unique_zip_entry_name-IsNew base_name used small =
    elim (Bool-cases (contains used (initial_name base_name))) [
      | inl taken ↦
          let (name, found) =
            free_candidate-found (suc (length used)) 2 base_name used (omega arith) (omega arith) in
          (name, (rw taken found), free_candidate-unused _ 2 base_name used name found)
      | inr free ↦ (initial_name base_name, (rw free refl), free)
    ]
