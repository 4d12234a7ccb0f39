-- ===== src/Base/Map.antt =====
-- std::collections::HashMap as an association list. A new key goes to the end, and a write to a
-- key that is there keeps its place: one of the orders in which a hash map may be iterated.
use Prim.Native.Nat.{suc}
use mathlib.Core.Path.{◌≡◌, refl, sym, subst}
use mathlib.Core.Logic.{inl, inr}
use mathlib.Core.Bool.{Bool, true, ◌||◌}
use mathlib.Core.Option.{Option, none, some}
use mathlib.Core.List.{List, [], ◌∷◌}
use native.Mathlib.Omega.{arith}
use cory.Base.Tests.{Bool-cases, if◌then◌else◌}
use cory.Base.Lists.{length}
use cory.Base.Equality.{HashKey, ◌==◌, ==_iff, contains}

abbrev pub Map : Type 0 → Type 0 → Type 0
Map K V = List (K × V)

module _ {K V : Type 0} where
  abbrev pub keys : Map K V → List K
  keys [] = []
  keys ((k, v) ∷ m) = k ∷ keys m

  abbrev pub values : Map K V → List V
  values [] = []
  values ((k, v) ∷ m) = v ∷ values m

module _ {K V : Type 0} ⦃key : HashKey K⦄ where
  abbrev pub get : Map K V → K → Option V
  get [] k = none
  get ((j, v) ∷ m) k = if j == k then some v else get m k

  abbrev pub insert : K → V → Map K V → Map K V
  insert k v [] = (k, v) ∷ []
  insert k v ((j, w) ∷ m) = if j == k then (j, v) ∷ m else (j, w) ∷ insert k v m

  abbrev pub remove : K → Map K V → Map K V
  remove k [] = []
  remove k ((j, w) ∷ m) = if j == k then m else (j, w) ∷ remove k m

  abbrev pub contains_key : Map K V → K → Bool
  contains_key m k = contains (keys m) k

  pub get-insert :
      (k j : K) (v : V) (m : Map K V) → get (insert k v m) j ≡ (if k == j then some v else get m j)
  get-insert k j v [] = refl
  get-insert k j v ((i, w) ∷ m) =
      ground (arith, ==_iff k j, ==_iff i k, ==_iff i j, get-insert k j v m)

  pub contains_key-insert :
      (k j : K) (v : V) (m : Map K V) → contains_key (insert k v m) j ≡ (k == j || contains_key m j)
  contains_key-insert k j v [] = refl
  contains_key-insert k j v ((i, w) ∷ m) =
      ground (arith, ==_iff k j, ==_iff i k, ==_iff i j, contains_key-insert k j v m)

  pub length-insert :
      (k : K) (v : V) (m : Map K V)
      → length (insert k v m) ≡ (if contains_key m k then length m else suc (length m))
  length-insert k v [] = refl
  length-insert k v ((i, w) ∷ m) = ground (arith, length-insert k v m)

  pub contains_key-get : (m : Map K V) (k : K) (v : V) → get m k ≡ some v → contains_key m k ≡ true
  contains_key-get [] k v h = cc
  contains_key-get ((j, w) ∷ m) k v h = ground (arith, contains_key-get m k v)

  pub get-contains_key :
      (m : Map K V) (k : K) → contains_key m k ≡ true → (v : V) × (get m k ≡ some v)
  get-contains_key [] k h = cc
  get-contains_key ((j, w) ∷ m) k h = elim (Bool-cases (j == k)) [
    | inl here ↦ (w, rw here)
    | inr there ↦ let (v, found) = get-contains_key m k (rw there at h) in (v, rw there found)
  ]

-- Every entry has the property.
abbrev pub Entries : {K V : Type 0} → (K → V → Type 0) → Map K V → Type 0
Entries P [] = Unit
Entries P ((k, v) ∷ m) = P k v × Entries P m

module _ {K V : Type 0} ⦃key : HashKey K⦄ (P : K → V → Type 0) where
  pub Entries-insert :
      (k : K) (v : V) (m : Map K V) → P k v → Entries P m → Entries P (insert k v m)
  Entries-insert k v [] p h = (p, tt)
  Entries-insert k v ((j, w) ∷ m) p h = elim (Bool-cases (j == k)) [
    | inl same ↦ rw same (subst (λ i. P i v) (sym ((==_iff j k).0 same)) p, h.1)
    | inr differ ↦ rw differ (h.0, Entries-insert k v m p h.1)
  ]

  pub Entries-remove : (k : K) (m : Map K V) → Entries P m → Entries P (remove k m)
  Entries-remove k [] h = tt
  Entries-remove k ((j, w) ∷ m) h = elim (Bool-cases (j == k)) [
    | inl same ↦ rw same h.1
    | inr differ ↦ rw differ (h.0, Entries-remove k m h.1)
  ]

  pub Entries-get : (m : Map K V) (k : K) (v : V) → Entries P m → get m k ≡ some v → P k v
  Entries-get [] k v h e = cc
  Entries-get ((j, w) ∷ m) k v h e = elim (Bool-cases (j == k)) [
    | inl same ↦
        let is_v : w ≡ v = cc (rw same at e) in
        subst (λ i. P i v) ((==_iff j k).0 same) (subst (P j) is_v h.0)
    | inr differ ↦ Entries-get m k v h.1 (rw differ at e)
  ]

pub ruleset map_laws = (get-insert, contains_key-insert, length-insert)
