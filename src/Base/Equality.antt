-- ===== src/Base/Equality.antt =====
-- `Eq` of the keys of maps and sets: a Boolean test that decides paths.
use mathlib.Core.Path.{◌≡◌}
use mathlib.Core.Logic.{◌↔◌}
use mathlib.Core.Bool.{Bool, true, false, ◌||◌}
use mathlib.Core.List.{List, [], ◌∷◌}
use Prim.Native.Nat.{ℕ}
use cory.Base.Tests.{nat_beq, nat_beq_iff}

pub record HashKey {ℓ} (K : Type ℓ) : Type ℓ where
  pub same_key : K → K → Bool
  pub same_key_iff : (j k : K) → (same_key j k ≡ true) ↔ (j ≡ k)

instance abbrev pub nat_eq : HashKey ℕ
nat_eq = record { same_key = nat_beq; same_key_iff = nat_beq_iff }

module _ {ℓ} {K : Type ℓ} ⦃key : HashKey K⦄ where
  infix 50 ◌==◌
  abbrev pub ◌==◌ : K → K → Bool
  ◌==◌ = key.same_key

  pub ==_iff : (j k : K) → ((j == k) ≡ true) ↔ (j ≡ k)
  ==_iff j k = key.same_key_iff j k

  -- HashSet::contains, over the elements in some order.
  abbrev pub contains : List K → K → Bool
  contains [] a = false
  contains (b ∷ set) a = b == a || contains set a
