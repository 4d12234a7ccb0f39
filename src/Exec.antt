-- ===== src/Exec.antt =====
-- Async functions of the program as actions on a state: they return, fail with an error that `?`
-- passes on, or panic. `out_of_fuel` marks a loop that has used up the rounds its model is given.
-- What was written before a failure stays written.
use cory.Base.{◌≡◌, refl, subst}
use cory.Error.{CoreError, Result, ok, err}

pub data Outcome (A : Type 0) : Type 0 where
  done : A → Outcome A
  fail : CoreError → Outcome A
  panic : Outcome A
  out_of_fuel : Outcome A

abbrev pub Exec : Type 0 → Type 0 → Type 0
Exec S A = S → Outcome A × S

module _ {S : Type 0} where
  abbrev pub pure : {A : Type 0} → A → Exec S A
  pure a s = (done a, s)

  abbrev pub lift : {A : Type 0} → Result A → Exec S A
  lift (ok a) s = (done a, s)
  lift (err e) s = (fail e, s)

  abbrev pub continue : {A B : Type 0} → Outcome A → (A → Exec S B) → Exec S B
  continue (done a) f s = f a s
  continue (fail e) f s = (fail e, s)
  continue panic f s = (panic, s)
  continue out_of_fuel f s = (out_of_fuel, s)

  infixl 10 ◌>>=◌ ◌>>◌
  unfoldable pub ◌>>=◌ : {A B : Type 0} → Exec S A → (A → Exec S B) → Exec S B
  ◌>>=◌ m f s = let (r, s') = m s in continue r f s'

  abbrev pub ◌>>◌ : {B : Type 0} → Exec S (Unit {0}) → Exec S B → Exec S B
  m >> n = m >>= λ _. n

-- Inversion of a sequence that has returned.
module _ {S A B : Type 0} (f : A → Exec S B) {b : B} {u : S} where
  continue_done :
      (r : Outcome A) (t : S)
      → continue r f t ≡ (done b, u)
      → (a : A) × (r ≡ done a) × (f a t ≡ (done b, u))
  continue_done (done a) t h = (a, refl, h)
  continue_done (fail e) t h = cc
  continue_done panic t h = cc
  continue_done out_of_fuel t h = cc

  pub bind_done :
      (m : Exec S A) (s : S)
      → (m >>= f) s ≡ (done b, u)
      → (a : A) × ((m s).0 ≡ done a) × (f a (m s).1 ≡ (done b, u))
  unfolding ◌>>=◌
  bind_done m s h = continue_done (m s).0 (m s).1 h

-- Two actions that end early in the same way.
abbrev pub SameFailure : {A B : Type 0} → Outcome A → Outcome B → Type 0
SameFailure (fail d) (fail e) = d ≡ e
SameFailure panic panic = Unit
SameFailure out_of_fuel out_of_fuel = Unit
SameFailure _ _ = ⊥

-- `m` keeps the invariant of the state, and what it returns has the property.
pub record Ensures {S A : Type 0} (I : S → Type 0) (m : Exec S A) (Q : A → Type 0) : Type 0 where
  pub keeps : (s : S) → I s → I (m s).1
  pub returns : (s : S) (a : A) → I s → (m s).0 ≡ done a → Q a

module _ {S A : Type 0} (I : S → Type 0) where
  pub Ensures-pure : (a : A) (Q : A → Type 0) → Q a → Ensures I (pure a) Q
  Ensures-pure a Q q = record { keeps = λ s i. i; returns = λ s b i e. subst Q (cc e) q }

module _ {S A B : Type 0} (I : S → Type 0) (f : A → Exec S B) (P : A → Type 0) (Q : B → Type 0)
    (rest : (a : A) → P a → Ensures I (f a) Q) where
  continue_keeps :
      (r : Outcome A) (t : S) → I t → ((a : A) → r ≡ done a → P a) → I (continue r f t).1
  continue_keeps (done a) t i p = (rest a (p a refl)).keeps t i
  continue_keeps (fail e) t i p = i
  continue_keeps panic t i p = i
  continue_keeps out_of_fuel t i p = i

  continue_returns :
      (r : Outcome A) (t : S) (b : B)
      → I t
      → ((a : A) → r ≡ done a → P a)
      → (continue r f t).0 ≡ done b
      → Q b
  continue_returns (done a) t b i p e = (rest a (p a refl)).returns t b i e
  continue_returns (fail x) t b i p e = cc e
  continue_returns panic t b i p e = cc e
  continue_returns out_of_fuel t b i p e = cc e

  pub Ensures-bind : (m : Exec S A) → Ensures I m P → Ensures I (m >>= f) Q
  unfolding ◌>>=◌
  Ensures-bind m h = record {
    keeps = λ s i. continue_keeps (m s).0 (m s).1 (h.keeps s i) (λ a e. h.returns s a i e);
    returns =
        λ s b i e. continue_returns (m s).0 (m s).1 b (h.keeps s i) (λ a r. h.returns s a i r) e;
  }

-- The rule for one line of a `do` block.
pub Ensures-then :
    {S A B : Type 0} {I : S → Type 0} {m : Exec S A} {f : A → Exec S B} {P : A → Type 0}
    {Q : B → Type 0}
    → Ensures I m P
    → ((a : A) → P a → Ensures I (f a) Q)
    → Ensures I (m >>= f) Q
Ensures-then {I} {m} {f} {P} {Q} h rest = Ensures-bind I f P Q rest m h

pub Ensures-return :
    {S A : Type 0} {I : S → Type 0} {Q : A → Type 0} (a : A) → Q a → Ensures I (pure a) Q
Ensures-return {I} {Q} a q = Ensures-pure I a Q q

-- Of an action of which nothing is known.
pub Ensures-any : {S A : Type 0} (m : Exec S A) → Ensures (λ _. Unit {0}) m (λ _. Unit {0})
Ensures-any m = record { keeps = λ s i. tt; returns = λ s a i e. tt }

-- The action never runs out of fuel: nothing in it loops without end.
abbrev pub HasEnded : {A : Type 0} → Outcome A → Type 0
HasEnded out_of_fuel = ⊥
HasEnded _ = Unit

pub record Ends {S A : Type 0} (m : Exec S A) : Type 0 where
  pub ends : (s : S) → HasEnded (m s).0

pub Ends-pure : {S A : Type 0} (a : A) → Ends {S = S} (pure a)
Ends-pure a = record { ends = λ s. tt }

pub Ends-lift : {S A : Type 0} (r : Result A) → Ends {S = S} (lift r)
Ends-lift (ok a) = record { ends = λ s. tt }
Ends-lift (err e) = record { ends = λ s. tt }

module _ {S A B : Type 0} (f : A → Exec S B) (rest : (a : A) → Ends (f a)) where
  Ends-continue : (r : Outcome A) (s : S) → HasEnded r → HasEnded (continue r f s).0
  Ends-continue (done a) s h = (rest a).ends s
  Ends-continue (fail e) s h = tt
  Ends-continue panic s h = tt
  Ends-continue out_of_fuel s h = h

  Ends-bind : (m : Exec S A) → Ends m → Ends (m >>= f)
  unfolding ◌>>=◌
  Ends-bind m h = record { ends = λ s. Ends-continue (m s).0 (m s).1 (h.ends s) }

pub Ends-then :
    {S A B : Type 0} {m : Exec S A} {f : A → Exec S B}
    → Ends m
    → ((a : A) → Ends (f a))
    → Ends (m >>= f)
Ends-then {m} {f} h rest = Ends-bind f rest m h
