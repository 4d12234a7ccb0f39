-- ===== src/Rpc/Client/Calls.antt =====
-- Inversion of the calls of crates/cory-core/src/rpc/http_adapter/client.rs that have returned Ok.
use cory.Base.{arith, ◌≡◌, ◌∙◌, subst, refl, List, ◌∷◌, ◌⊎◌, inl, inr}
use cory.Base.Text.{Text}
use cory.Error.{Result, ok, err, ok-injective}
use cory.Rpc.{call_each, after_call, push_result}
use cory.Rpc.Client.{ClientState, Call, lift, continue, ◌>>=◌, decoded, body_of}

module _ {S A B : Type 0} (f : A → Call S B) {b : B} where
  continue-ok :
      (r : Result A) (t : S) → (continue r f t).0 ≡ ok b → (a : A) × (r ≡ ok a) × ((f a t).0 ≡ ok b)
  continue-ok (ok a) t h = (a, refl, h)
  continue-ok (err e) t h = cc

  pub bind-ok :
      (m : Call S A) (s : S)
      → ((m >>= f) s).0 ≡ ok b
      → (a : A) × ((m s).0 ≡ ok a) × ((f a (m s).1).0 ≡ ok b)
  unfolding ◌>>=◌
  bind-ok m s h = continue-ok (m s).0 (m s).1 h

-- A run of `call_each` on one element more.
pub record CalledFirst {R A B : Type 0} (call : A → R → Result B × R) (a : A) (list : List A)
    (r : R) (bs : List B) : Type 0 where
  pub head : B
  pub rest : List B
  pub first : (call a r).0 ≡ ok head
  pub others : (call_each call list (call a r).1).0 ≡ ok rest
  pub all : head ∷ rest ≡ bs

module _ {R B : Type 0} where
  push_result-ok :
      (b : B) (p : Result (List B) × R) (bs : List B)
      → (push_result b p).0 ≡ ok bs
      → (cs : List B) × (p.0 ≡ ok cs) × (b ∷ cs ≡ bs)
  push_result-ok b (ok cs, r) bs h = (cs, refl, cc h)
  push_result-ok b (err e, r) bs h = cc h

  after_call-ok :
      (p : Result B × R) (next : R → Result (List B) × R) (bs : List B)
      → (after_call p next).0 ≡ ok bs
      → (b : B) × (cs : List B) × (p.0 ≡ ok b) × ((next p.1).0 ≡ ok cs) × (b ∷ cs ≡ bs)
  after_call-ok (ok b, r) next bs h =
      let (cs, e, same) = push_result-ok b (next r) bs h in (b, cs, refl, e, same)
  after_call-ok (err e, r) next bs h = cc h

module _ {R A B : Type 0} where
  pub call_each-cons :
      (call : A → R → Result B × R) (a : A) (list : List A) (r : R) (bs : List B)
      → (call_each call (a ∷ list) r).0 ≡ ok bs
      → CalledFirst call a list r bs
  unfolding call_each
  call_each-cons call a list r bs h =
      let (b, cs, e, rest, same) = after_call-ok (call a r) (call_each call list) bs h in
      record { head = b; rest = cs; first = e; others = rest; all = same }

pub body_of-ok : (r : Text ⊎ Text) (body : Text) → body_of r ≡ ok body → r ≡ inr body
body_of-ok (inl message) body h = cc h
body_of-ok (inr b) body h = cc h

module _ {A : Type 0} (what : Text) (read : Text → Text ⊎ A) where
  pub decoded-ok : (body : Text) (a : A) → decoded what read body ≡ ok a → read body ≡ inr a
  decoded-ok body a h = ground (arith, h)

-- The call reserves no ids.
abbrev pub SameIds : {C N A : Type 0} → Call (ClientState C N) A → Type 0
SameIds {C} {N} m = (s : ClientState C N) → (m s).1.next_id ≡ s.next_id

module _ {C N A B : Type 0} (f : A → Call (ClientState C N) B)
    (rest : (a : A) → SameIds (f a)) where
  continue-SameIds : (r : Result A) (s : ClientState C N) → (continue r f s).1.next_id ≡ s.next_id
  continue-SameIds (ok a) s = rest a s
  continue-SameIds (err e) s = refl

  pub bind-SameIds : (m : Call (ClientState C N) A) → SameIds m → SameIds (m >>= f)
  unfolding ◌>>=◌
  bind-SameIds m h s = continue-SameIds (m s).0 (m s).1 ∙ h s

-- What the call returns has the property, in whatever state it is made.
pub record Returns {S A : Type 0} (m : Call S A) (Q : A → Type 0) : Type 0 where
  pub returns : (s : S) (a : A) → (m s).0 ≡ ok a → Q a

pub Returns-any : {S A : Type 0} (m : Call S A) → Returns m (λ _. Unit {0})
Returns-any m = record { returns = λ s a e. tt }

pub Returns-lift : {S A : Type 0} (r : Result A) → Returns {S = S} (lift r) (λ a. r ≡ ok a)
Returns-lift r = record { returns = λ s a e. e }

pub Returns-ok : {S A : Type 0} {Q : A → Type 0} (a : A) → Q a → Returns {S = S} (lift (ok a)) Q
Returns-ok {Q} a q = record { returns = λ s b e. subst Q (ok-injective e) q }

pub Returns-then :
    {S A B : Type 0} {m : Call S A} {f : A → Call S B} {P : A → Type 0} {Q : B → Type 0}
    → Returns m P
    → ((a : A) → P a → Returns (f a) Q)
    → Returns (m >>= f) Q
Returns-then {m} {f} h rest = record {
  returns = λ s b e.
      let (a, first, last) = bind-ok f m s e in
      (rest a (h.returns s a first)).returns (m s).1 b last;
}
