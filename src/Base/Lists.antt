-- ===== src/Base/Lists.antt =====
-- Lists measured and indexed by native numbers, under the library's names.
use Prim.Native.Nat.{ℕ, zero, suc, ◌+◌, ◌-◌, ◌≤◌, ◌<◌}
use mathlib.Core.Path.{◌≡◌, refl, ap, sym, subst}
use mathlib.Core.Logic.{◌≢◌, ⊎_elim}
use mathlib.Core.List.{List, [], ◌∷◌, ◌++◌, Memᴰ}
use mathlib.Core.List.Memᴰ
use mathlib.Core.Option.{Option, none, some}
use native.Mathlib.Omega.{arith}

module _ {ℓ} {A : Type ℓ} where
  abbrev pub length : List A → ℕ
  length [] = 0
  length (x ∷ xs) = suc (length xs)

  abbrev pub get_elem? : List A → ℕ → Option A
  get_elem? [] i = none
  get_elem? (x ∷ xs) zero = some x
  get_elem? (x ∷ xs) (suc i) = get_elem? xs i

  -- A write out of bounds changes nothing.
  abbrev pub set : List A → ℕ → A → List A
  set [] i v = []
  set (x ∷ xs) zero v = v ∷ xs
  set (x ∷ xs) (suc i) v = x ∷ set xs i v

  abbrev pub replicate : ℕ → A → List A
  replicate zero a = []
  replicate (suc n) a = a ∷ replicate n a

  abbrev pub take : ℕ → List A → List A
  take (suc n) (x ∷ xs) = x ∷ take n xs
  take _ _ = []

  abbrev pub drop : ℕ → List A → List A
  drop (suc n) (x ∷ xs) = drop n xs
  drop _ xs = xs

  -- Iterator::flatten over lists
  abbrev pub flatten : List (List A) → List A
  flatten [] = []
  flatten (xs ∷ xss) = xs ++ flatten xss

  -- slice::chunks, on as much fuel as the slice is long
  abbrev pub chunks : ℕ → ℕ → List A → List (List A)
  chunks fuel size [] = []
  chunks zero size (x ∷ xs) = []
  chunks (suc fuel) size (x ∷ xs) = take size (x ∷ xs) ∷ chunks fuel size (drop size (x ∷ xs))

  take-append-drop : (n : ℕ) (xs : List A) → take n xs ++ drop n xs ≡ xs
  take-append-drop (suc n) (x ∷ xs) = ap (◌∷◌ x) (take-append-drop n xs)
  take-append-drop _ _ = refl

  length-drop : (n : ℕ) (xs : List A) → length (drop n xs) ≡ length xs - n
  length-drop (suc n) (x ∷ xs) = omega (arith, length-drop n xs)
  length-drop _ _ = omega arith

  -- The chunks make up the list, where their size is not zero.
  pub flatten-chunks :
      (fuel size : ℕ) (xs : List A)
      → length xs ≤ fuel
      → 0 < size
      → flatten (chunks fuel size xs) ≡ xs
  flatten-chunks fuel size [] h pos = refl
  flatten-chunks zero size (x ∷ xs) h pos = absurd (omega arith)
  flatten-chunks (suc fuel) size (x ∷ xs) h pos =
      rw
        (flatten-chunks fuel size (drop size (x ∷ xs)) (omega (arith, length-drop size (x ∷ xs)))
          pos)
        (take-append-drop size (x ∷ xs))

  pub length-append : (xs ys : List A) → length (xs ++ ys) ≡ length xs + length ys
  length-append [] ys = omega arith
  length-append (x ∷ xs) ys = omega (arith, length-append xs ys)

  pub length-set : (xs : List A) (i : ℕ) (v : A) → length (set xs i v) ≡ length xs
  length-set [] i v = refl
  length-set (x ∷ xs) zero v = refl
  length-set (x ∷ xs) (suc i) v = ap suc (length-set xs i v)

-- Every element has the property.
abbrev pub All {ℓ κ} : {A : Type ℓ} → (A → Type κ) → List A → Type κ
All P [] = Unit
All P (x ∷ xs) = P x × All P xs

module _ {ℓ κ} {A : Type ℓ} (P : A → Type κ) where
  pub All-append : (xs ys : List A) → All P xs → All P ys → All P (xs ++ ys)
  All-append [] ys hx hy = hy
  All-append (x ∷ xs) ys hx hy = (hx.0, All-append xs ys hx.1 hy)

  pub All-mem : (xs : List A) {a : A} → All P xs → Memᴰ a xs → P a
  All-mem [] h m = absurd (Memᴰ.not-nil m)
  All-mem (x ∷ xs) {a} h m =
      ⊎_elim (λ e. subst P (sym e) h.0) (λ r. All-mem xs h.1 r) (Memᴰ.cases_cons m)

-- No two elements of the list are the same.
abbrev pub Distinct : {A : Type 0} → List A → Type 0
Distinct [] = Unit
Distinct (i ∷ is) = All (λ j. i ≢ j) is × Distinct is

pub All-mono {ℓ κ μ} :
    {A : Type ℓ} (P : A → Type κ) (Q : A → Type μ) (xs : List A)
    → ((a : A) → P a → Q a)
    → All P xs
    → All Q xs
All-mono P Q [] f h = tt
All-mono P Q (x ∷ xs) f h = (f x h.0, All-mono P Q xs f h.1)

-- The two lists correspond, element by element.
abbrev pub Each : {A B : Type 0} → (A → B → Type 0) → List A → List B → Type 0
Each R [] [] = Unit
Each R (a ∷ l) (b ∷ bs) = R a b × Each R l bs
Each R _ _ = ⊥

pub Each-append :
    {A B : Type 0} (R : A → B → Type 0) (l l' : List A) (bs bs' : List B)
    → Each R l bs
    → Each R l' bs'
    → Each R (l ++ l') (bs ++ bs')
Each-append R [] l' [] bs' e e' = e'
Each-append R [] l' (b ∷ bs) bs' e e' = absurd e
Each-append R (a ∷ l) l' [] bs' e e' = absurd e
Each-append R (a ∷ l) l' (b ∷ bs) bs' e e' = (e.0, Each-append R l l' bs bs' e.1 e')

pub length-Each :
    {A B : Type 0} (R : A → B → Type 0) (l : List A) (bs : List B)
    → Each R l bs
    → length bs ≡ length l
length-Each R [] [] e = refl
length-Each R [] (b ∷ bs) e = absurd e
length-Each R (a ∷ l) [] e = absurd e
length-Each R (a ∷ l) (b ∷ bs) e = ap suc (length-Each R l bs e.1)

-- The list `qs` stands in `ps` from the index `idx` on.
module _ {A : Type 0} where
  abbrev pub From : List A → ℕ → List A → Type 0
  From ps idx qs = (j : ℕ) (q : A) → get_elem? qs j ≡ some q → get_elem? ps (j + idx) ≡ some q

  pub From-head :
      (ps : List A) (idx : ℕ) (q : A) (qs : List A)
      → From ps idx (q ∷ qs)
      → get_elem? ps idx ≡ some q
  From-head ps idx q qs h = let e : 0 + idx ≡ idx = omega arith in rw e at (h 0 q refl)

  pub From-tail :
      (ps : List A) (idx : ℕ) (q : A) (qs : List A) → From ps idx (q ∷ qs) → From ps (suc idx) qs
  From-tail ps idx q qs h j r e =
      let same : j + suc idx ≡ suc j + idx = omega arith in rw same (h (suc j) r e)

  pub From-all : (ps : List A) → From ps 0 ps
  From-all ps j q h = let e : j + 0 ≡ j = omega arith in rw e h
