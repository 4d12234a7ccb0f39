-- ===== src/Base/TextOrder.antt =====
-- The order of texts by their bytes.
use mathlib.Core.Path.{◌≡◌, refl}
use mathlib.Core.Bool.{true, false}
use mathlib.Core.List.{[], ◌∷◌}
use native.Mathlib.Omega.{arith}
use cory.Base.Text.{Text, text_ltb}

pub text_ltb_asym : (s t : Text) → text_ltb s t ≡ true → text_ltb t s ≡ false
text_ltb_asym s [] h = cc h
text_ltb_asym [] (d ∷ t) h = refl
text_ltb_asym (c ∷ s) (d ∷ t) h = ground (arith, text_ltb_asym s t)

pub text_ltb-false_trans :
    (s t u : Text) → text_ltb s t ≡ false → text_ltb t u ≡ false → text_ltb s u ≡ false
text_ltb-false_trans s t [] h k = refl
text_ltb-false_trans s [] (e ∷ u) h k = cc k
text_ltb-false_trans [] (d ∷ t) (e ∷ u) h k = cc h
text_ltb-false_trans (c ∷ s) (d ∷ t) (e ∷ u) h k = ground (arith, text_ltb-false_trans s t u)

pub text_ltb_irrefl : (s : Text) → text_ltb s s ≡ false
text_ltb_irrefl [] = refl
text_ltb_irrefl (c ∷ s) = ground (arith, text_ltb_irrefl s)
