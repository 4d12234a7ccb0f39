-- ===== src/Rpc/Tests/Reported.antt =====
-- What the concrete JSON reports of the chain of Graph.Mock.
use cory.Base.{
  ℕ, ◌≡◌, refl, sym, ◌∙◌, ap, ap₂, subst, some, List, [], ◌∷◌, ◌⊎◌, inl, inr, nat_eq, Each,
}
use cory.Base.Text.{Text, text, text_eq}
use cory.Types.{Txid, Amount, Script, OutPoint}
use cory.Enrich.{classify_script}
use cory.Graph.Mock.{output_of, input_of, tx}
use cory.Graph.Mock.Honest.{fixed_chain}
use cory.Rpc.Parsing.Reports.{
  ReportsTx, ReportsOutput, ReportsVin, ReportsVout, ShowsAmount, ShowsScript,
}
use cory.Rpc.Tests.Json.{
  J, null, num, str, flag, array, object, get_field, text_of, u64_of, array_of, txid_of, no_script,
  js, bt,
}

pub is_same : {a b : J} → some a ≡ some b → a ≡ b
is_same e = cc

pub pair_same : {p q : J × J} → ◌≡◌ {A = Text ⊎ (J × J)} (inr p) (inr q) → p ≡ q
pair_same e = cc

str_text : (c : Text) (v : J) (s : Text) → some (str c) ≡ some v → text_of v ≡ some s → c ≡ s
str_text c (str d) s e t = cc (e, t)
str_text c null s e t = cc t
str_text c (num n) s e t = cc t
str_text c (flag b) s e t = cc t
str_text c (array n) s e t = cc t
str_text c (object n) s e t = cc t

num_value : (n : ℕ) (v : J) (m : ℕ) → some (num n) ≡ some v → u64_of v ≡ some m → n ≡ m
num_value n (num k) m e t = cc (e, t)
num_value n null m e t = cc t
num_value n (str d) m e t = cc t
num_value n (flag b) m e t = cc t
num_value n (array k) m e t = cc t
num_value n (object k) m e t = cc t

array_value :
    (n : ℕ) (v : J) (list : List J)
    → some (array n) ≡ some v
    → array_of v ≡ some list
    → object n ∷ [] ≡ list
array_value n (array k) list e t = cc (e, t)
array_value n null list e t = cc t
array_value n (str d) list e t = cc t
array_value n (flag b) list e t = cc t
array_value n (num k) list e t = cc t
array_value n (object k) list e t = cc t

txid_text : (c : ℕ) (s : Text) (t : Txid) → c ∷ [] ≡ s → txid_of s ≡ inr t → t ≡ c
txid_text c (d ∷ s) t e p = cc
txid_text c [] t e p = cc

num_amount : (n : ℕ) (v : J) (a : Amount) → some (num n) ≡ some v → ShowsAmount js bt v a → n ≡ a
num_amount n (num k) a e (inl (f, at, p)) = cc (e, at, p)
num_amount n (num k) a e (inr (s, at, p)) = cc p
num_amount n null a e shows = cc e
num_amount n (str d) a e shows = cc e
num_amount n (flag b) a e shows = cc e
num_amount n (array k) a e shows = cc e
num_amount n (object k) a e shows = cc e

-- The script of object 3 is empty.
no_bytes : (v : J) (s : Script) → some (object 3) ≡ some v → ShowsScript js bt v s → [] ≡ s
no_bytes v s e shows =
    let (h, hex, at, is_text, p) = subst (λ x. ShowsScript js bt x s) (sym (is_same e)) shows in
    str_text [] h hex at is_text ∙ cc p

pub reports_output : (n : ℕ) → ReportsOutput js bt (num n) (object 3) (output_of n)
unfolding classify_script
reports_output n = record {
  amount = λ a shows. num_amount n (num n) a refl shows;
  script = λ s shows. no_bytes (object 3) s refl shows;
  kind = refl;
}

reports_vout : ReportsVout js bt (object 2) (output_of 4000)
reports_vout v spk at_v at_spk =
    subst (λ x. ReportsOutput js bt x spk (output_of 4000)) (is_same at_v)
      (subst (λ x. ReportsOutput js bt (num 4000) x (output_of 4000)) (is_same at_spk)
        (reports_output 4000))

abbrev spent : OutPoint
spent = record { txid = 1; vout = 0 }

reports_vin : ReportsVin js bt fixed_chain (object 1) (some spent)
unfolding classify_script
reports_vin = record {
  coinbase = λ c at. cc at;
  spends = λ none_there t v txid vout at_t shows at_v n.
      let is_txid = txid_text 1 shows.0 txid (str_text (1 ∷ []) t shows.0 at_t shows.1) shows.2 in
      let is_vout = num_value 0 v vout at_v n in
      ap₂ (λ a b. some (record { txid = a; vout = b })) (sym is_txid) is_vout;
  value = λ p v a at_p at_v shows.
      let at : get_field (text "value") (object 4) ≡ some v =
        subst (λ x. get_field (text "value") x ≡ some v) (sym (is_same at_p)) at_v in
      (spent, output_of 5000, refl, refl, num_amount 5000 v a at shows);
  script = λ p spk s at_p at_spk shows.
      let at : get_field (text "scriptPubKey") (object 4) ≡ some spk =
        subst (λ x. get_field (text "scriptPubKey") x ≡ some spk) (sym (is_same at_p)) at_spk in
      (spent, output_of 5000, refl, refl, ap (classify_script no_script) (no_bytes spk s at shows));
}

pub reports_tx : ReportsTx js bt fixed_chain 2 (object 0)
reports_tx = record {
  original = tx 2 (input_of 1 0 ∷ []) (output_of 4000 ∷ []);
  known = refl;
  id = λ v t at shows. txid_text 2 shows.0 t (str_text (2 ∷ []) v shows.0 at shows.1) shows.2;
  inputs = λ v vin at list.
      subst (λ l. Each (ReportsVin js bt fixed_chain) l (some spent ∷ []))
        (array_value 1 v vin at list) (reports_vin, tt);
  outputs = λ v vout at list.
      subst (λ l. Each (ReportsVout js bt) l (output_of 4000 ∷ [])) (array_value 2 v vout at list)
        (reports_vout, tt);
}
