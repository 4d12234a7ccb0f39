-- ===== src/Rpc/Parsing/Readings.antt =====
-- What the functions of crates/cory-core/src/rpc/http_adapter/parsing.rs return stands in the JSON
-- value that they read.
use cory.Base.{
  ℕ, ◌≡◌, refl, ◌∙◌, ap, true, false, Option, none, some, List, [], ◌∷◌, ◌++◌, ◌⊎◌, inl, inr, Each,
  arith, Bool-cases,
}
use cory.Base.Text.{Text, text}
use cory.Error.{pos, Result, ok, err, ◌>>=◌, passed}
use cory.Types.{Txid, Amount, Script, ScriptType, TxOutput}
use cory.Enrich.{classify_script}
use cory.Rpc.Json.{JsonValue, BitcoinTypes, ValueView, number, string, other}
use cory.Rpc.Parsing.{
  Integer, required, checked, and_then, ok_of, try_map, parse_integer_required, parse_txid,
  parse_btc_amount, parse_script_pubkey_from_json, script_from_hex, parse_vout, parse_output,
  parse_viewed, with_number, converted, missing_or_none, pos_of, in_range, type_of, output_with,
}
use cory.Rpc.Parsing.Reports.{ShowsAmount, ShowsScript, ShowsTxid, ReportsOutput, ReportsVout}

pub required-ok :
    {A : Type 0} (message : Text) (o : Option A) (a : A) → required message o ≡ ok a → o ≡ some a
required-ok message none a h = cc h
required-ok message (some b) a h = cc h

pub checked-ok :
    {A : Type 0} (prefix : Text) (r : Text ⊎ A) (a : A) → checked prefix r ≡ ok a → r ≡ inr a
checked-ok prefix (inl message) a h = cc h
checked-ok prefix (inr b) a h = cc h

pub and_then-some :
    {A B : Type 0} (o : Option A) (f : A → Option B) (b : B)
    → and_then o f ≡ some b
    → (a : A) × (o ≡ some a) × (f a ≡ some b)
and_then-some none f b h = cc h
and_then-some (some a) f b h = (a, refl, h)

pub ok_of-some : {A : Type 0} (r : Result A) (a : A) → ok_of r ≡ some a → r ≡ ok a
ok_of-some (ok b) a h = cc h
ok_of-some (err e) a h = cc h

with_number-pos :
    (T : Integer) (field : Text) (o : Option ℕ) (n : ℕ)
    → (with_number T true field (pos_of o) >>= required (text "missing " ++ field)) ≡ ok n
    → o ≡ some n
unfolding with_number missing_or_none converted
with_number-pos T field none n h = cc h
with_number-pos T field (some m) n h = elim (Bool-cases (in_range T (pos m))) [
  | inl fits ↦ ap some (cc (rw fits at h))
  | inr over ↦ absurd (cc (rw over at h))
]

abbrev pub hex_message : Text
hex_message = text "invalid scriptPubKey hex: "

module _ {V F : Type 0} (js : JsonValue V F) (bt : BitcoinTypes F) where
  pub parse_txid-Shows :
      (value : Option V) (field : Text) (t : Txid)
      → parse_txid js bt value field ≡ ok t
      → (v : V) × (value ≡ some v) × ShowsTxid js bt v t
  unfolding parse_txid
  parse_txid-Shows value field t h =
      let (s, e, parsed) = passed _ _ h in
      let (v, at, is_text) = and_then-some value js.as_str s (required-ok _ _ s e) in
      (v, at, (s, is_text, checked-ok (text "invalid " ++ field ++ text ": ") _ t parsed))

  viewed-Shows :
      (v : V) (view : ValueView F) (a : Amount)
      → js.view v ≡ view
      → parse_viewed js bt v view ≡ ok a
      → ShowsAmount js bt v a
  unfolding parse_viewed
  viewed-Shows v (number n) a seen h =
      let (f, e, parsed) = passed _ (required _ n) h in
      inl (
        f,
        seen ∙ ap number (required-ok _ n f e),
        checked-ok (text "invalid BTC amount `" ++ js.show v ++ text "`: ") _ a parsed,
      )
  viewed-Shows v (string s) a seen h =
      inr (s, seen, checked-ok (text "invalid BTC amount `" ++ s ++ text "`: ") _ a h)
  viewed-Shows v other a seen h = cc h

  pub parse_btc_amount-Shows :
      (v : V) (a : Amount) → parse_btc_amount js bt v ≡ ok a → ShowsAmount js bt v a
  unfolding parse_btc_amount
  parse_btc_amount-Shows v a h = viewed-Shows v (js.view v) a refl h

  pub parse_script-Shows :
      (spk : V) (s : Script)
      → parse_script_pubkey_from_json js bt spk ≡ ok s
      → ShowsScript js bt spk s
  unfolding parse_script_pubkey_from_json script_from_hex
  parse_script-Shows spk s h =
      let (hex_str, e, parsed) = passed _ _ h in
      let (v, at, is_text) =
        and_then-some (js.get (text "hex") spk) js.as_str hex_str (required-ok _ _ hex_str e) in
      (v, hex_str, at, is_text, checked-ok (text "invalid scriptPubKey hex: ") _ s parsed)

  -- An output of this amount and script is the one that is reported.
  pub output_with-same :
      (v spk : V) (a : Amount) (s : Script) (o : TxOutput)
      → ShowsAmount js bt v a
      → ShowsScript js bt spk s
      → ReportsOutput js bt v spk o
      → output_with js bt a s ≡ o
  output_with-same v spk a s o amount script r =
      ground (arith, r.amount a amount, r.script s script, r.kind)

  parse_output-same :
      (raw : V) (parsed o : TxOutput)
      → parse_output js bt raw ≡ ok parsed
      → ReportsVout js bt raw o
      → parsed ≡ o
  unfolding parse_output
  parse_output-same raw parsed o h reports =
      let (v, at_v, h₁) = passed _ (required _ (js.get (text "value") raw)) h in
      let (a, amount, h₂) = passed _ (parse_btc_amount js bt v) h₁ in
      let (spk, at_spk, h₃) = passed _ (required _ (js.get (text "scriptPubKey") raw)) h₂ in
      let (s, script, h₄) = passed _ (parse_script_pubkey_from_json js bt spk) h₃ in
      cc (
        h₄,
        output_with-same v spk a s o (parse_btc_amount-Shows v a amount)
            (parse_script-Shows spk s script)
            (reports v spk (required-ok _ _ v at_v) (required-ok _ _ spk at_spk)),
      )

  pub parse_vout-same :
      (vout : List V) (parsed original : List TxOutput)
      → parse_vout js bt vout ≡ ok parsed
      → Each (ReportsVout js bt) vout original
      → parsed ≡ original
  unfolding parse_vout
  parse_vout-same [] parsed [] h reports = cc h
  parse_vout-same [] parsed (o ∷ original) h reports = absurd reports
  parse_vout-same (raw ∷ vout) parsed [] h reports = absurd reports
  parse_vout-same (raw ∷ vout) parsed (o ∷ original) h reports =
      let (p, first, h₁) = passed _ (parse_output js bt raw) h in
      let (ps, others, h₂) = passed _ (try_map (parse_output js bt) vout) h₁ in
      cc (
        h₂,
        parse_output-same raw p o first reports.0,
        parse_vout-same vout ps original others reports.1,
      )

  -- An optional integer that is required, where it is not negative.
  pub parse_integer_required-u64 :
      (T : Integer) (value : Option V) (field : Text) (n : ℕ)
      → parse_integer_required js T false value field ≡ ok n
      → (v : V) × (value ≡ some v) × (js.as_u64 v ≡ some n)
  unfolding parse_integer_required
  parse_integer_required-u64 T none field n h = cc h
  parse_integer_required-u64 T (some v) field n h =
      (v, refl, with_number-pos T field (js.as_u64 v) n h)

  pub type_of-some :
      (o : Option Script) (k : ScriptType)
      → type_of js bt o ≡ some k
      → (s : Script) × (o ≡ some s) × (classify_script bt.tests s ≡ k)
  type_of-some none k h = cc h
  type_of-some (some s) k h = (s, refl, cc h)
