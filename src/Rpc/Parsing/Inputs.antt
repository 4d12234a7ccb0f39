-- ===== src/Rpc/Parsing/Inputs.antt =====
-- The inputs that crates/cory-core/src/rpc/http_adapter/parsing.rs reads (parse_vin), and the answers
-- of gettxout, against what the JSON values report of a chain.
use cory.Base.{
  ◌≡◌, refl, sym, ◌∙◌, ap, ap₂, subst, Bool, true, false, Option, some, List, [], ◌∷◌, inl, inr,
  Each, All, Option-cases, Bool-cases,
}
use cory.Base.Text.{text}
use cory.Error.{ok, passed, ok-injective}
use cory.Types.{OutPoint, TxInput, TxOutput, is_some}
use cory.Graph.Chain.{Chain, FundedBy, InputFaithful, AnswersOut, funding_output, prevouts}
use cory.Rpc.Json.{JsonValue, BitcoinTypes}
use cory.Rpc.Parsing.{
  Integer, checked, try_map, parse_integer_required, parse_txid, parse_btc_amount,
  parse_script_pubkey_from_json, script_from_hex, parse_gettxout_result, parse_present, parse_vin,
  parse_input, parse_prevout, prevout_value, prevout_script, type_of,
}
use cory.Rpc.Parsing.Reports.{ReportsOutput, ReportsVin, ReportsTxOut}
use cory.Rpc.Parsing.Readings.{
  checked-ok, and_then-some, ok_of-some, hex_message, parse_txid-Shows, parse_btc_amount-Shows,
  parse_script-Shows, output_with-same, parse_integer_required-u64, type_of-some,
}

module _ {V F : Type 0} (js : JsonValue V F) (bt : BitcoinTypes F) (chain : Chain) where
  -- What parse_input says of the output spent is what is reported.
  prevout-faithful :
      (raw : V) (prevout : Option OutPoint) (input : TxInput)
      → ReportsVin js bt chain raw prevout
      → input.prevout ≡ prevout
      → input.value ≡ prevout_value js bt raw
      → input.script_type ≡ type_of js bt (prevout_script js bt raw)
      → InputFaithful chain input
  unfolding script_from_hex
  prevout-faithful raw prevout input r spent is_value is_type = record {
    value = λ a e.
        let (p, at_p, e₁) = and_then-some (js.get (text "prevout") raw) _ a (sym is_value ∙ e) in
        let (v, at_v, e₂) = and_then-some (js.get (text "value") p) _ a e₁ in
        subst (λ o. FundedBy chain o (λ x. x.value ≡ a)) (sym spent)
          (r.value p v a at_p at_v (parse_btc_amount-Shows js bt v a (ok_of-some _ a e₂)));
    script_type = λ k e.
        let (s, at_s, same) = type_of-some js bt (prevout_script js bt raw) k (sym is_type ∙ e) in
        let (p, at_p, e₁) = and_then-some (js.get (text "prevout") raw) _ s at_s in
        let (spk, at_spk, e₂) = and_then-some (js.get (text "scriptPubKey") p) _ s e₁ in
        let (h, at_h, e₃) = and_then-some (js.get (text "hex") spk) _ s e₂ in
        let (hex, is_text, e₄) = and_then-some (js.as_str h) _ s e₃ in
        let shown = checked-ok hex_message (bt.script_from_hex hex) s (ok_of-some _ s e₄) in
        let funded = r.script p spk s at_p at_spk (h, hex, at_h, is_text, shown) in
        subst (λ o. FundedBy chain o (λ x. x.script_type ≡ k)) (sym spent)
          (subst (λ t. FundedBy chain prevout (λ x. x.script_type ≡ t)) same funded);
  }

  parse_prevout-same :
      (raw : V) (is_coinbase : Bool) (parsed prevout : Option OutPoint)
      → is_some (js.get (text "coinbase") raw) ≡ is_coinbase
      → parse_prevout js bt is_coinbase raw ≡ ok parsed
      → ReportsVin js bt chain raw prevout
      → parsed ≡ prevout
  unfolding parse_prevout
  parse_prevout-same raw true parsed prevout key h r =
      elim (Option-cases (js.get (text "coinbase") raw)) [
        | inl missing ↦ absurd (cc (rw missing at key))
        | inr (c, found) ↦ cc (h, r.coinbase c found)
      ]
  parse_prevout-same raw false parsed prevout key h r =
      elim (Option-cases (js.get (text "coinbase") raw)) [
        | inl missing ↦
            let (txid, is_txid, h₁) = passed _ (parse_txid js bt (js.get (text "txid") raw) _) h in
            let (vout, is_vout, h₂) =
              passed _ (parse_integer_required js Integer.u32 false (js.get (text "vout") raw) _)
                h₁ in
            let (t, at_t, shows) =
              parse_txid-Shows js bt (js.get (text "txid") raw) _ txid is_txid in
            let (v, at_v, number_v) =
              parse_integer_required-u64 js bt Integer.u32 (js.get (text "vout") raw)
                (text "vin.vout") vout is_vout in
            cc (h₂, r.spends missing t v txid vout at_t shows at_v number_v)
        | inr (c, found) ↦ absurd (cc (rw found at key))
      ]

  parse_input-faithful :
      (raw : V) (prevout : Option OutPoint) (input : TxInput)
      → parse_input js bt raw ≡ ok input
      → ReportsVin js bt chain raw prevout
      → (input.prevout ≡ prevout) × InputFaithful chain input
  unfolding parse_input
  parse_input-faithful raw prevout input h r =
      let (sequence, is_sequence, h₁) =
        passed _ (parse_integer_required js Integer.u32 false (js.get (text "sequence") raw) _) h in
      let (op, is_op, h₂) = passed _ (parse_prevout js bt _ raw) h₁ in
      let same = parse_prevout-same raw _ op prevout refl is_op r in
      let made = sym (ok-injective h₂) in
      let spent : input.prevout ≡ prevout = ap (λ (i : TxInput). i.prevout) made ∙ same in
      (
        spent,
        prevout-faithful raw prevout input r spent (ap (λ (i : TxInput). i.value) made)
            (ap (λ (i : TxInput). i.script_type) made),
      )

  pub parse_vin-faithful :
      (vin : List V) (ops : List (Option OutPoint)) (parsed : List TxInput)
      → parse_vin js bt vin ≡ ok parsed
      → Each (ReportsVin js bt chain) vin ops
      → (prevouts parsed ≡ ops) × All (InputFaithful chain) parsed
  unfolding parse_vin
  parse_vin-faithful [] [] parsed h reports =
      subst (λ l. (prevouts l ≡ []) × All (InputFaithful chain) l) (ok-injective h) (refl, tt)
  parse_vin-faithful [] (op ∷ ops) parsed h reports = absurd reports
  parse_vin-faithful (raw ∷ vin) [] parsed h reports = absurd reports
  parse_vin-faithful (raw ∷ vin) (op ∷ ops) parsed h reports =
      let (i, first, h₁) = passed _ (parse_input js bt raw) h in
      let (is, others, h₂) = passed _ (try_map (parse_input js bt) vin) h₁ in
      let (same, faithful) = parse_input-faithful raw op i first reports.0 in
      let (sames, faithfuls) = parse_vin-faithful vin ops is others reports.1 in
      subst (λ l. (prevouts l ≡ op ∷ ops) × All (InputFaithful chain) l) (ok-injective h₂)
        (ap₂ (◌∷◌) same sames, (faithful, faithfuls))

  present-AnswersOut :
      (op : OutPoint) (raw : V) (answer : Option TxOutput)
      → parse_present js bt raw ≡ ok answer
      → ((v spk : V)
          → js.read_tx_out raw ≡ inr (v, spk)
          → (o : TxOutput) × (funding_output chain op ≡ some o) × ReportsOutput js bt v spk o)
      → AnswersOut chain op answer
  unfolding parse_present
  present-AnswersOut op raw answer h reports o found =
      let (response, is_response, h₁) =
        passed _ (checked (text "invalid gettxout result: ") (js.read_tx_out raw)) h in
      let (a, amount, h₂) = passed _ (parse_btc_amount js bt response.0) h₁ in
      let (s, script, h₃) = passed _ (parse_script_pubkey_from_json js bt response.1) h₂ in
      let read =
        checked-ok (text "invalid gettxout result: ") (js.read_tx_out raw) response is_response in
      let (funding, known, shows) = reports response.0 response.1 read in
      let same =
        output_with-same js bt response.0 response.1 a s funding
          (parse_btc_amount-Shows js bt response.0 a amount)
          (parse_script-Shows js bt response.1 s script) shows in
      known ∙ ap some (sym same) ∙ ok-injective h₃ ∙ found

  pub parse_gettxout_result-AnswersOut :
      (op : OutPoint) (raw : V) (answer : Option TxOutput)
      → parse_gettxout_result js bt raw ≡ ok answer
      → ReportsTxOut js bt chain op raw
      → AnswersOut chain op answer
  unfolding parse_gettxout_result
  parse_gettxout_result-AnswersOut op raw answer h reports o found =
      elim (Bool-cases (js.is_null raw)) [
        | inl nothing ↦ absurd (cc (rw nothing at h))
        | inr there ↦
            present-AnswersOut op raw answer (rw there at h) (λ v spk. reports v spk there) o found
      ]
