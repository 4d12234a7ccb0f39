-- ===== src/Rpc/Parsing/Reports.antt =====
-- What the JSON answers of Bitcoin Core that crates/cory-core/src/rpc/http_adapter reads say of a
-- chain of transactions.
use cory.Base.{ℕ, ◌≡◌, false, Option, none, some, List, ◌⊎◌, inr, Each}
use cory.Base.Text.{Text, text}
use cory.Types.{Txid, Amount, Script, OutPoint, TxOutput, TxNode}
use cory.Enrich.{classify_script}
use cory.Graph.Chain.{Chain, FundedBy, funding_output, prevouts}
use cory.Rpc.Json.{JsonValue, BitcoinTypes, number, string}
use cory.Rpc.Client.Methods.{getrawtransaction, gettxout}

module _ {V F : Type 0} (js : JsonValue V F) (bt : BitcoinTypes F) where
  -- A number or a string that stands for the amount.
  abbrev pub ShowsAmount : V → Amount → Type 0
  ShowsAmount v a =
      ((f : F) × (js.view v ≡ number (some f)) × (bt.amount_of_float f ≡ inr a))
      ⊎ ((s : Text) × (js.view v ≡ string s) × (bt.amount_of_text s ≡ inr a))

  -- An object whose field `hex` is the script.
  abbrev pub ShowsScript : V → Script → Type 0
  ShowsScript spk script =
      (h : V) × (s : Text) × (js.get (text "hex") spk ≡ some h)
      × (js.as_str h ≡ some s)
      × (bt.script_from_hex s ≡ inr script)

  -- A string that is the txid.
  abbrev pub ShowsTxid : V → Txid → Type 0
  ShowsTxid v txid = (s : Text) × (js.as_str v ≡ some s) × (bt.parse_txid s ≡ inr txid)

  -- Whatever amount and script the two values stand for, the output has.
  pub record ReportsOutput (value spk : V) (o : TxOutput) : Type 0 where
    pub amount : (a : Amount) → ShowsAmount value a → o.value ≡ a
    pub script : (s : Script) → ShowsScript spk s → o.script_pub_key ≡ s
    pub kind : o.script_type ≡ classify_script bt.tests o.script_pub_key

  -- An element of `vout`.
  abbrev pub ReportsVout : V → TxOutput → Type 0
  ReportsVout raw o =
      (v spk : V)
      → js.get (text "value") raw ≡ some v
      → js.get (text "scriptPubKey") raw ≡ some spk
      → ReportsOutput v spk o

  module _ (chain : Chain) where
    -- An element of `vin`, of an input that spends `prevout`.
    pub record ReportsVin (raw : V) (prevout : Option OutPoint) : Type 0 where
      pub coinbase : (c : V) → js.get (text "coinbase") raw ≡ some c → prevout ≡ none
      pub spends :
          js.get (text "coinbase") raw ≡ none
          → (t v : V) (txid : Txid) (vout : ℕ) → js.get (text "txid") raw ≡ some t
          → ShowsTxid t txid
          → js.get (text "vout") raw ≡ some v
          → js.as_u64 v ≡ some vout
          → prevout ≡ some (record { txid = txid; vout = vout })
      pub value :
          (p v : V) (a : Amount)
          → js.get (text "prevout") raw ≡ some p
          → js.get (text "value") p ≡ some v
          → ShowsAmount v a
          → FundedBy chain prevout (λ o. o.value ≡ a)
      pub script :
          (p spk : V) (s : Script)
          → js.get (text "prevout") raw ≡ some p
          → js.get (text "scriptPubKey") p ≡ some spk
          → ShowsScript spk s
          → FundedBy chain prevout (λ o. o.script_type ≡ classify_script bt.tests s)

    -- An answer to getrawtransaction.
    pub record ReportsTx (txid : Txid) (raw : V) : Type 0 where
      pub original : TxNode
      pub known : chain txid ≡ some original
      pub id : (v : V) (t : Txid) → js.get (text "txid") raw ≡ some v → ShowsTxid v t → t ≡ txid
      pub inputs :
          (v : V) (vin : List V)
          → js.get (text "vin") raw ≡ some v
          → js.as_array v ≡ some vin
          → Each ReportsVin vin (prevouts original.inputs)
      pub outputs :
          (v : V) (vout : List V)
          → js.get (text "vout") raw ≡ some v
          → js.as_array v ≡ some vout
          → Each ReportsVout vout original.outputs

    -- An answer to gettxout: null, or what it says is the output.
    abbrev pub ReportsTxOut : OutPoint → V → Type 0
    ReportsTxOut op raw =
        (v spk : V)
        → js.is_null raw ≡ false
        → js.read_tx_out raw ≡ inr (v, spk)
        → (o : TxOutput) × (funding_output chain op ≡ some o) × ReportsOutput v spk o

    -- What a result says of the call that it answers.
    pub record Reports (call : Text × List V) (raw : V) : Type 0 where
      pub tx : (txid : Txid) → call ≡ getrawtransaction js bt txid → ReportsTx txid raw
      pub tx_out : (op : OutPoint) → call ≡ gettxout js bt op.txid op.vout → ReportsTxOut op raw
