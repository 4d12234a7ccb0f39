-- ===== src/Rpc/Client/Truth.antt =====
-- The client of crates/cory-core/src/rpc/http_adapter/client.rs over a truthful node: the methods
-- that the search of the ancestry calls answer as Graph.Chain asks of an honest node.
use cory.Base.{
  suc, ◌+◌, ◌^◌, ◌<◌, ◌≡◌, refl, sym, ap, subst, Option, some, List, [], ◌∷◌, Each, length, arith,
}
use cory.Base.Text.{Text, text}
use cory.Error.{CoreError, Result, ok, err, passed, ok-injective}
use cory.Types.{Txid, OutPoint, TxOutput, TxNode}
use cory.Graph.Chain.{Chain, FaithfulAt, AnswersOut, prevouts}
use cory.Rpc.{call_each, call_each-Each}
use cory.Rpc.Json.{JsonValue, BitcoinTypes}
use cory.Rpc.Parsing.{
  parse_txid, required, and_then, parse_vin, parse_vout, parse_gettxout_result, try_map,
}
use cory.Rpc.Parsing.Reports.{ReportsTx, Reports}
use cory.Rpc.Parsing.Readings.{required-ok, and_then-some, parse_txid-Shows, parse_vout-same}
use cory.Rpc.Parsing.Inputs.{parse_vin-faithful, parse_gettxout_result-AnswersOut}
use cory.Rpc.Client.{Network, HttpRpcClient, ClientState, rpc_batch_chunked}
use cory.Rpc.Client.Transactions.{parse_tx_node_from_raw}
use cory.Rpc.Client.Methods.{
  getrawtransaction, raw_calls, out_calls, get_transaction, get_transactions, get_tx_outs, nodes_of,
  map_error,
}
use cory.Rpc.Client.Calls.{
  bind-ok, call_each-cons, Returns, Returns-any, Returns-lift, Returns-ok, Returns-then,
}
use cory.Rpc.Client.Batch.{IsServer, rpc_call-Answers, rpc_batch_chunked-Each}

abbrev no_vin : Text
no_vin = text "missing vin array"

abbrev no_vout : Text
no_vout = text "missing vout array"

map_error-ok :
    {S A : Type 0} (f : CoreError → CoreError) (p : Result A × S) (a : A)
    → (map_error f p).0 ≡ ok a
    → p.0 ≡ ok a
map_error-ok f (ok b, s) a h = h
map_error-ok f (err e, s) a h = cc h

module _ {V F C N : Type 0} (js : JsonValue V F) (bt : BitcoinTypes F) (net : Network V C N)
    (client : HttpRpcClient) (chain : Chain) where
  read_array :
      (key : Text) (message : Text) (raw : V) (list : List V)
      → required message (and_then (js.get key raw) js.as_array) ≡ ok list
      → (v : V) × (js.get key raw ≡ some v) × (js.as_array v ≡ some list)
  read_array key message raw list h =
      and_then-some (js.get key raw) js.as_array list (required-ok message _ list h)

  -- A node with the parts that are read.
  read-FaithfulAt :
      (txid : Txid) (raw : V) (t : Txid) (vin vout : List V) (node : TxNode)
      → ReportsTx js bt chain txid raw
      → parse_txid js bt (js.get (text "txid") raw) (text "txid") ≡ ok node.txid
      → required no_vin (and_then (js.get (text "vin") raw) js.as_array) ≡ ok vin
      → required no_vout (and_then (js.get (text "vout") raw) js.as_array) ≡ ok vout
      → parse_vin js bt vin ≡ ok node.inputs
      → parse_vout js bt vout ≡ ok node.outputs
      → FaithfulAt chain txid node
  read-FaithfulAt txid raw t vin vout node r is_txid is_vin is_vout is_inputs is_outputs =
      let (v, at, shows) =
        parse_txid-Shows js bt (js.get (text "txid") raw) (text "txid") node.txid is_txid in
      let same : node.txid ≡ txid = r.id v node.txid at shows in
      let (i, at_i, array_i) = read_array (text "vin") no_vin raw vin is_vin in
      let (o, at_o, array_o) = read_array (text "vout") no_vout raw vout is_vout in
      let (spends, faithful) =
        parse_vin-faithful js bt chain vin (prevouts r.original.inputs) node.inputs is_inputs
          (r.inputs i vin at_i array_i) in
      (
        same,
        record {
          original = r.original;
          known = subst (λ x. chain x ≡ some r.original) (sym same) r.known;
          outputs =
              parse_vout-same js bt vout node.outputs r.original.outputs is_outputs
                (r.outputs o vout at_o array_o);
          spends = spends;
          inputs = faithful;
        },
      )

  -- A transaction is read as it is reported.
  parse_tx_node-FaithfulAt :
      (txid : Txid) (raw : V)
      → ReportsTx js bt chain txid raw
      → Returns (parse_tx_node_from_raw js bt net client raw) (FaithfulAt chain txid)
  unfolding parse_tx_node_from_raw
  parse_tx_node-FaithfulAt txid raw r = Returns-then (Returns-lift _) λ t is_txid.
      Returns-then (Returns-any _) λ version _. Returns-then (Returns-any _) λ locktime _.
        Returns-then (Returns-any _) λ size _. Returns-then (Returns-any _) λ vsize _.
          Returns-then (Returns-any _) λ weight _. Returns-then (Returns-any _) λ block_hash _.
            Returns-then (Returns-any _) λ height _. Returns-then (Returns-lift _) λ vin is_vin.
              Returns-then (Returns-lift _) λ vout is_vout.
                Returns-then (Returns-lift _) λ inputs is_inputs.
                  Returns-then (Returns-lift _) λ outputs is_outputs. Returns-ok _ (
                    read-FaithfulAt txid raw t vin vout _ r is_txid is_vin is_vout is_inputs
                      is_outputs)

  -- The raw transactions of a batch.
  parse_nodes-FaithfulAt :
      (txids : List Txid) (raws : List V) (s : ClientState C N) (nodes : List TxNode)
      → Each (Reports js bt chain) (raw_calls js bt txids) raws
      → (call_each (parse_tx_node_from_raw js bt net client) raws s).0 ≡ ok nodes
      → Each (FaithfulAt chain) txids nodes
  unfolding call_each
  parse_nodes-FaithfulAt [] [] s nodes reports h =
      subst (Each (FaithfulAt chain) []) (ok-injective h) tt
  parse_nodes-FaithfulAt [] (raw ∷ raws) s nodes reports h = absurd reports
  parse_nodes-FaithfulAt (txid ∷ txids) [] s nodes reports h = absurd reports
  parse_nodes-FaithfulAt (txid ∷ txids) (raw ∷ raws) s nodes reports h =
      let run = call_each-cons (parse_tx_node_from_raw js bt net client) raw raws s nodes h in
      subst (Each (FaithfulAt chain) (txid ∷ txids)) run.all (
        (parse_tx_node-FaithfulAt txid raw (reports.0.tx txid refl)).returns s run.head run.first,
        parse_nodes-FaithfulAt txids raws _ run.rest reports.1 run.others,
      )

  parse_outs-AnswersOut :
      (outpoints : List OutPoint) (raws : List V) (answers : List (Option TxOutput))
      → Each (Reports js bt chain) (out_calls js bt outpoints) raws
      → try_map (parse_gettxout_result js bt) raws ≡ ok answers
      → Each (AnswersOut chain) outpoints answers
  parse_outs-AnswersOut [] [] answers reports h =
      subst (Each (AnswersOut chain) []) (ok-injective h) tt
  parse_outs-AnswersOut [] (raw ∷ raws) answers reports h = absurd reports
  parse_outs-AnswersOut (op ∷ ops) [] answers reports h = absurd reports
  parse_outs-AnswersOut (op ∷ ops) (raw ∷ raws) answers reports h =
      let (a, first, h₁) = passed _ (parse_gettxout_result js bt raw) h in
      let (rest, others, h₂) = passed _ (try_map (parse_gettxout_result js bt) raws) h₁ in
      subst (Each (AnswersOut chain) (op ∷ ops)) (ok-injective h₂) (
        parse_gettxout_result-AnswersOut js bt chain op raw a first (reports.0.tx_out op refl),
        parse_outs-AnswersOut ops raws rest reports.1 others,
      )

  module _ (server : IsServer js net (Reports js bt chain)) where
    -- get_transaction returns the transaction of its txid.
    pub get_transaction-FaithfulAt :
        (txid : Txid) → Returns (get_transaction js bt net client txid) (FaithfulAt chain txid)
    unfolding get_transaction
    get_transaction-FaithfulAt txid =
        Returns-then {P = Reports js bt chain (getrawtransaction js bt txid)}
          (record {
            returns = λ s raw e.
                rpc_call-Answers js net client (Reports js bt chain) server _ _ s raw
                  (map_error-ok _ _ raw e);
          })
          λ raw reports. parse_tx_node-FaithfulAt txid raw (reports.tx txid refl)

    nodes_of-FaithfulAt :
        (txids : List Txid) (r : Result (List V)) (s : ClientState C N) (nodes : List TxNode)
        → ((raws : List V) → r ≡ ok raws → Each (Reports js bt chain) (raw_calls js bt txids) raws)
        → (nodes_of js bt net client txids r s).0 ≡ ok nodes
        → Each (FaithfulAt chain) txids nodes
    unfolding nodes_of
    nodes_of-FaithfulAt txids (ok raws) s nodes reports h =
        parse_nodes-FaithfulAt txids raws s nodes (reports raws refl) h
    nodes_of-FaithfulAt txids (err e) s nodes reports h =
        call_each-Each (get_transaction js bt net client) (FaithfulAt chain)
          (λ txid s' node e. (get_transaction-FaithfulAt txid).returns s' node e) txids s nodes h

    length-raw_calls : (txids : List Txid) → length (raw_calls js bt txids) ≡ length txids
    length-raw_calls [] = refl
    length-raw_calls (txid ∷ txids) = ap suc (length-raw_calls txids)

    length-out_calls : (ops : List OutPoint) → length (out_calls js bt ops) ≡ length ops
    length-out_calls [] = refl
    length-out_calls (op ∷ ops) = ap suc (length-out_calls ops)

    -- Over a truthful server, and while there are ids left, get_transactions answers each txid in
    -- its place with its transaction, whatever order a batch is answered in, and also where it falls
    -- back to single requests.
    pub get_transactions-FaithfulAt :
        (txids : List Txid) (s : ClientState C N) (nodes : List TxNode)
        → s.next_id + length txids < 2 ^ 64
        → 0 < client.batch_chunk_size
        → (get_transactions js bt net client txids s).0 ≡ ok nodes
        → Each (FaithfulAt chain) txids nodes
    unfolding get_transactions
    get_transactions-FaithfulAt [] s nodes room some_size h =
        subst (Each (FaithfulAt chain) []) (ok-injective h) tt
    get_transactions-FaithfulAt (txid ∷ txids) s nodes room some_size h =
        nodes_of-FaithfulAt (txid ∷ txids) _ _ nodes
          (λ raws e.
            rpc_batch_chunked-Each js net client (Reports js bt chain) server
              (raw_calls js bt (txid ∷ txids)) s raws
              (omega (arith, length-raw_calls (txid ∷ txids))) some_size e)
          h

    -- Over a truthful server, and while there are ids left, get_tx_outs answers each outpoint in its
    -- place, with nothing or with the output that it names.
    pub get_tx_outs-AnswersOut :
        (ops : List OutPoint) (s : ClientState C N) (answers : List (Option TxOutput))
        → s.next_id + length ops < 2 ^ 64
        → 0 < client.batch_chunk_size
        → (get_tx_outs js bt net client ops s).0 ≡ ok answers
        → Each (AnswersOut chain) ops answers
    unfolding get_tx_outs
    get_tx_outs-AnswersOut [] s answers room some_size h =
        subst (Each (AnswersOut chain) []) (ok-injective h) tt
    get_tx_outs-AnswersOut (op ∷ ops) s answers room some_size h =
        let (raws, run, last) =
          bind-ok _ (rpc_batch_chunked js net client (out_calls js bt (op ∷ ops))) s h in
        parse_outs-AnswersOut (op ∷ ops) raws answers
          (rpc_batch_chunked-Each js net client (Reports js bt chain) server
            (out_calls js bt (op ∷ ops)) s raws (omega (arith, length-out_calls (op ∷ ops)))
            some_size run)
          last
