-- ===== src/Rpc/Client/Transactions.antt =====
-- crates/cory-core/src/rpc/http_adapter/client.rs: parse_tx_node_from_raw and get_block_height.
use cory.Base.{Option, none, some, [], ◌∷◌, true, false, ltb, if◌then◌else◌, ℕ}
use cory.Base.Text.{text}
use cory.Error.{ok}
use cory.Types.{BlockHash, BlockHeight, TxNode}
use cory.Rpc.Json.{JsonValue, BitcoinTypes}
use cory.Rpc.Parsing.{
  Integer, required, parse_txid, parse_integer_required, parse_integer_optional,
  parse_opt_block_hash, parse_vin, parse_vout, and_then,
}
use cory.Rpc.Client.{Network, HttpRpcClient, ClientState, Call, lift, ◌>>=◌, unwrap_or, rpc_call}

module _ {V F C N : Type 0} (js : JsonValue V F) (bt : BitcoinTypes F) (net : Network V C N)
    (client : HttpRpcClient) where
  abbrev State : Type 0
  State = ClientState C N

  -- `cache.write().await.get(&block_hash).copied()`
  pub cached_height : BlockHash → Call State (Option BlockHeight)
  cached_height block_hash s =
      let (found, c) = net.cached block_hash s.block_height_cache in
      (ok found, record s { block_height_cache = c })

  pub remember : BlockHash → Option BlockHeight → Call State (Option BlockHeight)
  remember block_hash none s = (ok none, s)
  remember block_hash (some height) s = (
    ok (some height),
    record s { block_height_cache = net.put block_hash height s.block_height_cache },
  )

  pub fetch_height : BlockHash → Option BlockHeight → Call State (Option BlockHeight)
  fetch_height block_hash (some height) = lift (ok (some height))
  fetch_height block_hash none = do
    raw ←
        rpc_call js net client (text "getblockheader")
          (js.of_text (bt.show_block_hash block_hash) ∷ js.of_bool true ∷ [])
    remember block_hash (parse_integer_optional js Integer.u32 false (js.get (text "height") raw))

  unfoldable pub get_block_height : BlockHash → Call State (Option BlockHeight)
  unfolding cached_height fetch_height remember
  get_block_height block_hash = do found ← cached_height block_hash; fetch_height block_hash found

  -- The height of the JSON, or that of the block where the transaction is confirmed.
  pub height_of : Option BlockHeight → Option BlockHash → Option ℕ → Call State (Option BlockHeight)
  height_of none (some block_hash) confirmations =
      if ltb 0 (unwrap_or 0 confirmations) then get_block_height block_hash else lift (ok none)
  height_of block_height block_hash confirmations = lift (ok block_height)

  unfoldable pub parse_tx_node_from_raw : V → Call State TxNode
  unfolding height_of
  parse_tx_node_from_raw raw = do
    txid ← lift (parse_txid js bt (js.get (text "txid") raw) (text "txid"))
    version ←
        lift (
          parse_integer_required js Integer.i32 true (js.get (text "version") raw) (text "version"))
    locktime ← lift (
        parse_integer_required js Integer.u32 false (js.get (text "locktime") raw)
          (text "locktime"))
    size ←
        lift (parse_integer_required js Integer.u64 false (js.get (text "size") raw) (text "size"))
    vsize ←
        lift
          (parse_integer_required js Integer.u64 false (js.get (text "vsize") raw) (text "vsize"))
    weight ←
        lift
          (parse_integer_required js Integer.u64 false (js.get (text "weight") raw) (text "weight"))
    block_hash ← lift (parse_opt_block_hash js bt (js.get (text "blockhash") raw))
    block_height ←
        height_of (parse_integer_optional js Integer.u32 false (js.get (text "blockheight") raw))
          block_hash
          (parse_integer_optional js Integer.u64 false (js.get (text "confirmations") raw))
    vin ←
        lift (required (text "missing vin array") (and_then (js.get (text "vin") raw) js.as_array))
    vout ←
        lift
          (required (text "missing vout array") (and_then (js.get (text "vout") raw) js.as_array))
    inputs ← lift (parse_vin js bt vin)
    outputs ← lift (parse_vout js bt vout)
    lift (
        ok (record {
          txid = txid;
          version = version;
          locktime = locktime;
          size = size;
          vsize = vsize;
          weight = weight;
          block_hash = block_hash;
          block_height = block_height;
          inputs = inputs;
          outputs = outputs;
        }))
