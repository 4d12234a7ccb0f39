-- ===== src/Startup.antt =====
-- crates/cory/src/main.rs: from the arguments to the state that the server starts with. The clock, the
-- random bytes, the file system and the connection to the node are parameters.
pub mod Arguments
pub mod Messages
pub mod Configured
pub mod Loads
pub mod Ready
pub mod Serve
mod Tests
use cory.Base.{ℕ, Option, none, some, ◌⊎◌, inl, inr, List, [], ◌∷◌, ◌++◌, ◌==◌, if◌then◌else◌}
use cory.Base.Map.{Map}
use cory.Base.Text.{Text, text, text_eq}
use cory.Error.{CoreError, Result, ok, err}
use cory.Types.{Txid, TxNode, TxOutput, GraphLimits}
use cory.Cache.{QuickCache, Cache, with_capacity}
use cory.Rpc.{ChainInfo}
use cory.Rpc.Json.{JsonValue, BitcoinTypes}
use cory.Rpc.Client.{Network, HttpRpcClient, ClientState}
use cory.Rpc.Client.New.{new, initial_state}
use cory.Rpc.Client.Methods.{get_blockchain_info}
use cory.Labels.Jsonl.{Json}
use cory.Labels.Pack.{Paths, Listing, load_rw_dir, load_ro_dir}
use cory.Labels.Store.{LabelStore, empty}
use cory.Server.History.{History}
use cory.Startup.Arguments.{Cli}
use cory.Startup.Messages.{hex_encode, format_rpc_connect_error}

-- bitcoin::Network, as far as it is named here
pub data BitcoinNetwork : Type 0 where
  bitcoin testnet signet regtest : BitcoinNetwork

unfoldable pub map_chain_to_network : Text → Text ⊎ BitcoinNetwork
map_chain_to_network chain =
    if chain == text "main"
    then inr BitcoinNetwork.bitcoin
    else if chain == text "test"
    then inr BitcoinNetwork.testnet
    else if chain == text "signet"
    then inr BitcoinNetwork.signet
    else if chain == text "regtest"
    then inr BitcoinNetwork.regtest
    else inl (text "unrecognized chain name `" ++ chain ++ text "` from getblockchaininfo")

-- A report of eyre: what was attempted, where that is said, and the cause.
pub record Report : Type 0 where
  pub context : Option Text
  pub cause : Text

-- A step of the startup: its value, the report that main returns, or a panic.
pub data Start (A : Type 0) : Type 0 where
  ready : A → Start A
  failed : Report → Start A
  panics : Start A

infixl 10 ◌>>=◌
unfoldable pub ◌>>=◌ : {A B : Type 0} → Start A → (A → Start B) → Start B
ready a >>= f = f a
failed report >>= f = failed report
panics >>= f = panics

-- `.context(…)?`, or a report with a message made from that of the error.
unfoldable pub attempted : {A : Type 0} → Text → (CoreError → Text) → Result A → Start A
attempted context cause (ok a) = ready a
attempted context cause (err e) = failed (record { context = some context; cause = cause e })

unfoldable pub without_context : {A : Type 0} → Text ⊎ A → Start A
without_context (inr a) = ready a
without_context (inl message) = failed (record { context = none; cause = message })

-- An assertion.
unfoldable pub asserted : {A : Type 0} → Option A → Start A
asserted (some a) = ready a
asserted none = panics

-- server::AppState, with the state of the client.
pub record ServerState (T P C N : Type 0) : Type 0 where
  pub rpc : HttpRpcClient
  pub rpc_state : ClientState C N
  pub cache : Cache T P
  pub labels : LabelStore
  pub api_token : Text
  pub default_limits : GraphLimits
  pub rpc_concurrency : ℕ
  pub network : BitcoinNetwork
  pub history : History

-- The loads of the directories, one after another, up to the first that fails.
pub load_dirs :
    (Text → LabelStore → Result (Unit {0}) × LabelStore)
    → List Text
    → LabelStore
    → Result LabelStore
load_dirs load [] s = ok s
load_dirs load (dir ∷ dirs) s =
    let (r, s') = load dir s in
    let rest = load_dirs load dirs s' in elim r [ ok u ↦ rest | err e ↦ err e ]

abbrev pub limits_from : Cli → GraphLimits
limits_from args = record {
  max_depth = args.max_depth;
  max_nodes = args.max_nodes;
  max_edges = args.max_edges;
}

-- The libraries and the machine that main runs on: JSON and bitcoin's types, the connection, the
-- reading of files and URLs, the caches, the directories, and the messages of errors.
pub record Host (V F T P C N : Type 0) : Type 0 where
  pub js : JsonValue V F
  pub bt : BitcoinTypes F
  pub net : Network V C N
  pub read_to_string : Text → Text ⊎ Text
  pub scheme_of : Text → Text ⊎ Text
  pub txs : QuickCache Txid TxNode T
  pub outs : QuickCache (Txid × ℕ) TxOutput P
  pub json : Json
  pub paths : Paths
  pub directory_at : Text → Option Listing
  pub show : CoreError → Text

module _ {V F T P C N : Type 0} (host : Host V F T P C N) where
  abbrev pub connect_error : Cli → CoreError → Text
  connect_error args e = format_rpc_connect_error args.connection (host.show e)

  abbrev pub new_client : Cli → Result HttpRpcClient
  new_client args =
      new host.read_to_string host.scheme_of args.connection args.rpc_user args.rpc_pass
        args.rpc_cookie_file args.rpc_requests_per_second args.rpc_batch_chunk_size

  abbrev pub ask_chain : HttpRpcClient → Option ℕ → N → Result ChainInfo × ClientState C N
  ask_chain client nanos n =
      get_blockchain_info host.js host.bt host.net client (initial_state host.net nanos n)

  abbrev pub rw_dir : Text → LabelStore → Result (Unit {0}) × LabelStore
  rw_dir dir s = load_rw_dir host.json host.paths dir (host.directory_at dir) s

  abbrev pub ro_dir : Text → LabelStore → Result (Unit {0}) × LabelStore
  ro_dir dir s = load_ro_dir host.json host.paths dir (host.directory_at dir) s

  -- main up to the router, with the random bytes of the token and the time.
  unfoldable pub main : Cli → List ℕ → Option ℕ → N → Start (ServerState T P C N)
  unfolding load_dirs
  main args bytes nanos n = do
    rpc_client ←
        attempted (text "while attempting to configure Bitcoin Core RPC client")
          (connect_error args) (new_client args)
    let (answer, s) = ask_chain rpc_client nanos n
    info ←
        attempted (text "while attempting to connect to Bitcoin Core RPC") (connect_error args)
          answer
    cache ← asserted (with_capacity host.txs host.outs args.cache_tx_cap args.cache_prevout_cap)
    editable ←
        attempted (text "load --labels-rw directory") host.show
          (load_dirs rw_dir args.labels_rw empty)
    label_store ←
        attempted (text "load --labels-ro directory") host.show
          (load_dirs ro_dir args.labels_ro editable)
    network ← without_context (map_chain_to_network info.chain)
    ready (record {
      rpc = rpc_client;
      rpc_state = s;
      cache = cache;
      labels = label_store;
      api_token = hex_encode bytes;
      default_limits = limits_from args;
      rpc_concurrency = args.rpc_concurrency;
      network = network;
      history = [];
    })
