-- ===== src/Startup/Tests.antt =====
-- main (crates/cory/src/main.rs) on a machine whose node is on signet.
use cory.Base.{
  nat_eq, ℕ, ◌+◌, length, suc, ◌≡◌, refl, false, true, none, some, [], ◌∷◌, inl, inr, List, arith,
}
use cory.Base.Map.{Map}
use cory.Base.Text.{Text, text, decimal}
use cory.Types.{Txid, TxNode, TxOutput}
use cory.Graph.Mock.{unbounded, pair_eq}
use cory.Rpc.Json.{JsonValue, BitcoinTypes, ValueView}
use cory.Rpc.Connection.{resolve_auth, parse_connection}
use cory.Rpc.Client.{Network, rpc_call, ◌>>=◌}
use cory.Rpc.Client.New.{new}
use cory.Rpc.Client.Methods.{get_blockchain_info}
use cory.Labels.Pack.{load_rw_dir, load_ro_dir, entry, plain_file, no_more}
use cory.Labels.Tests.{json, paths, disk}
use cory.Labels.Store.{empty}
use cory.Startup.Arguments.{Cli, parse_nonzero_usize, parse_nonzero_u32}
use cory.Startup.Arguments.RoundTrip.{Accepted, parse_nonzero-decimal}
use cory.Startup.Messages.{hex_encode}
use cory.Startup.Messages.RoundTrip.{hex_decode, hex_encode-RoundTrip}
use cory.Startup.{
  limits_from, Host, Start, ready, ServerState, BitcoinNetwork, main, ◌>>=◌ as ◌then◌, attempted,
  asserted, without_context, map_chain_to_network,
}
use cory.Startup.Ready.{IsReady, main-IsReady}
use cory.Startup.Serve.{services_of, served_by, shared_of, IsServing, main-IsServing}
use cory.Rpc.Client.{ClientState}
use cory.Server.Tests.{messages, platform, upsert_rent}
use cory.Server.Enrichment.Tests.{context}
use cory.Server.{ok}
use cory.Server.Labels.Archive.{Entries}
use cory.Server.Service.{
  Site, on_labels, Task, Machine, waiting, run_task, Reach, no_requests, later, arrive, go_on,
}

-- Every text is a response, and every response says that the chain is signet.
abbrev js : JsonValue (Unit {0}) (Unit {0})
js = record {
  null = tt;
  view = λ v. ValueView.other;
  is_null = λ v. true;
  get = λ key v. none;
  as_str = λ v. none;
  as_u64 = λ v. none;
  as_i64 = λ v. none;
  as_array = λ v. none;
  show = λ v. [];
  of_text = λ s. tt;
  of_number = λ n. tt;
  of_bool = λ b. tt;
  read_error = λ v. none;
  read_tx_out = λ v. inl [];
  read_chain_info = λ v.
      inr (record { chain = text "signet"; blocks = 100; best_block_hash = 0; pruned = false });
  read_response = λ body. inr (record { result = some tt; error = none });
  read_batch = λ body. inl [];
}

abbrev bt : BitcoinTypes (Unit {0})
bt = record {
  parse_txid = λ s. inl [];
  show_txid = λ t. [];
  parse_block_hash = λ s. inl [];
  show_block_hash = λ h. [];
  script_from_hex = λ s. inl [];
  amount_of_float = λ f. inl [];
  amount_of_text = λ s. inl [];
  tests = record {
    is_p2pk = λ s. false;
    is_p2pkh = λ s. false;
    is_p2sh = λ s. false;
    is_p2wpkh = λ s. false;
    is_p2wsh = λ s. false;
    is_p2tr = λ s. false;
    is_multisig = λ s. false;
    is_op_return = λ s. false;
  };
}

-- The state counts the requests sent.
abbrev net : Network (Unit {0}) (Unit {0}) ℕ
net = record {
  post = λ url auth payload n. (inr [], suc n);
  until_ready = λ quota n. n;
  new_cache = λ n. tt;
  cached = λ hash c. (none, c);
  put = λ hash height c. c;
}

abbrev host : Host (Unit {0}) (Unit {0}) (Map Txid TxNode) (Map (Txid × ℕ) TxOutput) (Unit {0}) ℕ
host = record {
  js = js;
  bt = bt;
  net = net;
  read_to_string = λ path. inl [];
  scheme_of = λ url. inr (text "http");
  txs = unbounded;
  outs = unbounded;
  json = json;
  paths = paths;
  directory_at = λ dir. some (entry (plain_file dir (inr [])) no_more);
  show = λ e. [];
}

abbrev arguments : Cli
arguments = record {
  connection = text "http://127.0.0.1:8332";
  rpc_user = none;
  rpc_pass = none;
  rpc_cookie_file = none;
  rpc_requests_per_second = some 10;
  rpc_batch_chunk_size = 10;
  rpc_concurrency = 4;
  bind = text "127.0.0.1";
  port = 3080;
  labels_rw = text "rw" ∷ [];
  labels_ro = text "ro" ∷ [];
  max_depth = 50;
  max_nodes = 500;
  max_edges = 2000;
  cache_tx_cap = 10000;
  cache_prevout_cap = 50000;
}

abbrev State : Type 0
State = ServerState (Map Txid TxNode) (Map (Txid × ℕ) TxOutput) (Unit {0}) ℕ

abbrev state_or : State → Start State → State
state_or s (ready t) = t
state_or s _ = s

token : hex_encode (0 ∷ 171 ∷ 16 ∷ []) ≡ text "00ab10"
unfolding hex_encode
token = refl

abbrev bytes : List ℕ
bytes = 0 ∷ 171 ∷ []

hex_encode-RoundTrip_example :
    (hex_decode (hex_encode bytes) ≡ bytes)
    × (length (hex_encode bytes) ≡ length bytes + length bytes)
hex_encode-RoundTrip_example = hex_encode-RoundTrip bytes (omega arith, (omega arith, tt))

parse_nonzero-decimal_example :
    Accepted 10 (parse_nonzero_usize (decimal 10)) × Accepted 0 (parse_nonzero_u32 (decimal 0))
parse_nonzero-decimal_example = parse_nonzero-decimal 10 0 (omega arith) (omega arith)

abbrev state : State
state =
    state_or
      (record {
        rpc = record { url = []; auth = none; limiter = none; batch_chunk_size = 0 };
        rpc_state = record { next_id = 0; block_height_cache = tt; net = 0 };
        cache = record { transactions = []; prevouts = [] };
        labels = empty;
        api_token = [];
        default_limits = limits_from arguments;
        rpc_concurrency = 0;
        network = BitcoinNetwork.bitcoin;
        history = [];
      })
      (main host arguments bytes (some 5) 0)

started : main host arguments bytes (some 5) 0 ≡ ready state
unfolding main ◌then◌ attempted asserted without_context map_chain_to_network new resolve_auth
    parse_connection get_blockchain_info rpc_call ◌>>=◌ load_rw_dir load_ro_dir
    cory.Cache.with_capacity cory.Labels.Jsonl.parse_jsonl_records
started = refl

main-IsReady_example : IsReady host arguments bytes (some 5) 0 state
main-IsReady_example = main-IsReady host arguments bytes (some 5) 0 state started

abbrev site :
    Site (Map Txid TxNode) (Map (Txid × ℕ) TxOutput) (ClientState (Unit {0}) ℕ) ℕ Text Entries Text
site = record {
  services = services_of host state;
  show = messages;
  platform = platform;
  context = context;
  json = json;
  disk_of = disk;
  build_zip = λ entries. ok entries;
  assets = record { content_of = λ path. none; guess_mime = λ path. [] };
}

-- A request to write a label, with the token that the server started with.
abbrev label_task : Task ℕ Entries Text
label_task = record {
  header = some (text "00ab");
  call = on_labels upsert_rent;
  progress = waiting;
}

abbrev label_written :
    Machine
      (Map Txid TxNode)
      (Map (Txid × ℕ) TxOutput)
      (ClientState (Unit {0}) ℕ)
      ℕ
      Text
      Entries
      Text
label_written =
    run_task (served_by host state site) 0 (inr (text "2025")) label_task
      (record { shared = shared_of host state []; tasks = label_task ∷ [] })

label_written-Reach : Reach (served_by host state site) (shared_of host state []) label_written
unfolding run_task
label_written-Reach =
    later (later no_requests (arrive (some (text "00ab")) (on_labels upsert_rent)))
      (go_on 0 (inr (text "2025")) label_task refl)

main-IsServing_example : IsServing host site [] arguments bytes state label_written
main-IsServing_example =
    main-IsServing host site [] arguments bytes (some 5) 0 state label_written started
      label_written-Reach
