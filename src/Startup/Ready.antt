-- ===== src/Startup/Ready.antt =====
-- What main (crates/cory/src/main.rs) starts the server with.
use cory.Base.{ℕ, ◌≡◌, refl, subst, Option, none, some, ◌⊎◌, inl, inr, List, [], arith, ==_iff, ◌<◌}
use cory.Base.Text.{Text, text, text_eq}
use cory.Error.{CoreError, Result, ok, err}
use cory.Rpc.{ChainInfo}
use cory.Labels.Pack.Loaded.{load_rw_dir-IsWellFormed, load_ro_dir-IsWellFormed}
use cory.Labels.Store.{LabelStore, empty}
use cory.Labels.Store.WellFormed.{IsWellFormed}
use cory.Startup.Loads.{
  AllLoaded, empty-IsWellFormed, load_dirs-IsWellFormed, load_dirs-AllLoaded, with_capacity-some,
}
use cory.Startup.Configured.{IsConfigured, new-IsConfigured}
use cory.Startup.Arguments.{Cli}
use cory.Startup.Messages.{hex_encode}
use cory.Startup.{
  BitcoinNetwork, map_chain_to_network, Start, ready, failed, panics, ◌>>=◌, attempted,
  without_context, asserted, ServerState, load_dirs, Host, ask_chain, rw_dir, ro_dir, main,
}

-- The name that the node gives to a network.
abbrev pub chain_name : BitcoinNetwork → Text
chain_name BitcoinNetwork.bitcoin = text "main"
chain_name BitcoinNetwork.testnet = text "test"
chain_name BitcoinNetwork.signet = text "signet"
chain_name BitcoinNetwork.regtest = text "regtest"

map_chain_to_network-name :
    (chain : Text) (network : BitcoinNetwork)
    → map_chain_to_network chain ≡ inr network
    → chain_name network ≡ chain
unfolding map_chain_to_network
map_chain_to_network-name chain network h = ground (
  arith,
  ==_iff chain (text "main"),
  ==_iff chain (text "test"),
  ==_iff chain (text "signet"),
  ==_iff chain (text "regtest"),
)

ready-injective : {A : Type 0} {a b : A} → ready a ≡ ready b → a ≡ b
ready-injective e = cc e

-- The value of the step, if it has one, has the property.
record Gives {A : Type 0} (m : Start A) (P : A → Type 0) : Type 0 where
  given : (a : A) → m ≡ ready a → P a

given_next :
    {A B : Type 0} (m : Start A) (next : A → Start B) (P : A → Type 0) (b : B)
    → Gives m P
    → (m >>= next) ≡ ready b
    → (a : A) × P a × (next a ≡ ready b)
unfolding ◌>>=◌
given_next (ready a) next P b g e = (a, g.given a refl, e)
given_next (failed report) next P b g e = cc e
given_next panics next P b g e = cc e

Gives-then :
    {A B : Type 0} {m : Start A} {next : A → Start B} {P : A → Type 0} {Q : B → Type 0}
    → Gives m P
    → ((a : A) → P a → Gives (next a) Q)
    → Gives (m >>= next) Q
Gives-then {m} {next} {P} h k = record {
  given = λ b e. let (a, p, last) = given_next m next P b h e in (k a p).given b last;
}

Gives-ready : {A : Type 0} {a : A} {P : A → Type 0} → P a → Gives (ready a) P
Gives-ready {A} {a} {P} p = record { given = λ b e. subst P (ready-injective e) p }

Gives-attempted :
    {A : Type 0} (context : Text) (cause : CoreError → Text) (r : Result A)
    → Gives (attempted context cause r) (λ a. r ≡ ok a)
unfolding attempted
Gives-attempted context cause (ok b) = Gives-ready refl
Gives-attempted context cause (err x) = record { given = λ a e. cc e }

Gives-without_context : {A : Type 0} (r : Text ⊎ A) → Gives (without_context r) (λ a. r ≡ inr a)
unfolding without_context
Gives-without_context (inl message) = record { given = λ a e. cc e }
Gives-without_context (inr b) = Gives-ready refl

Gives-asserted : {A : Type 0} (o : Option A) → Gives (asserted o) (λ a. o ≡ some a)
unfolding asserted
Gives-asserted none = record { given = λ a e. cc e }
Gives-asserted (some b) = Gives-ready refl

module _ {V F T P C N : Type 0} (host : Host V F T P C N) (args : Cli) (bytes : List ℕ)
    (nanos : Option ℕ) (n : N) where
  -- What the server starts with.
  pub record IsReady (state : ServerState T P C N) : Type 0 where
    pub info : ChainInfo
    pub client :
        IsConfigured host.read_to_string host.scheme_of args.connection args.rpc_user args.rpc_pass
          args.rpc_cookie_file args.rpc_requests_per_second args.rpc_batch_chunk_size state.rpc
    pub chain : (ask_chain host state.rpc nanos n).0 ≡ ok info
    pub after : (ask_chain host state.rpc nanos n).1 ≡ state.rpc_state
    pub network : chain_name state.network ≡ info.chain
    pub labels : IsWellFormed state.labels
    pub limits : state.default_limits ≡ record {
      max_depth = args.max_depth;
      max_nodes = args.max_nodes;
      max_edges = args.max_edges;
    }
    pub concurrency : state.rpc_concurrency ≡ args.rpc_concurrency
    pub some_capacity : (0 < args.cache_tx_cap) × (0 < args.cache_prevout_cap)
    pub cache : state.cache ≡ record {
      transactions = host.txs.create args.cache_tx_cap;
      prevouts = host.outs.create args.cache_prevout_cap;
    }
    pub editable : LabelStore
    pub rw_loaded : AllLoaded (rw_dir host) args.labels_rw empty editable
    pub ro_loaded : AllLoaded (ro_dir host) args.labels_ro editable state.labels
    pub token : state.api_token ≡ hex_encode bytes
    pub no_history : state.history ≡ []

  rw_dirs-IsWellFormed :
      (dirs : List Text) (s s' : LabelStore)
      → load_dirs (rw_dir host) dirs s ≡ ok s'
      → IsWellFormed s
      → IsWellFormed s'
  rw_dirs-IsWellFormed =
      load_dirs-IsWellFormed (rw_dir host)
        λ dir s w. load_rw_dir-IsWellFormed host.json host.paths dir s w (host.directory_at dir)

  ro_dirs-IsWellFormed :
      (dirs : List Text) (s s' : LabelStore)
      → load_dirs (ro_dir host) dirs s ≡ ok s'
      → IsWellFormed s
      → IsWellFormed s'
  ro_dirs-IsWellFormed =
      load_dirs-IsWellFormed (ro_dir host)
        λ dir s w. load_ro_dir-IsWellFormed host.json host.paths dir s w (host.directory_at dir)

  main-Gives : Gives (main host args bytes nanos n) IsReady
  unfolding main
  main-Gives = Gives-then (Gives-attempted _ _ _) λ client is_client.
      Gives-then (Gives-attempted _ _ _) λ info is_info.
        Gives-then (Gives-asserted _) λ cache is_cache.
          Gives-then (Gives-attempted _ _ _) λ editable is_rw.
            Gives-then (Gives-attempted _ _ _) λ all is_ro.
              Gives-then (Gives-without_context _) λ network is_network. Gives-ready (record {
                info = info;
                client =
                    new-IsConfigured host.read_to_string host.scheme_of args.connection
                      args.rpc_user args.rpc_pass args.rpc_cookie_file args.rpc_requests_per_second
                      args.rpc_batch_chunk_size client is_client;
                chain = is_info;
                after = refl;
                network = map_chain_to_network-name info.chain network is_network;
                labels =
                    ro_dirs-IsWellFormed args.labels_ro editable all is_ro
                      (rw_dirs-IsWellFormed args.labels_rw empty editable is_rw empty-IsWellFormed);
                limits = refl;
                concurrency = refl;
                some_capacity =
                    let made =
                      with_capacity-some host.txs host.outs args.cache_tx_cap args.cache_prevout_cap
                        cache is_cache in
                    (made.0, made.1);
                cache =
                    (with_capacity-some host.txs host.outs args.cache_tx_cap args.cache_prevout_cap
                      cache is_cache).2;
                editable = editable;
                rw_loaded = load_dirs-AllLoaded (rw_dir host) args.labels_rw empty editable is_rw;
                ro_loaded = load_dirs-AllLoaded (ro_dir host) args.labels_ro editable all is_ro;
                token = refl;
                no_history = refl;
              })

  -- When main starts the server, its client has the connection, an HTTP or HTTPS address, the
  -- batch size and the rate limit of the arguments, neither of them zero, and as credentials the
  -- user and the password of the arguments, or those of the first line of the cookie file, or
  -- none where neither is given; the node has answered it with the chain whose network the server
  -- uses; the caches are new ones with the capacities asked for, above zero; the labels are those
  -- after the loads of each --labels-rw directory and then of each --labels-ro directory, all of
  -- which succeeded, and are well-formed; the limits and the concurrency are those of the
  -- arguments, the token is that of the random bytes, and there are no searches yet.
  pub main-IsReady :
      (state : ServerState T P C N) → main host args bytes nanos n ≡ ready state → IsReady state
  main-IsReady state started = main-Gives.given state started
