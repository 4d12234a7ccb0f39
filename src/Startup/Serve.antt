-- ===== src/Startup/Serve.antt =====
-- main (crates/cory/src/main.rs) and the requests after it: the server's state is what the startup made,
-- and its searches ask the node through the client that the startup configured.
use cory.Base.{ℕ, ◌≡◌, ◌∙◌, subst, sym, Option, List, length, ◌≤◌, arith}
use cory.Graph.World.{Services}
use cory.Rpc.Client.{ClientState}
use cory.Rpc.Client.Methods.{http_rpc}
use cory.Server.Graph.{max_history_entries}
use cory.Server.Service.{Site, Shared, Machine, Reach}
use cory.Server.Service.Safety.{IsSafe, Reach-IsSafe}
use cory.Startup.Arguments.{Cli}
use cory.Startup.Messages.{hex_encode}
use cory.Startup.{ready, ServerState, Host, main}
use cory.Startup.Ready.{main-IsReady}

module _ {V F T P K N : Type 0} (host : Host V F T P K N) where
  -- The caches and the node, as the searches use them.
  abbrev pub services_of : ServerState T P K N → Services T P (ClientState K N)
  services_of state = record {
    txs = host.txs;
    outs = host.outs;
    rpc = http_rpc host.js host.bt host.net state.rpc;
  }

  abbrev pub served_by :
      {R D Z C : Type 0}
      → ServerState T P K N
      → Site T P (ClientState K N) R D Z C
      → Site T P (ClientState K N) R D Z C
  served_by state site = record site { services = services_of state; json = host.json }

  -- AppState, with the directories on disk.
  abbrev pub shared_of : {D : Type 0} → ServerState T P K N → D → Shared T P (ClientState K N) D
  shared_of state disk = record {
    app = record {
      world = record { cache = state.cache; node = state.rpc_state };
      api_token = state.api_token;
      default_limits = state.default_limits;
      history = state.history;
      labels = state.labels;
    };
    disk = disk;
  }

module _ {V F T P K N R D Z C : Type 0} (host : Host V F T P K N)
    (site : Site T P (ClientState K N) R D Z C) (disk : D) where
  -- A server that main has started, whatever has been asked of it since.
  pub record IsServing (args : Cli) (bytes : List ℕ) (state : ServerState T P K N)
      (m : Machine T P (ClientState K N) R D Z C) : Type 0 where
    pub is_safe : IsSafe (served_by host state site) (shared_of host state disk) m
    pub token : m.shared.app.api_token ≡ hex_encode bytes
    pub limits : m.shared.app.default_limits ≡ record {
      max_depth = args.max_depth;
      max_nodes = args.max_nodes;
      max_edges = args.max_edges;
    }

  -- When main starts the server, then whatever requests arrive and in whatever order their handlers go
  -- on, the invariant of the server holds from the state that main made, the token is that of the
  -- random bytes, and the limits are those of the arguments.
  pub main-IsServing :
      (args : Cli) (bytes : List ℕ) (nanos : Option ℕ) (n : N) (state : ServerState T P K N)
      (m : Machine T P (ClientState K N) R D Z C)
      → main host args bytes nanos n ≡ ready state
      → Reach (served_by host state site) (shared_of host state disk) m
      → IsServing args bytes state m
  main-IsServing args bytes nanos n state m started reach =
      let is_ready = main-IsReady host args bytes nanos n state started in
      let safe =
        Reach-IsSafe (served_by host state site) (shared_of host state disk) m is_ready.labels
          (subst (λ h. length h ≤ max_history_entries) (sym is_ready.no_history) (omega arith))
          reach in
      record {
        is_safe = safe;
        token = safe.kept.token ∙ is_ready.token;
        limits = safe.kept.limits ∙ is_ready.limits;
      }
