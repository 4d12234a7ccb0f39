-- ===== src/Lib.antt =====
-- Verification library of cory, a Bitcoin ancestry explorer: a library (crates/cory-core) that
-- collects the ancestors of a transaction from a Bitcoin Core node into a graph and keeps BIP-329
-- labels, and a server (crates/cory) with handlers over it.
--
-- The parts and their files:
--   Base                the standard library's lists, maps, strings and tests over native numbers
--   Types, Error        crates/cory-core/src/types.rs and error.rs
--   Exec                async functions as actions on a state, with errors, panics and fuel
--   Cache               crates/cory-core/src/cache.rs over quick_cache
--   Rpc                 crates/cory-core/src/rpc/mod.rs and types.rs, the trait BitcoinRpc
--     Rpc.Json          what the client takes from serde_json and the bitcoin crate, and the requests
--                       and responses of http_adapter/protocol.rs
--     Rpc.Parsing       http_adapter/parsing.rs
--     Rpc.Protocol      the errors and ids of http_adapter/protocol.rs
--     Rpc.Connection    http_adapter/connection.rs
--     Rpc.Client        http_adapter/client.rs: single calls and batches; Rpc.Client.New is
--                       HttpRpcClient::new, Rpc.Client.Transactions reads transactions, and
--                       Rpc.Client.Methods are the methods of BitcoinRpc
--     Rpc.Mock          mock.rs, the node of the unit tests
--   Graph               crates/cory-core/src/graph.rs:
--     Graph.World       the calls on the cache and the node
--     Graph.Prevouts    enrich_tx_node, build_inputs_initial, resolve_unresolved_prevouts,
--                       resolve_prevout_without_rpc
--     Graph.Fetch       fetch_and_convert_many, enrich_and_cache_tx
--     Graph.Bfs         the loop of build_ancestry: `drain` pops the queue into a frontier,
--                       `process` adds the nodes and edges of a level
--     Graph.Backfill    backfill_inputs_from_graph
--     Graph.Build       build_ancestry, which composes the search and the backfill
--     Graph.Chain       the specification: what a chain of transactions says of nodes and caches
--     Graph.Mock        a concrete node and caches for the tests; Graph.Mock.Registered is about the
--                       node of Rpc.Mock
--   Labels              crates/cory-core/src/labels: types.rs, jsonl.rs (Labels.Jsonl), store.rs
--                       (Labels.Store) and pack.rs with the loading of directories (Labels.Pack)
--   Enrich              crates/cory-core/src/enrich.rs; Enrich.Display is derive_display_id
--   Server              crates/cory/src/server: error.rs and auth.rs, limits.rs (Server.Limits), the
--                       history of searches (Server.History), get_graph of graph.rs (Server.Graph)
--                       with its response (Server.Graph.Response), and labels.rs (Server.Labels)
--     Server.Router           the routes of mod.rs; Server.StaticFiles is static_files.rs
--     Server.Service          the handlers as tasks over the shared state
--     Server.History.Listing  get_history of history.rs
--     Server.Enrichment       build_graph_enrichments of graph.rs
--     Server.Labels.Archive   zip_browser_labels of labels.rs
--   Startup             crates/cory/src/main.rs up to the router, and cli.rs (Startup.Arguments);
--                       Startup.Serve is the server that it starts
--
-- A handler calls the search, the search calls fetch_and_convert_many once per level, and that calls
-- the caches and the node, whose states are in the World that every action passes on. The handler
-- writes the history and enriches the graph with the labels of the store. The label handlers call the
-- label store, with a disk as its state. The HTTP client is the BitcoinRpc that main gives to the
-- server: its state is its next id, its cache of heights and the network.
--
-- Server.Service is a transition system: a request becomes a task, and a task goes on by one critical
-- section at a time. get_graph has three, the search, the entry in the history and the response made
-- of the labels, and any other handler has one; other tasks may go on between them.
--
-- Parameters: quick_cache (a record of operations with the documented laws of a bounded cache), the
-- connection to the node and its rate limiter, serde_json, the URL parser, std::fs and std::path, the
-- zip writer, the bitcoin crate's tests and readings of scripts and its parsers and printers, the
-- floating-point numbers, the clock and the random bytes. A txid is a number and an amount a number
-- of satoshis.
--
-- Fuel: the loop of build_ancestry has max_nodes + 1 rounds. Each round but the last adds a node,
-- and the node limit holds, so the rounds suffice. The loop over the suffixes of a name in an archive
-- has one round more than there are used names, one of which each failing round meets. Other loops
-- are structural. The ids of requests are counted modulo 2 ^ 64; a theorem on batches takes that its
-- ids do not pass that bound.
--
-- Not modelled: the tasks that `try_join_all` runs are taken one after another, as with one permit of
-- the semaphore, and a search is one section of its task; the matching of paths and the headers of
-- axum, the embedded files of the user interface, the parsing of the command line by clap but for the
-- parsers given to it, the build script, logging and the listener, which are wiring or input and output.
mod Base
pub mod Types
pub mod Error
pub mod Exec
pub mod Cache
pub mod Rpc
pub mod Graph
pub mod Labels
pub mod Enrich
pub mod Server
pub mod Startup
