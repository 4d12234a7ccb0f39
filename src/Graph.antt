-- ===== src/Graph.antt =====
-- crates/cory-core/src/graph.rs: the ancestry graph builder. Each child says which functions it is
-- about; `Build` is the whole of `build_ancestry`.
pub mod World
pub mod Chain
pub mod Prevouts
pub mod Fetch
pub mod Bfs
pub mod Backfill
pub mod Build
pub mod Mock
mod Tests
