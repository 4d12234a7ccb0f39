-- ===== src/Startup/Arguments.antt =====
-- crates/cory/src/cli.rs: the arguments, as clap has parsed them, and the parsers it is given.
-- A path is its text.
pub mod RoundTrip
use cory.Base.{ℕ, ◌^◌, Option, ◌⊎◌, inl, inr, List, nat_beq, if◌then◌else◌}
use cory.Base.Text.{Text, text}
use cory.Base.Integers.{parse_unsigned}

abbrev non_zero : Text ⊎ ℕ → Text ⊎ ℕ
non_zero (inl message) = inl message
non_zero (inr n) = if nat_beq n 0 then inl (text "value must be at least 1") else inr n

unfoldable pub parse_nonzero_usize : Text → Text ⊎ ℕ
parse_nonzero_usize s = non_zero (parse_unsigned (2 ^ 64) s)

unfoldable pub parse_nonzero_u32 : Text → Text ⊎ ℕ
parse_nonzero_u32 s = non_zero (parse_unsigned (2 ^ 32) s)

pub record Cli : Type 0 where
  pub connection : Text
  pub rpc_user : Option Text
  pub rpc_pass : Option Text
  pub rpc_cookie_file : Option Text
  pub rpc_requests_per_second : Option ℕ
  pub rpc_batch_chunk_size : ℕ
  pub rpc_concurrency : ℕ
  pub bind : Text
  pub port : ℕ
  pub labels_rw : List Text
  pub labels_ro : List Text
  pub max_depth : ℕ
  pub max_nodes : ℕ
  pub max_edges : ℕ
  pub cache_tx_cap : ℕ
  pub cache_prevout_cap : ℕ
