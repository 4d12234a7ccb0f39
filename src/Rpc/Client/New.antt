-- ===== src/Rpc/Client/New.antt =====
-- crates/cory-core/src/rpc/http_adapter/client.rs: HttpRpcClient::new, with the state that a client
-- starts in. The clock is a parameter: the time since the epoch in nanoseconds, where it is later.
use cory.Base.{ℕ, ◌%◌, ◌^◌, Option, none, some, ◌⊎◌, nat_beq, if◌then◌else◌}
use cory.Base.Text.{Text, text}
use cory.Error.{Result, ok, ◌>>=◌}
use cory.Rpc.Connection.{resolve_auth, parse_connection}
use cory.Rpc.Parsing.{invalid}
use cory.Rpc.Client.{Network, HttpRpcClient, ClientState, block_height_cache_cap}

pub initial_request_id : Option ℕ → ℕ
initial_request_id none = 1
initial_request_id (some nanos) = nanos % 2 ^ 64

unfoldable pub checked_limit : Option ℕ → Result (Option ℕ)
checked_limit none = ok none
checked_limit (some limit) =
    if nat_beq limit 0
    then invalid (text "requests_per_second must be at least 1")
    else ok (some limit)

module _ (read_to_string scheme_of : Text → Text ⊎ Text) where
  unfoldable pub configured :
      (connection : Text) (user pass cookie_file : Option Text) (requests_per_second : Option ℕ)
      (batch_chunk_size : ℕ)
      → Result HttpRpcClient
  unfolding checked_limit
  configured connection user pass cookie_file requests_per_second batch_chunk_size = do
    auth ← resolve_auth read_to_string user pass cookie_file
    url ← parse_connection scheme_of connection
    limiter ← checked_limit requests_per_second
    ok (record { url = url; auth = auth; limiter = limiter; batch_chunk_size = batch_chunk_size })

  unfoldable pub new :
      (connection : Text) (user pass cookie_file : Option Text) (requests_per_second : Option ℕ)
      (batch_chunk_size : ℕ)
      → Result HttpRpcClient
  unfolding configured
  new connection user pass cookie_file requests_per_second batch_chunk_size =
      if nat_beq batch_chunk_size 0
      then invalid (text "rpc batch chunk size must be at least 1")
      else configured connection user pass cookie_file requests_per_second batch_chunk_size

unfoldable pub initial_state : {V C N : Type 0} → Network V C N → Option ℕ → N → ClientState C N
unfolding initial_request_id
initial_state net nanos n = record {
  next_id = initial_request_id nanos;
  block_height_cache = net.new_cache block_height_cache_cap;
  net = n;
}
