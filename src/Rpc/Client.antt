-- ===== src/Rpc/Client.antt =====
-- crates/cory-core/src/rpc/http_adapter/client.rs: the JSON-RPC client. reqwest, governor and the
-- lru crate are parameters, with the network behind them in the state `N`. The requests that
-- `try_join_all` runs are taken one after another, and id arithmetic wraps, as in a release build.
-- Here are the client's state and its calls; the modules below have its constructor (New), the
-- reading of a transaction (Transactions) and the methods of the trait (Methods).
pub mod New
pub mod Transactions
pub mod Methods
mod Calls
mod Items
pub mod Batch
pub mod Truth
use cory.Base.{
  ℕ, zero, suc, ◌+◌, ◌-◌, ◌%◌, ◌^◌, Option, none, some, List, [], ◌∷◌, ◌++◌, ◌⊎◌, inl, inr, length,
  chunks, flatten, nat_eq,
}
use cory.Base.Map.{Map, get, insert, remove}
use cory.Base.Text.{Text, text}
use cory.Error.{CoreError, Result, ok, err, rpc, transport, invalid_response, missing_batch_item}
use cory.Types.{BlockHash, BlockHeight}
use cory.Rpc.{call_each}
use cory.Rpc.Json.{JsonRpcRequest, JsonRpcResponseOwned, JsonValue}
use cory.Rpc.Protocol.{parse_jsonrpc_error, parse_batch_id}
use cory.Rpc.Connection.{Auth}

-- What is sent: one request, or a batch of them.
pub data Payload (V : Type 0) : Type 0 where
  single : JsonRpcRequest V → Payload V
  batch : List (JsonRpcRequest V) → Payload V

-- `post` sends to a URL and reads the body of the answer, or gives the message of the transport
-- error; `until_ready` waits for the rate limiter of a quota; the heights stand in an LRU cache.
pub record Network (V C N : Type 0) : Type 0 where
  pub post : Text → Auth → Payload V → N → (Text ⊎ Text) × N
  pub until_ready : ℕ → N → N
  pub new_cache : ℕ → C
  pub cached : BlockHash → C → Option BlockHeight × C
  pub put : BlockHash → BlockHeight → C → C

-- The fields of HttpRpcClient that do not change, and those that do, with the network.
pub record HttpRpcClient : Type 0 where
  pub url : Text
  pub auth : Auth
  pub limiter : Option ℕ
  pub batch_chunk_size : ℕ

pub record ClientState (C N : Type 0) : Type 0 where
  pub next_id : ℕ
  pub block_height_cache : C
  pub net : N

abbrev pub block_height_cache_cap : ℕ
block_height_cache_cap = 10000

-- Async methods: a result and the state after it.
abbrev pub Call : Type 0 → Type 0 → Type 0
Call S A = S → Result A × S

module _ {S : Type 0} where
  abbrev pub lift : {A : Type 0} → Result A → Call S A
  lift r s = (r, s)

  abbrev pub continue : {A B : Type 0} → Result A → (A → Call S B) → Call S B
  continue (ok a) f s = f a s
  continue (err e) f s = (err e, s)

  infixl 10 ◌>>=◌
  unfoldable pub ◌>>=◌ : {A B : Type 0} → Call S A → (A → Call S B) → Call S B
  ◌>>=◌ m f s = let (r, s') = m s in continue r f s'

abbrev resp_text : Text → Text → Text → CoreError
resp_text what message body =
    rpc (invalid_response (text "decode JSON-RPC " ++ what ++ message ++ text "; body=" ++ body))

-- from_str, with the error message of the code
abbrev decoded : {A : Type 0} → Text → (Text → Text ⊎ A) → Text → Result A
decoded what read body = elim (read body) [
  | inl message ↦ err (resp_text what message body)
  | inr a ↦ ok a
]

-- The body of an answer, or the transport error.
abbrev body_of : Text ⊎ Text → Result Text
body_of (inl message) = err (rpc (transport message))
body_of (inr body) = ok body

abbrev pub unwrap_or {ℓ} : {A : Type ℓ} → A → Option A → A
unwrap_or default none = default
unwrap_or default (some a) = a

module _ {V F C N : Type 0} (js : JsonValue V F) (net : Network V C N)
    (client : HttpRpcClient) where
  abbrev State : Type 0
  State = ClientState C N

  pub wait_for_rate_limit : Option ℕ → State → State
  wait_for_rate_limit none s = s
  wait_for_rate_limit (some quota) s = record s { net = net.until_ready quota s.net }

  abbrev pub reserve_request_ids : ℕ → State → State
  reserve_request_ids count s = record s { next_id = (s.next_id + count) % 2 ^ 64 }

  pub send : Payload V → Call State Text
  send payload s =
      let (r, n) = net.post client.url client.auth payload s.net in
      (body_of r, record s { net = n })

  abbrev pub request_with : ℕ → Text × List V → JsonRpcRequest V
  request_with id (method, params) = record {
    jsonrpc = text "2.0";
    id = id;
    method = method;
    params = params;
  }

  -- The end of an answer: its error, or its result.
  pub result_of : Option V → Option V → Result V
  result_of (some e) result = err (parse_jsonrpc_error js e)
  result_of none result = ok (unwrap_or js.null result)

  unfoldable pub rpc_call : Text → List V → Call State V
  unfolding wait_for_rate_limit send result_of ◌>>=◌
  rpc_call method params s =
      let ready = wait_for_rate_limit client.limiter s in
      (do
        body ← send (Payload.single (request_with ready.next_id (method, params)))
        response ← lift (decoded (text "response: ") js.read_response body)
        lift (result_of response.error response.result))
        (reserve_request_ids 1 ready)

  -- The requests of a batch, with consecutive ids.
  pub requests : ℕ → List (Text × List V) → List (JsonRpcRequest V)
  requests id [] = []
  requests id (call ∷ calls) = request_with (id % 2 ^ 64) call ∷ requests (suc id) calls

  pub collect_by_id :
      List (JsonRpcResponseOwned V)
      → Map ℕ (JsonRpcResponseOwned V)
      → Result (Map ℕ (JsonRpcResponseOwned V))
  collect_by_id [] by_id = ok by_id
  collect_by_id (item ∷ items) by_id = elim (parse_batch_id js item.id) [
    | err e ↦ err e
    | ok id ↦ collect_by_id items (insert id item by_id)
  ]

  abbrev push_result : Result V → Result (List V) → Result (List V)
  push_result (ok value) (ok values) = ok (value ∷ values)
  push_result (ok value) (err e) = err e
  push_result (err e) rest = err e

  abbrev next_item : Option (JsonRpcResponseOwned V) → ℕ → Result (List V) → Result (List V)
  next_item none id rest = err (rpc (missing_batch_item id))
  next_item (some item) id rest = push_result (result_of item.error item.result) rest

  -- The results of `count` ids from `id` on.
  pub in_order : ℕ → ℕ → Map ℕ (JsonRpcResponseOwned V) → Result (List V)
  in_order zero id by_id = ok []
  in_order (suc count) id by_id =
      next_item (get by_id id) id (in_order count (suc id) (remove id by_id))

  abbrev from_start : ℕ → ℕ → Result (Map ℕ (JsonRpcResponseOwned V)) → Result (List V)
  from_start start end (err e) = err e
  from_start start end (ok by_id) = in_order (end - start) start by_id

  -- The batch from its request on, with the ids reserved.
  pub answer_batch : ℕ → List (Text × List V) → Call State (List V)
  answer_batch start_id calls = do
    body ← send (Payload.batch (requests start_id calls))
    items ← lift (decoded (text "batch response: ") js.read_batch body)
    lift (from_start start_id ((start_id + length calls) % 2 ^ 64) (collect_by_id items []))

  unfoldable pub rpc_batch : List (Text × List V) → Call State (List V)
  unfolding wait_for_rate_limit send result_of requests collect_by_id in_order ◌>>=◌ answer_batch
  rpc_batch calls s =
      let ready = wait_for_rate_limit client.limiter s in
      answer_batch ready.next_id calls (reserve_request_ids (length calls) ready)

  unfoldable pub rpc_batch_chunked : List (Text × List V) → Call State (List V)
  rpc_batch_chunked [] = lift (ok [])
  rpc_batch_chunked (call ∷ calls) = do
    chunked ←
        call_each rpc_batch (chunks (length (call ∷ calls)) client.batch_chunk_size (call ∷ calls))
    lift (ok (flatten chunked))
