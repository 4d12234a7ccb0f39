-- ===== src/Rpc/Client/Batch.antt =====
-- The batches of crates/cory-core/src/rpc/http_adapter/client.rs (rpc_batch, rpc_batch_chunked)
-- against a server that answers each request under the id of the request, in any order.
use cory.Base.{
  ℕ, suc, ◌+◌, ◌-◌, ◌%◌, ◌^◌, ◌<◌, ◌≡◌, refl, ◌∙◌, ap, subst, Option, none, some, List, [], ◌∷◌,
  ◌++◌, Memᴰ, inr, Each, Each-append, Distinct, length, length-append, chunks, flatten,
  flatten-chunks, nat_eq, arith,
}
use cory.Base.Map.{Map}
use cory.Base.Text.{Text, text}
use cory.Error.{Result, ok, err}
use cory.Rpc.{call_each}
use cory.Rpc.Json.{JsonRpcRequest, JsonRpcResponse, JsonRpcResponseOwned, JsonValue}
use cory.Rpc.Protocol.{parse_batch_id}
use cory.Rpc.Connection.{Auth}
use cory.Rpc.Client.{
  Payload, single, batch, Network, HttpRpcClient, ClientState, unwrap_or, request_with, requests,
  collect_by_id, result_of, send, wait_for_rate_limit, rpc_call, rpc_batch, answer_batch,
  rpc_batch_chunked, from_start, ◌>>=◌, lift, decoded,
}
use cory.Rpc.Client.Calls.{bind-ok, SameIds, bind-SameIds, call_each-cons, body_of-ok, decoded-ok}
use cory.Rpc.Client.Items.{
  request_ids, Under, AtIds, collect-Entries, in_order-AtIds, result_of-ok, requests-Distinct,
}

-- A JSON-RPC server: a result that comes with no error answers the request that it is for, in a batch
-- of requests with different ids the one with its id. `Answers` relates a method with its parameters
-- and a result.
pub record IsServer {V F C N : Type 0} (js : JsonValue V F) (net : Network V C N)
    (Answers : Text × List V → V → Type 0) : Type 0 where
  pub one :
      (url : Text) (auth : Auth) (req : JsonRpcRequest V) (n : N) (body : Text)
      (response : JsonRpcResponse V)
      → (net.post url auth (single req) n).0 ≡ inr body
      → js.read_response body ≡ inr response
      → response.error ≡ none
      → Answers (req.method, req.params) (unwrap_or js.null response.result)
  pub many :
      (url : Text) (auth : Auth) (reqs : List (JsonRpcRequest V)) (n : N) (body : Text)
      (items : List (JsonRpcResponseOwned V)) (req : JsonRpcRequest V)
      (item : JsonRpcResponseOwned V)
      → (net.post url auth (batch reqs) n).0 ≡ inr body
      → js.read_batch body ≡ inr items
      → Distinct (request_ids reqs)
      → Memᴰ req reqs
      → Memᴰ item items
      → parse_batch_id js item.id ≡ ok req.id
      → item.error ≡ none
      → Answers (req.method, req.params) (unwrap_or js.null item.result)

abbrev one_response : Text
one_response = text "response: "

abbrev batch_response : Text
batch_response = text "batch response: "

module _ {V F C N : Type 0} (js : JsonValue V F) (net : Network V C N) (client : HttpRpcClient)
    (Answers : Text × List V → V → Type 0) where
  -- What an item of the answer says to the request with its id.
  abbrev Holds : (ℕ → JsonRpcResponseOwned V → Type 0) → JsonRpcRequest V → Type 0
  Holds P req =
      (item : JsonRpcResponseOwned V)
      → P req.id item
      → item.error ≡ none
      → Answers (req.method, req.params) (unwrap_or js.null item.result)

  AtIds-Each :
      (P : ℕ → JsonRpcResponseOwned V → Type 0) (id : ℕ) (calls : List (Text × List V))
      (values : List V)
      → id + length calls < 2 ^ 64
      → ((req : JsonRpcRequest V) → Memᴰ req (requests js net client id calls) → Holds P req)
      → length values ≡ length calls
      → AtIds js net client P id values
      → Each Answers calls values
  unfolding requests
  AtIds-Each P id [] [] room honest len at = tt
  AtIds-Each P id [] (v ∷ values) room honest len at = absurd (omega arith)
  AtIds-Each P id (call ∷ calls) [] room honest len at = absurd (omega arith)
  AtIds-Each P id (call ∷ calls) (v ∷ values) room honest len ((item, under, good), rest) =
      let (no_error, same) = result_of-ok js net client item.error item.result v good in
      let exact : id ≡ id % 2 ^ 64 = omega arith in
      (
        subst (Answers call) same (
            honest (request_with js net client (id % 2 ^ 64) call) (Memᴰ.head refl) item
              (subst (λ i. P i item) exact under) no_error),
        AtIds-Each P (suc id) calls values (omega arith) (λ req at. honest req (Memᴰ.tail at))
            (omega arith) rest,
      )

module _ {V F C N : Type 0} (js : JsonValue V F) (net : Network V C N) (client : HttpRpcClient)
    (Answers : Text × List V → V → Type 0) (server : IsServer js net Answers) where
  ready-next_id :
      (limiter : Option ℕ) (s : ClientState C N)
      → (wait_for_rate_limit js net client limiter s).next_id ≡ s.next_id
  unfolding wait_for_rate_limit
  ready-next_id none s = refl
  ready-next_id (some quota) s = refl

  send-next_id :
      (payload : Payload V) (s : ClientState C N)
      → (send js net client payload s).1.next_id ≡ s.next_id
  unfolding send
  send-next_id payload s = refl

  answer_batch-SameIds :
      (start : ℕ) (calls : List (Text × List V)) → SameIds (answer_batch js net client start calls)
  unfolding answer_batch
  answer_batch-SameIds start calls =
      bind-SameIds _
        (λ body.
          bind-SameIds _ (λ items s. refl) (lift (decoded batch_response js.read_batch body))
            (λ s. refl))
        (send js net client _) (send-next_id _)

  rpc_batch-next_id :
      (calls : List (Text × List V)) (s : ClientState C N)
      → (rpc_batch js net client calls s).1.next_id ≡ (s.next_id + length calls) % 2 ^ 64
  unfolding rpc_batch
  rpc_batch-next_id calls s =
      answer_batch-SameIds _ calls _
      ∙ ap (λ (i : ℕ). (i + length calls) % 2 ^ 64) (ready-next_id client.limiter s)

  from_start-Each :
      (start : ℕ) (calls : List (Text × List V)) (n : N) (body : Text)
      (items : List (JsonRpcResponseOwned V)) (values : List V)
      (by_id : Result (Map ℕ (JsonRpcResponseOwned V)))
      → start + length calls < 2 ^ 64
      → (net.post client.url client.auth (batch (requests js net client start calls)) n).0
        ≡ inr body
      → js.read_batch body ≡ inr items
      → collect_by_id js net client items [] ≡ by_id
      → from_start js net client start ((start + length calls) % 2 ^ 64) by_id ≡ ok values
      → Each Answers calls values
  from_start-Each start calls n body items values (err x) room posted read collected e = cc e
  from_start-Each start calls n body items values (ok by_id) room posted read collected e =
      let entries =
        collect-Entries js net client (Under js net client items) items [] by_id tt
          (λ item at id is_id. (is_id, at)) collected in
      let (len, at) =
        in_order-AtIds js net client (Under js net client items)
          ((start + length calls) % 2 ^ 64 - start) start by_id values entries e in
      AtIds-Each js net client Answers (Under js net client items) start calls values room
        (λ req is_req item under no_error.
          server.many client.url client.auth (requests js net client start calls) n body items req
            item posted read (requests-Distinct js net client start calls room) is_req under.1
            under.0 no_error)
        (omega arith) at

  answer_batch-Each :
      (start : ℕ) (calls : List (Text × List V)) (s : ClientState C N) (values : List V)
      → start + length calls < 2 ^ 64
      → (answer_batch js net client start calls s).0 ≡ ok values
      → Each Answers calls values
  unfolding answer_batch send
  answer_batch-Each start calls s values room e =
      let (body, sent, e') = bind-ok _ (send js net client _) s e in
      let (items, read, e'') = bind-ok _ (lift (decoded batch_response js.read_batch body)) _ e' in
      from_start-Each start calls s.net body items values _ room (body_of-ok _ body sent)
        (decoded-ok batch_response js.read_batch body items read) refl e''

  rpc_batch-Each :
      (calls : List (Text × List V)) (s : ClientState C N) (values : List V)
      → s.next_id + length calls < 2 ^ 64
      → (rpc_batch js net client calls s).0 ≡ ok values
      → Each Answers calls values
  unfolding rpc_batch
  rpc_batch-Each calls s values room e =
      answer_batch-Each _ calls _ values (omega (arith, room, ready-next_id client.limiter s)) e

  answer-Each :
      (req : JsonRpcRequest V) (s : ClientState C N) (value : V)
      → ((do
        body ← send js net client (single req)
        response ← lift (decoded one_response js.read_response body)
        lift (result_of js net client response.error response.result))
          s).0
        ≡ ok value
      → Answers (req.method, req.params) value
  unfolding send
  answer-Each req s value e =
      let (body, sent, e') = bind-ok _ (send js net client (single req)) s e in
      let (response, read, e'') =
        bind-ok _ (lift (decoded one_response js.read_response body)) _ e' in
      let (no_error, same) = result_of-ok js net client response.error response.result value e'' in
      subst (Answers (req.method, req.params)) same (
        server.one client.url client.auth req s.net body response (body_of-ok _ body sent)
          (decoded-ok one_response js.read_response body response read) no_error)

  -- rpc_call returns what the server answers to the method.
  pub rpc_call-Answers :
      (method : Text) (params : List V) (s : ClientState C N) (value : V)
      → (rpc_call js net client method params s).0 ≡ ok value
      → Answers (method, params) value
  unfolding rpc_call
  rpc_call-Answers method params s value e = answer-Each _ _ value e

  -- The chunks of a list of calls, one after another.
  batches-Each :
      (batches : List (List (Text × List V))) (s : ClientState C N) (chunked : List (List V))
      → s.next_id + length (flatten batches) < 2 ^ 64
      → (call_each (rpc_batch js net client) batches s).0 ≡ ok chunked
      → Each Answers (flatten batches) (flatten chunked)
  unfolding call_each
  batches-Each [] s chunked room e =
      subst (λ vs. Each Answers [] (flatten vs)) (let same : [] ≡ chunked = cc e in same) tt
  batches-Each (calls ∷ batches) s chunked room e =
      let run = call_each-cons (rpc_batch js net client) calls batches s chunked e in
      let all = length-append calls (flatten batches) in
      subst (λ vs. Each Answers (calls ++ flatten batches) (flatten vs)) run.all
        (Each-append Answers calls (flatten batches) run.head (flatten run.rest)
          (rpc_batch-Each calls s run.head (omega (arith, all)) run.first)
          (batches-Each batches _ run.rest (omega (arith, all, rpc_batch-next_id calls s))
            run.others))

  -- Where rpc_batch_chunked returns, each call has its own answer, in the order of the calls.
  pub rpc_batch_chunked-Each :
      (calls : List (Text × List V)) (s : ClientState C N) (values : List V)
      → s.next_id + length calls < 2 ^ 64
      → 0 < client.batch_chunk_size
      → (rpc_batch_chunked js net client calls s).0 ≡ ok values
      → Each Answers calls values
  unfolding rpc_batch_chunked
  rpc_batch_chunked-Each [] s values room some_size e =
      subst (Each Answers []) (let same : [] ≡ values = cc e in same) tt
  rpc_batch_chunked-Each (call ∷ calls) s values room some_size e =
      let all = call ∷ calls in
      let parts = chunks (length all) client.batch_chunk_size all in
      let whole : flatten parts ≡ all =
        flatten-chunks (length all) client.batch_chunk_size all (omega arith) some_size in
      let (chunked, run, last) = bind-ok _ (call_each (rpc_batch js net client) parts) s e in
      let same : flatten chunked ≡ values = cc last in
      subst (Each Answers all) same (
        subst (λ l. Each Answers l (flatten chunked)) whole
          (batches-Each parts s chunked (omega (arith, room, ap length whole)) run))
