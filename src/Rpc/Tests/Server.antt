-- ===== src/Rpc/Tests/Server.antt =====
-- A concrete server that answers for the transaction 2 of Graph.Mock and for its output, a batch in
-- the reverse order.
use cory.Base.{
  ℕ, zero, suc, ◌≡◌, refl, sym, ◌∙◌, ap, subst, Bool, true, ◌&&◌, Option, none, some, List, [], ◌∷◌,
  ◌⊎◌, inl, inr, nat_beq, if◌then◌else◌, arith, Bool-cases, Memᴰ, nat_eq,
}
use mathlib.Core.Path.{subst₂}
use mathlib.Core.Logic.{⊎_elim}
use mathlib.Core.List.Memᴰ
use cory.Base.Text.{Text, text_eq}
use cory.Graph.Chain.{funding_output}
use cory.Graph.Mock.{output_of}
use cory.Graph.Mock.Honest.{fixed_chain}
use cory.Rpc.Json.{JsonRpcRequest, JsonRpcResponse, JsonRpcResponseOwned}
use cory.Rpc.Client.{unwrap_or, Payload, single, batch, Network, HttpRpcClient, ClientState}
use cory.Rpc.Client.Batch.{IsServer}
use cory.Rpc.Client.Methods.{getrawtransaction, gettxout}
use cory.Rpc.Parsing.Reports.{ReportsTx, ReportsOutput, Reports}
use cory.Rpc.Tests.Json.{J, null, num, str, flag, object, js, bt, response_of, items_with, items_of}
use cory.Rpc.Tests.Reported.{pair_same, reports_output, reports_tx}

-- The object that answers a call, plus one.
abbrev code : Text × List J → ℕ
code (method, str (c ∷ []) ∷ num n ∷ []) = if nat_beq c 2 then 1 else 0
code (method, str (c ∷ []) ∷ num n ∷ flag b ∷ []) = if nat_beq c 2 && nat_beq n 0 then 3 else 0
code _ = 0

abbrev request_code : JsonRpcRequest J → ℕ
request_code req = code (req.method, req.params)

abbrev all_code : ℕ → List (JsonRpcRequest J) → Bool
all_code k [] = true
all_code k (req ∷ reqs) = nat_beq (request_code req) k && all_code k reqs

-- The ids, in the reverse order.
abbrev onto : List (JsonRpcRequest J) → List ℕ → List ℕ
onto [] acc = acc
onto (req ∷ reqs) acc = onto reqs (req.id ∷ acc)

-- A batch of calls with one answer is answered.
abbrev body_for : Payload J → Text
body_for (single req) = request_code req ∷ []
body_for (batch []) = []
body_for (batch (req ∷ reqs)) =
    if all_code (request_code req) (req ∷ reqs) then request_code req ∷ onto (req ∷ reqs) [] else []

-- The state counts the requests sent.
abbrev pub net : Network J (Unit {0}) ℕ
net = record {
  post = λ url auth payload n. (inr (body_for payload), suc n);
  until_ready = λ quota n. n;
  new_cache = λ n. tt;
  cached = λ hash c. (none, c);
  put = λ hash height c. c;
}

abbrev pub client : HttpRpcClient
client = record { url = []; auth = none; limiter = some 5; batch_chunk_size = 2 }

abbrev pub client_start : ClientState (Unit {0}) ℕ
client_start = record { next_id = 7; block_height_cache = tt; net = 0 }

abbrev R : Text × List J → J → Type 0
R = Reports js bt fixed_chain

-- What is asked where an object answers.
code_tx : (txid k : ℕ) → code (getrawtransaction js bt txid) ≡ suc k → (txid ≡ 2) × (k ≡ 0)
code_tx txid k h = ground arith

code_out :
    (txid vout k : ℕ) → code (gettxout js bt txid vout) ≡ suc k → (txid ≡ 2) × (vout ≡ 0) × (k ≡ 2)
code_out txid vout k h = ground arith

code-Reports : (call : Text × List J) (k : ℕ) → code call ≡ suc k → R call (object k)
code-Reports call k h = record {
  tx = λ txid same.
      let (is_two, first) = code_tx txid k (subst (λ c. code c ≡ suc k) same h) in
      subst₂ (λ t j. ReportsTx js bt fixed_chain t (object j)) (sym is_two) (sym first) reports_tx;
  tx_out = λ op same.
      let (is_two, is_zero, third) =
        code_out op.txid op.vout k (subst (λ c. code c ≡ suc k) same h) in
      λ v spk present read. (
        output_of 4000,
        subst₂
            (λ t n.
              funding_output fixed_chain (record { txid = t; vout = n }) ≡ some (output_of 4000))
            (sym is_two) (sym is_zero) refl,
        subst (λ q. ReportsOutput js bt q.0 q.1 (output_of 4000)) (pair_same read)
            (reports_output 4000),
      );
}

response_same :
    {p q : JsonRpcResponse J} → ◌≡◌ {A = Text ⊎ JsonRpcResponse J} (inr p) (inr q) → p ≡ q
response_same e = cc

items_same :
    {p q : List (JsonRpcResponseOwned J)}
    → ◌≡◌ {A = Text ⊎ List (JsonRpcResponseOwned J)} (inr p) (inr q)
    → p ≡ q
items_same e = cc

body_same : {p q : Text} → ◌≡◌ {A = Text ⊎ Text} (inr p) (inr q) → p ≡ q
body_same e = cc

abbrev result_in : Option J → J
result_in result = unwrap_or null result

one_answer :
    (call : Text × List J) (k : ℕ) (response : JsonRpcResponse J)
    → code call ≡ k
    → response_of (k ∷ []) ≡ inr response
    → response.error ≡ none
    → R call (result_in response.result)
one_answer call zero response h read no_error = absurd (ground (arith, read, no_error))
one_answer call (suc k) response h read no_error =
    subst (λ (r : JsonRpcResponse J). R call (result_in r.result)) (response_same read)
      (code-Reports call k h)

items_with-object :
    (k : ℕ) (ids : List ℕ) (item : JsonRpcResponseOwned J)
    → Memᴰ item (items_with k ids)
    → item.result ≡ some (object k)
items_with-object k [] item m = absurd (Memᴰ.not-nil m)
items_with-object k (id ∷ ids) item m =
    ⊎_elim (λ e. ap (λ (i : JsonRpcResponseOwned J). i.result) e)
      (λ rest. items_with-object k ids item rest) (Memᴰ.cases_cons m)

many_answer :
    (k : ℕ) (ids : List ℕ) (items : List (JsonRpcResponseOwned J)) (item : JsonRpcResponseOwned J)
    → items_of (k ∷ ids) ≡ inr items
    → Memᴰ item items
    → (j : ℕ) × (k ≡ suc j) × (item.result ≡ some (object j))
many_answer zero ids items item read m =
    absurd (Memᴰ.not-nil (subst (Memᴰ item) (sym (items_same read)) m))
many_answer (suc j) ids items item read m =
    (j, refl, items_with-object j ids item (subst (Memᴰ item) (sym (items_same read)) m))

all_code-mem :
    (k : ℕ) (reqs : List (JsonRpcRequest J)) (req : JsonRpcRequest J)
    → all_code k reqs ≡ true
    → Memᴰ req reqs
    → request_code req ≡ k
all_code-mem k [] req h m = absurd (Memᴰ.not-nil m)
all_code-mem k (r ∷ reqs) req h m =
    ⊎_elim (λ e. ap request_code e ∙ first_code) (λ rest. all_code-mem k reqs req others rest)
      (Memᴰ.cases_cons m)
  where
    first_code : request_code r ≡ k
    first_code = ground (arith, h)

    others : all_code k reqs ≡ true
    others = ground (arith, h)

batch_answer :
    (reqs : List (JsonRpcRequest J)) (items : List (JsonRpcResponseOwned J))
    (req : JsonRpcRequest J) (item : JsonRpcResponseOwned J)
    → items_of (body_for (batch reqs)) ≡ inr items
    → Memᴰ req reqs
    → Memᴰ item items
    → R (req.method, req.params) (result_in item.result)
batch_answer [] items req item read is_req is_item = absurd (Memᴰ.not-nil is_req)
batch_answer (r ∷ reqs) items req item read is_req is_item =
    elim (Bool-cases (all_code (request_code r) (r ∷ reqs))) [
      | inl same ↦
          let (j, is_code, result) =
            many_answer (request_code r) (onto (r ∷ reqs) []) items item (rw same at read)
              is_item in
          subst (λ o. R (req.method, req.params) (result_in o)) (sym result)
            (code-Reports (req.method, req.params) j
              (all_code-mem (request_code r) (r ∷ reqs) req same is_req ∙ is_code))
      | inr mixed ↦
          absurd (Memᴰ.not-nil (subst (Memᴰ item) (sym (items_same (rw mixed at read))) is_item))
    ]

pub server-IsServer : IsServer js net R
server-IsServer = record {
  one = λ url auth req n body response posted read no_error.
      one_answer (req.method, req.params) (request_code req) response refl
        (subst (λ b. response_of b ≡ inr response) (sym (body_same posted)) read) no_error;
  many = λ url auth reqs n body items req item posted read distinct is_req is_item id no_error.
      batch_answer reqs items req item
        (subst (λ b. items_of b ≡ inr items) (sym (body_same posted)) read) is_req is_item;
}
