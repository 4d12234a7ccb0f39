-- ===== src/Rpc/Client/Items.antt =====
-- The items of a batch answer in crates/cory-core/src/rpc/http_adapter/client.rs: rpc_batch collects
-- them by id and takes them in the order of the requests, which have different ids.
use cory.Base.{
  ℕ, zero, suc, ◌+◌, ◌%◌, ◌^◌, ◌<◌, ◌≡◌, ◌≢◌, refl, ap, subst, Option, none, some, List, [], ◌∷◌,
  Memᴰ, inr, All, Distinct, length, nat_eq, arith, Option-cases, inl,
}
use cory.Base.Map.{Map, get, insert, remove, Entries, Entries-insert, Entries-remove, Entries-get}
use cory.Base.Text.{Text}
use cory.Error.{Result, ok, err, Result-cases}
use cory.Rpc.Json.{JsonRpcRequest, JsonRpcResponseOwned, JsonValue}
use cory.Rpc.Protocol.{parse_batch_id}
use cory.Rpc.Client.{
  Network, HttpRpcClient, unwrap_or, requests, collect_by_id, push_result, in_order, result_of,
}

abbrev pub request_ids : {V : Type 0} → List (JsonRpcRequest V) → List ℕ
request_ids [] = []
request_ids (req ∷ reqs) = req.id ∷ request_ids reqs

module _ {V F C N : Type 0} (js : JsonValue V F) (net : Network V C N)
    (client : HttpRpcClient) where
  -- An item of the list that carries the id.
  abbrev pub Under : List (JsonRpcResponseOwned V) → ℕ → JsonRpcResponseOwned V → Type 0
  Under items id item = (parse_batch_id js item.id ≡ ok id) × Memᴰ item items

  -- Of a map by ids and the items that are still to come.
  pub collect-Entries :
      (P : ℕ → JsonRpcResponseOwned V → Type 0) (todo : List (JsonRpcResponseOwned V))
      (by_id m : Map ℕ (JsonRpcResponseOwned V))
      → Entries P by_id
      → ((item : JsonRpcResponseOwned V)
          → Memᴰ item todo
          → (id : ℕ) → parse_batch_id js item.id ≡ ok id
          → P id item)
      → collect_by_id js net client todo by_id ≡ ok m
      → Entries P m
  unfolding collect_by_id
  collect-Entries P [] by_id m h good e = subst (Entries P) (cc e) h
  collect-Entries P (item ∷ todo) by_id m h good e =
      elim (Result-cases (parse_batch_id js item.id)) [
        | inl (id, is_id) ↦
            collect-Entries P todo (insert id item by_id) m
              (Entries-insert P id item by_id (good item (Memᴰ.head refl) id is_id) h)
              (λ other at. good other (Memᴰ.tail at)) (rw (is_id, collect_by_id) at e)
        | inr (x, failed) ↦ absurd (cc (rw (failed, collect_by_id) at e))
      ]

  -- The values are the results of items with consecutive ids.
  abbrev pub AtIds : (ℕ → JsonRpcResponseOwned V → Type 0) → ℕ → List V → Type 0
  AtIds P id [] = Unit
  AtIds P id (value ∷ values) =
      ((item : JsonRpcResponseOwned V) × P id item
        × (result_of js net client item.error item.result ≡ ok value))
      × AtIds P (suc id) values

  push_result-ok :
      (r : Result V) (rest : Result (List V)) (values : List V)
      → push_result js net client r rest ≡ ok values
      → (v : V) × (vs : List V) × (r ≡ ok v) × (rest ≡ ok vs) × (v ∷ vs ≡ values)
  push_result-ok (ok v) (ok vs) values e = (v, vs, refl, refl, cc e)
  push_result-ok (ok v) (err x) values e = cc e
  push_result-ok (err x) rest values e = cc e

  pub in_order-AtIds :
      (P : ℕ → JsonRpcResponseOwned V → Type 0) (count id : ℕ)
      (by_id : Map ℕ (JsonRpcResponseOwned V)) (values : List V)
      → Entries P by_id
      → in_order js net client count id by_id ≡ ok values
      → (length values ≡ count) × AtIds P id values
  unfolding in_order
  in_order-AtIds P zero id by_id values h e =
      let same : [] ≡ values = cc e in subst (λ vs. (length vs ≡ 0) × AtIds P id vs) same (refl, tt)
  in_order-AtIds P (suc count) id by_id values h e = elim (Option-cases (get by_id id)) [
    | inl missing ↦ absurd (cc (rw (missing, in_order) at e))
    | inr (item, found) ↦
        let (v, vs, good, others, same) = push_result-ok _ _ values (rw (found, in_order) at e) in
        let (len, rest) =
          in_order-AtIds P count (suc id) (remove id by_id) vs (Entries-remove P id by_id h)
            others in
        subst (λ xs. (length xs ≡ suc count) × AtIds P id xs) same
          (ap suc len, ((item, Entries-get P by_id id item h found, good), rest))
  ]

  pub result_of-ok :
      (error result : Option V) (value : V)
      → result_of js net client error result ≡ ok value
      → (error ≡ none) × (unwrap_or js.null result ≡ value)
  unfolding result_of
  result_of-ok (some e) result value h = cc h
  result_of-ok none result value h = (refl, cc h)

  requests-above :
      (low id : ℕ) (calls : List (Text × List V))
      → low < id
      → id + length calls < 2 ^ 64
      → All (λ j. low ≢ j) (request_ids (requests js net client id calls))
  unfolding requests
  requests-above low id [] h room = tt
  requests-above low id (call ∷ calls) h room =
      (omega arith, requests-above low (suc id) calls (omega arith) (omega arith))

  pub requests-Distinct :
      (id : ℕ) (calls : List (Text × List V))
      → id + length calls < 2 ^ 64
      → Distinct (request_ids (requests js net client id calls))
  unfolding requests
  requests-Distinct id [] room = tt
  requests-Distinct id (call ∷ calls) room = (
    requests-above (id % 2 ^ 64) (suc id) calls (omega arith) (omega arith),
    requests-Distinct (suc id) calls (omega arith),
  )
