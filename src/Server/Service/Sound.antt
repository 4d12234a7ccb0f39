-- ===== src/Server/Service/Sound.antt =====
-- What is so of the requests of the server (crates/cory/src/server) at each point of their handlers.
use cory.Base.{◌≡◌, refl, ◌⊎◌, inl, inr, Bool, true, false, Option, none, some}
use cory.Base.Text.{Text}
use cory.Types.{Txid, AncestryGraph, GraphLimits}
use cory.Labels.Store.{LabelStore}
use cory.Labels.Store.WellFormed.{Safe}
use cory.Server.{Reply, ok, err, check_auth}
use cory.Server.History.Listing.{listed, get_history}
use cory.Server.Labels.{LabelRequest, LabelResponse, guarded, handle_label_request}
use cory.Server.Labels.Archive.{Ended, guarded_zip, zip_browser_labels}
use cory.Server.Enrichment.{Context}
use cory.Server.Graph.{Found, refused, search_crashed, found, with_history}
use cory.Server.Graph.Served.{Served, find_graph-Served}
use cory.Server.Graph.Response.{IsTrue, with_store, response-IsTrue, graph_response_of}
use cory.Server.Router.{leads_to, protected_api}
use cory.Server.Service.{
  Site, Request, get_health, get_server_limits, zip_labels, list_history, unknown_route, ask_graph,
  on_labels, labelled, get_page, handler_of, Response, graph, labels, searches, Progress, waiting,
  searched, noted, replied, crashed, Shared, after_find, after_note, reply_with, zip_reply, begin,
  next_section,
}

-- A call that may be answered, after this outcome of the token check.
abbrev pub IsPermitted : Reply (Unit {0}) → Request → Type 0
IsPermitted auth call = (leads_to (handler_of call) protected_api ≡ false) ⊎ (auth ≡ ok tt)

-- With the labels that the server started with, and its limits.
module _ {R Z C : Type 0} (ctx : Context R) (loaded : LabelStore) (limits : GraphLimits) where
  -- A graph goes out with what was so of it and of the labels at some time.
  abbrev pub IsTold : Response R Z C → Type 0
  IsTold (graph r) =
      Served limits r.graph
      × ((store : LabelStore) × Safe loaded store × IsTrue (with_store ctx store) r)
  IsTold _ = Unit

  -- After this outcome of the token check.
  abbrev pub Fine : Reply (Unit {0}) → Request → Progress R Z C → Type 0
  Fine auth call (searched wanted txid g) = (auth ≡ ok tt) × Served limits g
  Fine auth call (noted g) = (auth ≡ ok tt) × Served limits g
  Fine auth call (replied (ok r)) = IsPermitted auth call × IsTold r
  Fine auth call _ = Unit

module _ {R : Type 0} (Z C : Type 0) (ctx : Context R) (loaded : LabelStore) (limits : GraphLimits)
    (auth : Reply (Unit {0})) where
  reply_with-Fine :
      {A : Type 0} (call : Request) (f : A → Response R Z C) (r : Reply A)
      → ((a : A) → IsTold ctx loaded limits (f a))
      → ((a : A) → r ≡ ok a → auth ≡ ok tt)
      → Fine ctx loaded limits auth call (reply_with f r)
  reply_with-Fine call f (ok a) told permitted = (inr (permitted a refl), told a)
  reply_with-Fine call f (err e) told permitted = tt

  zip_reply-Fine :
      (call : Request) (r : Ended Z)
      → ((z : Z) → r ≡ some (ok z) → auth ≡ ok tt)
      → Fine {Z = Z} {C = C} ctx loaded limits auth call (zip_reply r)
  zip_reply-Fine call none permitted = tt
  zip_reply-Fine call (some (err e)) permitted = tt
  zip_reply-Fine call (some (ok z)) permitted = (inr (permitted z refl), tt)

  after_find-Fine :
      (call : Request) (wanted : Bool) (r : Found)
      → ((t : Txid) (g : AncestryGraph) → r ≡ found t g → (auth ≡ ok tt) × Served limits g)
      → Fine {Z = Z} {C = C} ctx loaded limits auth call (after_find wanted r)
  unfolding after_find
  after_find-Fine call wanted (refused e) h = tt
  after_find-Fine call wanted search_crashed h = tt
  after_find-Fine call wanted (found t g) h = h t g refl

listed-ok :
    (r : Reply (Unit {0})) (history : _) (entries : _) → listed r history ≡ ok entries → r ≡ ok tt
unfolding listed
listed-ok (err e) history entries h = cc h
listed-ok (ok u) history entries h = refl

module _ {T P N R D Z C : Type 0} (site : Site T P N R D Z C) (loaded : LabelStore)
    (s : Shared T P N D) (header : Option Text) where
  guarded-ok :
      (r : Reply (Unit {0})) (req : LabelRequest) (a : LabelResponse)
      → (guarded site.show site.json site.disk_of r req (s.app.labels, s.disk)).0 ≡ ok a
      → r ≡ ok tt
  unfolding guarded
  guarded-ok (err e) req a h = cc h
  guarded-ok (ok u) req a h = refl

  guarded_zip-ok :
      (r : Reply (Unit {0})) (z : Z)
      → guarded_zip site.show site.json s.app.labels site.build_zip r ≡ some (ok z)
      → r ≡ ok tt
  unfolding guarded_zip
  guarded_zip-ok (err e) z h = cc h
  guarded_zip-ok (ok u) z h = refl

  abbrev auth_now : Reply (Unit {0})
  auth_now = check_auth s.app.api_token header

  begin-Fine :
      (call : Request)
      → Fine site.context loaded s.app.default_limits auth_now call (begin site header call s).0
  unfolding begin get_history zip_browser_labels handle_label_request
  begin-Fine get_health = (inl refl, tt)
  begin-Fine get_server_limits = (inl refl, tt)
  begin-Fine zip_labels =
      zip_reply-Fine Z C site.context loaded s.app.default_limits auth_now zip_labels _
        (guarded_zip-ok auth_now)
  begin-Fine list_history =
      reply_with-Fine Z C site.context loaded s.app.default_limits auth_now list_history searches _
        (λ a. tt) (listed-ok auth_now s.app.history)
  begin-Fine unknown_route = tt
  begin-Fine (ask_graph txid query record_history) =
      after_find-Fine Z C site.context loaded s.app.default_limits auth_now
        (ask_graph txid query record_history) _ _
        λ t g. find_graph-Served site.services site.show site.platform header txid t query s.app g
  begin-Fine (on_labels req) =
      reply_with-Fine Z C site.context loaded s.app.default_limits auth_now (on_labels req) labels _
        (λ a. tt) (guarded-ok auth_now req)
  begin-Fine (get_page path) = (inl refl, tt)

  with_history-Fine :
      (limits : GraphLimits) (auth : Reply (Unit {0})) (call : Request) (wanted : Bool)
      (now : Text ⊎ Text) (txid : Txid) (g : AncestryGraph)
      → (auth ≡ ok tt) × Served limits g
      → Fine {Z = Z} {C = C} site.context loaded limits auth call (
          after_note (with_history site.services site.show site.platform wanted now txid g s.app).0)
  unfolding with_history after_note
  with_history-Fine limits auth call false now txid g h = h
  with_history-Fine limits auth call true (inl message) txid g h = tt
  with_history-Fine limits auth call true (inr at) txid g h = h

  noted-Fine :
      (limits : GraphLimits) (auth : Reply (Unit {0})) (call : Request) (g : AncestryGraph)
      → Safe loaded s.app.labels
      → (auth ≡ ok tt) × Served limits g
      → Fine {Z = Z} {C = C} site.context loaded limits auth call
          (replied (ok (graph (labelled site s.app.labels g))))
  unfolding graph_response_of
  noted-Fine limits auth call g safe (is_ok, served) = (
    inr is_ok,
    (served, (s.app.labels, safe, response-IsTrue (with_store site.context s.app.labels) g)),
  )

  -- What is so of a request stays so when it goes on.
  pub next_section-Fine :
      (now : Text ⊎ Text) (call : Request) (p : Progress R Z C)
      → Safe loaded s.app.labels
      → Fine site.context loaded s.app.default_limits auth_now call p
      → Fine site.context loaded s.app.default_limits auth_now call
          (next_section site now header call p s).0
  unfolding next_section
  next_section-Fine now call waiting safe h = begin-Fine call
  next_section-Fine now call (searched wanted txid g) safe h =
      with_history-Fine s.app.default_limits auth_now call wanted now txid g h
  next_section-Fine now call (noted g) safe h =
      noted-Fine s.app.default_limits auth_now call g safe h
  next_section-Fine now call (replied r) safe h = h
  next_section-Fine now call crashed safe h = h
