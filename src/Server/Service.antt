-- ===== src/Server/Service.antt =====
-- The handlers of crates/cory/src/server as they share AppState. A request is a task that goes on from
-- one critical section to the next: get_graph (graph.rs) searches, then writes the history, then reads
-- the labels; any other handler takes one lock once. A search is one section here, with its cache and
-- its node to itself.
mod Tests
pub mod Guard
pub mod Kept
pub mod Sound
pub mod Safety
use cory.Base.{ℕ, Bool, zero, suc, Option, none, some, List, [], ◌∷◌, ◌++◌, ◌⊎◌, ◌≡◌, get_elem?}
use cory.Base.Text.{Text, text}
use cory.Types.{Txid, AncestryGraph}
use cory.Graph.World.{Services, World}
use cory.Labels.Jsonl.{Json}
use cory.Labels.Store.{FileSystem, LabelStore}
use cory.Server.{AppError, Reply, ok, err, Messages}
use cory.Server.Limits.{GraphQuery, LimitsResponse, get_limits}
use cory.Server.History.Listing.{HistoryEntry, get_history}
use cory.Server.Labels.{LabelRequest, LabelResponse, handle_label_request}
use cory.Server.Labels.Archive.{Entries, Ended, zip_browser_labels}
use cory.Server.Enrichment.{Context, build_graph_enrichments}
use cory.Server.Graph.{
  AppState, Platform, Found, refused, search_crashed, found, Answer, reply, crash, find_graph,
  with_history, wants_history,
}
use cory.Server.Graph.Response.{GraphResponse, graph_response_of, with_store}
use cory.Server.StaticFiles.{Assets, StaticResponse, static_files}
use cory.Server.Router.{Handler, api_not_found}

-- What the server runs on.
pub record Site (T P N R D Z C : Type 0) : Type 0 where
  pub services : Services T P N
  pub show : Messages
  pub platform : Platform
  pub context : Context R
  pub json : Json
  pub disk_of : FileSystem D
  pub build_zip : Entries → Reply Z
  pub assets : Assets C

-- A request, as axum hands it to the handler of its route.
pub data Request : Type 0 where
  get_health get_server_limits zip_labels list_history unknown_route : Request
  ask_graph : (txid : Text) → GraphQuery → (record_history : Option Bool) → Request
  on_labels : LabelRequest → Request
  get_page : (path : Text) → Request

abbrev label_handler : LabelRequest → Handler
label_handler LabelRequest.list_label_files = Handler.label_list
label_handler (LabelRequest.create_or_import_local_label_file req) = Handler.label_create
label_handler (LabelRequest.upsert_or_replace_local_label_file id req) = Handler.label_update
label_handler (LabelRequest.delete_local_label_file id) = Handler.label_removal
label_handler (LabelRequest.delete_local_label_entry id t ref_id) = Handler.entry_removal
label_handler (LabelRequest.export_local_label_file id) = Handler.label_export

abbrev pub handler_of : Request → Handler
handler_of get_health = Handler.health_check
handler_of get_server_limits = Handler.limits_info
handler_of zip_labels = Handler.labels_zip
handler_of list_history = Handler.search_log
handler_of unknown_route = Handler.unknown_api
handler_of (ask_graph txid query record_history) = Handler.graph_of_tx
handler_of (on_labels req) = label_handler req
handler_of (get_page path) = Handler.ui_page

pub data Response (R Z C : Type 0) : Type 0 where
  healthy : Response R Z C
  limits : LimitsResponse → Response R Z C
  graph : GraphResponse R → Response R Z C
  searches : List HistoryEntry → Response R Z C
  archive : Z → Response R Z C
  labels : LabelResponse → Response R Z C
  ui : StaticResponse C → Response R Z C

pub data Progress (R Z C : Type 0) : Type 0 where
  waiting : Progress R Z C
  searched : Bool → Txid → AncestryGraph → Progress R Z C
  noted : AncestryGraph → Progress R Z C
  replied : Reply (Response R Z C) → Progress R Z C
  crashed : Progress R Z C

-- AppState with its locks, and the directories on disk.
pub record Shared (T P N D : Type 0) : Type 0 where
  pub app : AppState (World T P N)
  pub disk : D

module _ {R Z C : Type 0} where
  unfoldable pub after_find : Bool → Found → Progress R Z C
  after_find wanted (refused e) = replied (err e)
  after_find wanted search_crashed = crashed
  after_find wanted (found txid g) = searched wanted txid g

  unfoldable pub after_note : Answer → Progress R Z C
  after_note (reply (ok g)) = noted g
  after_note (reply (err e)) = replied (err e)
  after_note crash = crashed

  abbrev pub reply_with : {A : Type 0} → (A → Response R Z C) → Reply A → Progress R Z C
  reply_with f (ok a) = replied (ok (f a))
  reply_with f (err e) = replied (err e)

  abbrev pub zip_reply : Ended Z → Progress R Z C
  zip_reply none = crashed
  zip_reply (some r) = reply_with archive r

module _ {T P N R D Z C : Type 0} (site : Site T P N R D Z C) where
  -- The response is made of the labels as they are now.
  abbrev pub labelled : LabelStore → AncestryGraph → GraphResponse R
  labelled store g =
      let ctx = with_store site.context store in
      graph_response_of ctx g (build_graph_enrichments ctx g)

  -- The first critical section of a handler, with the token of the request.
  unfoldable pub begin : Option Text → Request → Shared T P N D → Progress R Z C × Shared T P N D
  begin header get_health s = (replied (ok healthy), s)
  begin header get_server_limits s = (replied (ok (limits (get_limits s.app.default_limits))), s)
  begin header zip_labels s = (
    zip_reply
        (zip_browser_labels site.show site.json s.app.labels site.build_zip s.app.api_token header),
    s,
  )
  begin header list_history s =
      (reply_with searches (get_history s.app.api_token header s.app.history), s)
  begin header unknown_route s = (replied (err api_not_found), s)
  begin header (ask_graph txid query record_history) s =
      let (r, app) = find_graph site.services site.show site.platform header txid query s.app in
      (after_find (wants_history record_history) r, record s { app = app })
  begin header (on_labels req) s =
      let (r, sd) =
        handle_label_request site.show site.json site.disk_of s.app.api_token header req
          (s.app.labels, s.disk) in
      (reply_with labels r, record { app = record s.app { labels = sd.0 }; disk = sd.1 })
  begin header (get_page path) s = (replied (ok (ui (static_files site.assets path))), s)

  -- The next critical section, at a time.
  unfoldable pub next_section :
      Text ⊎ Text
      → Option Text
      → Request
      → Progress R Z C
      → Shared T P N D
      → Progress R Z C × Shared T P N D
  unfolding begin after_find after_note
  next_section now header call waiting s = begin header call s
  next_section now header call (searched wanted txid g) s =
      let (answer, app) =
        with_history site.services site.show site.platform wanted now txid g s.app in
      (after_note answer, record s { app = app })
  next_section now header call (noted g) s = (replied (ok (graph (labelled s.app.labels g))), s)
  next_section now header call (replied r) s = (replied r, s)
  next_section now header call crashed s = (crashed, s)

-- A request with its token, and how far its handler is.
pub record Task (R Z C : Type 0) : Type 0 where
  pub header : Option Text
  pub call : Request
  pub progress : Progress R Z C

pub record Machine (T P N R D Z C : Type 0) : Type 0 where
  pub shared : Shared T P N D
  pub tasks : List (Task R Z C)

abbrev pub set_at : {A : Type 0} → ℕ → A → List A → List A
set_at i a [] = []
set_at zero a (x ∷ xs) = a ∷ xs
set_at (suc i) a (x ∷ xs) = x ∷ set_at i a xs

module _ {T P N R D Z C : Type 0} (site : Site T P N R D Z C) where
  -- The task at a position goes on, at a time.
  unfoldable pub run_task :
      ℕ → Text ⊎ Text → Task R Z C → Machine T P N R D Z C → Machine T P N R D Z C
  unfolding next_section
  run_task i now t m =
      let (progress, shared) = next_section site now t.header t.call t.progress m.shared in
      record { shared = shared; tasks = set_at i (record t { progress = progress }) m.tasks }

  -- A request arrives, or a task goes on.
  pub data Step : Machine T P N R D Z C → Machine T P N R D Z C → Type 0 where
    arrive :
        {m : Machine T P N R D Z C} (header : Option Text) (call : Request)
        → Step m (record m {
          tasks = m.tasks ++ (record { header = header; call = call; progress = waiting } ∷ []);
        })
    go_on :
        {m : Machine T P N R D Z C} (i : ℕ) (now : Text ⊎ Text) (t : Task R Z C)
        → get_elem? m.tasks i ≡ some t
        → Step m (run_task i now t m)

  -- The machines that a server with this state and no requests yet can become.
  pub data Reach (s : Shared T P N D) : Machine T P N R D Z C → Type 0 where
    no_requests : Reach s (record { shared = s; tasks = [] })
    later : {m m' : Machine T P N R D Z C} → Reach s m → Step m m' → Reach s m'
