-- ===== src/Server/Router.antt =====
-- crates/cory/src/server/mod.rs, build_router: the routes, with what they are behind, and the two
-- handlers that stand beside it. How axum finds the route of a request is not modelled.
use cory.Base.{ℕ, Bool, List, [], ◌∷◌, ◌++◌, ◌*◌, ◌||◌, false, nat_beq, ◌==◌}
use cory.Base.Text.{Text, text, text_eq}
use cory.Server.{AppError}

pub data Method : Type 0 where
  get_method post_method delete_method options_method any_method : Method

-- The handlers that the routes name.
pub data Handler : Type 0 where
  health_check limits_info graph_of_tx search_log labels_zip : Handler
  label_list label_create label_update label_removal entry_removal label_export : Handler
  unknown_api ui_page : Handler

abbrev pub handler_number : Handler → ℕ
handler_number Handler.health_check = 0
handler_number Handler.limits_info = 1
handler_number Handler.graph_of_tx = 2
handler_number Handler.search_log = 3
handler_number Handler.labels_zip = 4
handler_number Handler.label_list = 5
handler_number Handler.label_create = 6
handler_number Handler.label_update = 7
handler_number Handler.label_removal = 8
handler_number Handler.entry_removal = 9
handler_number Handler.label_export = 10
handler_number Handler.unknown_api = 11
handler_number Handler.ui_page = 12

pub record Route : Type 0 where
  pub path : Text
  pub method : Method
  pub handler : Handler

abbrev route : Text → Method → Handler → Route
route path method handler = record { path = path; method = method; handler = handler }

abbrev pub public_api : List Route
public_api =
    route (text "/api/v1/health") Method.get_method Handler.health_check
    ∷ route (text "/api/v1/limits") Method.get_method Handler.limits_info
    ∷ []

abbrev pub label_body_limit : ℕ
label_body_limit = 2 * (1024 * 1024)

abbrev pub label_routes : List Route
label_routes =
    route (text "/api/v1/label") Method.get_method Handler.label_list
    ∷ route (text "/api/v1/label") Method.post_method Handler.label_create
    ∷ route (text "/api/v1/label/{file_id}") Method.post_method Handler.label_update
    ∷ route (text "/api/v1/label/{file_id}") Method.delete_method Handler.label_removal
    ∷ route (text "/api/v1/label/{file_id}/entry") Method.delete_method Handler.entry_removal
    ∷ route (text "/api/v1/label/{file_id}/export") Method.get_method Handler.label_export
    ∷ []

abbrev pub protected_api : List Route
protected_api =
    route (text "/api/v1/graph/tx/{txid}") Method.get_method Handler.graph_of_tx
    ∷ route (text "/api/v1/history") Method.get_method Handler.search_log
    ∷ route (text "/api/v1/labels.zip") Method.get_method Handler.labels_zip
    ∷ label_routes

-- Behind them is the fallback to the pages of the user interface.
abbrev pub all_routes : List Route
all_routes =
    public_api
    ++ (protected_api
        ++ (route (text "/api") Method.any_method Handler.unknown_api
            ∷ route (text "/api/{*path}") Method.any_method Handler.unknown_api
            ∷ []))

abbrev pub leads_to : Handler → List Route → Bool
leads_to handler [] = false
leads_to handler (r ∷ routes) =
    nat_beq (handler_number handler) (handler_number r.handler) || leads_to handler routes

-- The predicate of the CORS layer.
abbrev pub allows_origin : Text → Text → Bool
allows_origin allowed request_origin = request_origin == allowed

abbrev pub api_not_found : AppError
api_not_found = AppError.not_found (text "API route not found")
