-- ===== src/Server/Service/Guard.antt =====
-- The routes of protected_api (crates/cory/src/server/mod.rs) are behind the token check (auth.rs).
use cory.Base.{true, [], ◌≡◌, ◌≢◌, refl, Option, some, ◌⊎◌}
use cory.Base.Text.{Text}
use cory.Server.{err}
use cory.Server.Token.{no_token, check_auth-unauthorized}
use cory.Server.History.Listing.{get_history}
use cory.Server.Labels.Safety.{handle_label_request-unauthorized}
use cory.Server.Labels.Archive.{zip_browser_labels}
use cory.Server.Graph.{find_graph}
use cory.Server.Router.{leads_to, protected_api}
use cory.Server.Service.{
  Site, Request, get_health, get_server_limits, zip_labels, list_history, unknown_route, ask_graph,
  on_labels, get_page, handler_of, waiting, replied, Shared, after_find, begin, next_section,
}

module _ {T P N R D Z C : Type 0} (site : Site T P N R D Z C) (s : Shared T P N D)
    (header : Option Text) (set : [] ≢ s.app.api_token)
    (other : header ≢ some s.app.api_token) where
  begin-unauthorized :
      (call : Request)
      → leads_to (handler_of call) protected_api ≡ true
      → begin site header call s ≡ (replied (err no_token), s)
  unfolding begin get_history zip_browser_labels find_graph after_find
  begin-unauthorized get_health h = cc h
  begin-unauthorized get_server_limits h = cc h
  begin-unauthorized zip_labels h =
      rw (check_auth-unauthorized s.app.api_token header set other) refl
  begin-unauthorized list_history h =
      rw (check_auth-unauthorized s.app.api_token header set other) refl
  begin-unauthorized unknown_route h = cc h
  begin-unauthorized (ask_graph txid query record_history) h =
      rw (check_auth-unauthorized s.app.api_token header set other) refl
  begin-unauthorized (on_labels req) h =
      rw
        (handle_label_request-unauthorized site.show site.json site.disk_of (s.app.labels, s.disk)
          s.app.api_token header req set other)
        refl
  begin-unauthorized (get_page path) h = cc h

  -- Where the server has a token that is not empty, a request to any route of protected_api whose
  -- token is missing or is not the server's one is refused as unauthorized in its first step, and
  -- changes nothing: no cache, no node, no history, no label and no file on disk.
  pub next_section-unauthorized :
      (call : Request) (now : Text ⊎ Text)
      → leads_to (handler_of call) protected_api ≡ true
      → next_section site now header call waiting s ≡ (replied (err no_token), s)
  unfolding next_section
  next_section-unauthorized call now h = begin-unauthorized call h
