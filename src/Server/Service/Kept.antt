-- ===== src/Server/Service/Kept.antt =====
-- What no request changes in the state of the server (crates/cory/src/server): the token, the limits
-- and the files that were loaded read-only.
use cory.Base.{◌≡◌, sym, ◌∙◌, ◌≤◌, ◌⊎◌, inl, inr, Bool, true, false, Option, subst, arith, length}
use cory.Base.Text.{Text}
use cory.Types.{Txid, AncestryGraph}
use cory.Graph.World.{World}
use cory.Labels.Store.{LabelStore}
use cory.Labels.Store.WellFormed.{Safe}
use cory.Server.Labels.Safety.{handle_label_request-Safe}
use cory.Server.History.{record_search_history-IsRecorded}
use cory.Server.Graph.{AppState, with_history, max_history_entries}
use cory.Server.Graph.Served.{SameBut, find_graph-SameBut}
use cory.Server.Service.{
  Site, Request, get_health, get_server_limits, zip_labels, list_history, unknown_route, ask_graph,
  on_labels, get_page, Progress, waiting, searched, noted, replied, crashed, Shared, begin,
  next_section,
}

-- What the state still has in common with an earlier one, and the bound of its history.
pub record Kept {W : Type 0} (s0 s : AppState W) : Type 0 where
  pub token : s.api_token ≡ s0.api_token
  pub limits : s.default_limits ≡ s0.default_limits
  pub labels : Safe s0.labels s.labels
  pub bounded : length s.history ≤ max_history_entries

Safe-trans : (s0 s t : LabelStore) → Safe s0 s → Safe s t → Safe s0 t
Safe-trans s0 s t g h = record {
  well_formed = h.well_formed;
  read_only = h.read_only ∙ g.read_only;
}

module _ {T P N R D Z C : Type 0} (site : Site T P N R D Z C) (s0 : AppState (World T P N)) where
  SameBut-Kept : (s t : AppState (World T P N)) → Kept s0 s → SameBut s t → Kept s0 t
  SameBut-Kept s t h same = record {
    token = same.token ∙ h.token;
    limits = same.limits ∙ h.limits;
    labels = subst (Safe s0.labels) (sym same.labels) h.labels;
    bounded = subst (λ l. length l ≤ max_history_entries) (sym same.history) h.bounded;
  }

  begin-Kept :
      (header : Option Text) (call : Request) (s : Shared T P N D)
      → Kept s0 s.app
      → Kept s0 (begin site header call s).1.app
  unfolding begin
  begin-Kept header get_health s h = h
  begin-Kept header get_server_limits s h = h
  begin-Kept header zip_labels s h = h
  begin-Kept header list_history s h = h
  begin-Kept header unknown_route s h = h
  begin-Kept header (ask_graph txid query record_history) s h =
      SameBut-Kept s.app _ h
        (find_graph-SameBut site.services site.show site.platform header txid query s.app)
  begin-Kept header (on_labels req) s h = record {
    token = h.token;
    limits = h.limits;
    labels = Safe-trans s0.labels s.app.labels _ h.labels (
        handle_label_request-Safe site.show site.json site.disk_of s.app.labels s.disk
          h.labels.well_formed s.app.api_token header req);
    bounded = h.bounded;
  }
  begin-Kept header (get_page path) s h = h

  with_history-Kept :
      (wanted : Bool) (now : Text ⊎ Text) (txid : Txid) (g : AncestryGraph)
      (s : AppState (World T P N))
      → Kept s0 s
      → Kept s0 (with_history site.services site.show site.platform wanted now txid g s).1
  unfolding with_history
  with_history-Kept false now txid g s h = h
  with_history-Kept true (inl message) txid g s h = h
  with_history-Kept true (inr at) txid g s h = record {
    token = h.token;
    limits = h.limits;
    labels = h.labels;
    bounded =
        (record_search_history-IsRecorded s.history (site.platform.show_txid txid) at
          max_history_entries (omega arith) h.bounded).bounded;
  }

  pub next_section-Kept :
      (now : Text ⊎ Text) (header : Option Text) (call : Request) (p : Progress R Z C)
      (s : Shared T P N D)
      → Kept s0 s.app
      → Kept s0 (next_section site now header call p s).1.app
  unfolding next_section
  next_section-Kept now header call waiting s h = begin-Kept header call s h
  next_section-Kept now header call (searched wanted txid g) s h =
      with_history-Kept wanted now txid g s.app h
  next_section-Kept now header call (noted g) s h = h
  next_section-Kept now header call (replied r) s h = h
  next_section-Kept now header call crashed s h = h
