-- ===== src/Server/Service/Tests.antt =====
-- Requests to the server (crates/cory/src/server) that come between one another.
use cory.Base.{ℕ, ◌≡◌, refl, ◌⊎◌, inr, some, none, Option, [], ◌∷◌, arith}
use cory.Base.Map.{Map}
use cory.Base.Text.{Text, text}
use cory.Types.{TxNode, TxOutput, Txid}
use cory.Graph.Mock.Honest.{fixed_services}
use cory.Labels.Tests.{json, disk, one_of_each-IsWellFormed}
use cory.Server.{ok, err}
use cory.Server.Token.{no_token}
use cory.Server.Tests.{messages, platform, query, state, upsert_rent, token_set, wrong_token}
use cory.Server.Enrichment.Tests.{context}
use cory.Server.Labels.Archive.{Entries}
use cory.Server.Service.{
  Site, Request, ask_graph, on_labels, Shared, Task, Machine, waiting, replied, next_section,
  run_task, Reach, no_requests, later, arrive, go_on,
}
use cory.Server.Service.Guard.{next_section-unauthorized}
use cory.Server.Service.Safety.{IsSafe, Reach-IsSafe}

abbrev Transactions : Type 0
Transactions = Map Txid TxNode

abbrev Outputs : Type 0
Outputs = Map (Txid × ℕ) TxOutput

abbrev pub site : Site Transactions Outputs (Unit {0}) ℕ Text Entries Text
site = record {
  services = fixed_services;
  show = messages;
  platform = platform;
  context = context;
  json = json;
  disk_of = disk;
  build_zip = λ entries. ok entries;
  assets = record { content_of = λ path. none; guess_mime = λ path. [] };
}

abbrev shared : Shared Transactions Outputs (Unit {0}) Text
shared = record { app = state; disk = [] }

abbrev token : Option Text
token = some (text "secret")

abbrev graph_call : Request
graph_call = ask_graph (text "3") query none

abbrev waiting_task : Option Text → Request → Task ℕ Entries Text
waiting_task header call = record { header = header; call = call; progress = waiting }

-- A request for a graph and one for a label.
abbrev both_arrived : Machine Transactions Outputs (Unit {0}) ℕ Text Entries Text
both_arrived = record {
  shared = shared;
  tasks = waiting_task token graph_call ∷ waiting_task token (on_labels upsert_rent) ∷ [];
}

abbrev time : Text ⊎ Text
time = inr (text "2025")

abbrev after_first_turn : Machine Transactions Outputs (Unit {0}) ℕ Text Entries Text
after_first_turn = run_task site 0 time (waiting_task token graph_call) both_arrived

-- The label is written between the search and its answer.
abbrev after_label : Machine Transactions Outputs (Unit {0}) ℕ Text Entries Text
after_label = run_task site 1 time (waiting_task token (on_labels upsert_rent)) after_first_turn

after_label-Reach : Reach site shared after_label
unfolding run_task
after_label-Reach =
    later
      (later
        (later (later no_requests (arrive token graph_call)) (arrive token (on_labels upsert_rent)))
        (go_on 0 time (waiting_task token graph_call) refl))
      (go_on 1 time (waiting_task token (on_labels upsert_rent)) refl)

Reach-IsSafe_example : IsSafe site shared after_label
Reach-IsSafe_example =
    Reach-IsSafe site shared after_label one_of_each-IsWellFormed (omega arith) after_label-Reach

abbrev secured : Shared Transactions Outputs (Unit {0}) Text
secured = record { app = record state { api_token = text "s" }; disk = [] }

next_section-unauthorized_example :
    next_section site time (some (text "t")) (on_labels upsert_rent) waiting secured
    ≡ (replied (err no_token), secured)
next_section-unauthorized_example =
    next_section-unauthorized site secured (some (text "t")) token_set wrong_token
      (on_labels upsert_rent) time refl
