-- ===== src/Server/Service/Safety.antt =====
-- The invariant of the server (crates/cory/src/server), however its requests come between one another.
use cory.Base.{
  ℕ, zero, suc, ◌≡◌, refl, sym, subst, ◌⊎◌, ◌≤◌, some, List, [], ◌∷◌, All, All-append, get_elem?,
  length,
}
use cory.Base.Text.{Text}
use cory.Types.{GraphLimits}
use cory.Labels.Store.WellFormed.{IsWellFormed, Safe-same}
use cory.Server.{check_auth}
use cory.Server.Graph.{max_history_entries}
use cory.Server.Service.{
  Site, Progress, Shared, Task, Machine, next_section, set_at, run_task, Step, arrive, go_on, Reach,
  no_requests, later,
}
use cory.Server.Service.Kept.{Kept, next_section-Kept}
use cory.Server.Service.Sound.{Fine, next_section-Fine}

module _ {A : Type 0} (P : A → Type 0) where
  All-get_elem : (i : ℕ) (xs : List A) (x : A) → get_elem? xs i ≡ some x → All P xs → P x
  All-get_elem i [] x e h = cc e
  All-get_elem zero (y ∷ xs) x e h = subst P (cc e) h.0
  All-get_elem (suc i) (y ∷ xs) x e h = All-get_elem i xs x e h.1

  All-set_at : (i : ℕ) (a : A) (xs : List A) → P a → All P xs → All P (set_at i a xs)
  All-set_at i a [] p h = tt
  All-set_at zero a (x ∷ xs) p h = (p, h.1)
  All-set_at (suc i) a (x ∷ xs) p h = (h.0, All-set_at i a xs p h.1)

module _ {T P N R D Z C : Type 0} (site : Site T P N R D Z C) (s0 : Shared T P N D) where
  abbrev pub IsFine : Task R Z C → Type 0
  IsFine t =
      Fine site.context s0.app.labels s0.app.default_limits (check_auth s0.app.api_token t.header)
        t.call t.progress

  -- The state and every request are as they should be.
  pub record IsSafe (m : Machine T P N R D Z C) : Type 0 where
    pub kept : Kept s0.app m.shared.app
    pub fine : All IsFine m.tasks

  -- The token and the limits are still those of the start.
  next_section-IsFine :
      (now : Text ⊎ Text) (t : Task R Z C) (s : Shared T P N D)
      → Kept s0.app s.app
      → IsFine t
      → IsFine (record t { progress = (next_section site now t.header t.call t.progress s).0 })
  next_section-IsFine now t s kept h =
      let Goal : GraphLimits → Text → Progress R Z C → Type 0 =
        λ l token p. Fine site.context s0.app.labels l (check_auth token t.header) t.call p in
      let next = (next_section site now t.header t.call t.progress s).0 in
      subst (λ token. Goal s0.app.default_limits token next) kept.token
        (subst (λ l. Goal l s.app.api_token next) kept.limits
          (next_section-Fine site s0.app.labels s t.header now t.call t.progress kept.labels (
            subst (λ l. Goal l s.app.api_token t.progress) (sym kept.limits)
              (subst (λ token. Goal s0.app.default_limits token t.progress) (sym kept.token) h))))

  Step-IsSafe : {m m' : Machine T P N R D Z C} → Step site m m' → IsSafe m → IsSafe m'
  unfolding run_task
  Step-IsSafe {m} (arrive header call) h = record {
    kept = h.kept;
    fine = All-append IsFine m.tasks _ h.fine (tt, tt);
  }
  Step-IsSafe {m} (go_on i now t at) h = record {
    kept = next_section-Kept site s0.app now t.header t.call t.progress m.shared h.kept;
    fine =
        All-set_at IsFine i _ m.tasks
          (next_section-IsFine now t m.shared h.kept (All-get_elem IsFine i m.tasks t at h.fine))
          h.fine;
  }

  -- A server that starts with a well-formed label store and a history within its bound: whatever
  -- requests arrive and in whatever order their handlers go on, its token and its limits stay,
  -- its labels stay well-formed with the read-only files as they were, its history stays within
  -- its bound, no route of protected_api has been answered but with an error or to a request with
  -- the token, and each graph that is under way or was sent is within the limits, and the fees,
  -- rates, replaceability and locktimes sent with it are those of its transactions, and the
  -- labels and addresses are those of a well-formed store with the same read-only files and of
  -- the outputs of the graph.
  pub Reach-IsSafe :
      (m : Machine T P N R D Z C)
      → IsWellFormed s0.app.labels
      → length s0.app.history ≤ max_history_entries
      → Reach site s0 m
      → IsSafe m
  Reach-IsSafe m well small no_requests = record {
    kept = record {
      token = refl;
      limits = refl;
      labels = Safe-same s0.app.labels well;
      bounded = small;
    };
    fine = tt;
  }
  Reach-IsSafe m well small (later {m = before} r step) =
      Step-IsSafe step (Reach-IsSafe before well small r)
