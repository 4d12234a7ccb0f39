-- ===== src/Server/Limits.antt =====
-- crates/cory/src/server/limits.rs, and the limits of crates/cory/src/server/graph.rs, get_graph.
use cory.Base.{ℕ, min, Option, none, some, ◌++◌, ltb, nat_beq, if◌then◌else◌, ◌≤◌, ◌≡◌, refl, arith}
use cory.Base.Text.{Text, text, decimal}
use cory.Types.{GraphLimits}
use cory.Server.{AppError, Reply, ok, err}

abbrev pub hard_max_depth : ℕ
hard_max_depth = 1000

abbrev pub hard_max_nodes : ℕ
hard_max_nodes = 50000

abbrev pub hard_max_edges : ℕ
hard_max_edges = 200000

pub record LimitsResponse : Type 0 where
  pub hard_depth : ℕ
  pub configured_default_depth : ℕ
  pub effective_default_depth : ℕ
  pub hard_nodes : ℕ
  pub configured_default_nodes : ℕ
  pub effective_default_nodes : ℕ
  pub hard_edges : ℕ
  pub configured_default_edges : ℕ
  pub effective_default_edges : ℕ

unfoldable pub get_limits : GraphLimits → LimitsResponse
get_limits default_limits = record {
  hard_depth = hard_max_depth;
  configured_default_depth = default_limits.max_depth;
  effective_default_depth = min default_limits.max_depth hard_max_depth;
  hard_nodes = hard_max_nodes;
  configured_default_nodes = default_limits.max_nodes;
  effective_default_nodes = min default_limits.max_nodes hard_max_nodes;
  hard_edges = hard_max_edges;
  configured_default_edges = default_limits.max_edges;
  effective_default_edges = min default_limits.max_edges hard_max_edges;
}

pub record GraphQuery : Type 0 where
  pub max_depth : Option ℕ
  pub max_nodes : Option ℕ
  pub max_edges : Option ℕ

unfoldable pub validate_limit_bounds : Text → Option ℕ → ℕ → Reply (Unit {0})
validate_limit_bounds field none max = ok tt
validate_limit_bounds field (some limit) max =
    if nat_beq limit 0
    then err (AppError.bad_request (field ++ text " must be at least 1"))
    else if ltb max limit
    then err (AppError.bad_request (field ++ text " must be at most " ++ decimal max))
    else ok tt

abbrev pub unwrap_or : Option ℕ → ℕ → ℕ
unwrap_or none default = default
unwrap_or (some n) default = n

-- The limits that get_graph passes on.
unfoldable pub limits_of : GraphQuery → GraphLimits → GraphLimits
limits_of query default_limits = record {
  max_depth = min (unwrap_or query.max_depth default_limits.max_depth) hard_max_depth;
  max_nodes = min (unwrap_or query.max_nodes default_limits.max_nodes) hard_max_nodes;
  max_edges = min (unwrap_or query.max_edges default_limits.max_edges) hard_max_edges;
}

abbrev and_then : Reply (Unit {0}) → Reply (Unit {0}) → Reply (Unit {0})
and_then (err e) next = err e
and_then (ok u) next = next

-- The three checks of the query, in their order.
unfoldable pub validate_query : GraphQuery → GraphLimits → Reply (Unit {0})
validate_query query default_limits =
    and_then
      (validate_limit_bounds (text "max_depth") query.max_depth
        (min default_limits.max_depth hard_max_depth))
      (and_then
        (validate_limit_bounds (text "max_nodes") query.max_nodes
          (min default_limits.max_nodes hard_max_nodes))
        (validate_limit_bounds (text "max_edges") query.max_edges
          (min default_limits.max_edges hard_max_edges)))

-- Limits that the server's own allow.
pub record Allowed (default_limits lim : GraphLimits) : Type 0 where
  pub depth : lim.max_depth ≤ min default_limits.max_depth hard_max_depth
  pub nodes : lim.max_nodes ≤ min default_limits.max_nodes hard_max_nodes
  pub edges : lim.max_edges ≤ min default_limits.max_edges hard_max_edges

validated :
    (field : Text) (q : Option ℕ) (max hard default : ℕ)
    → validate_limit_bounds field q (min default hard) ≡ ok tt
    → min (unwrap_or q default) hard ≤ min default hard
unfolding validate_limit_bounds
validated field none max hard default h = omega arith
validated field (some limit) max hard default h = ground arith

both_ok : (a b : Reply (Unit {0})) → and_then a b ≡ ok tt → (a ≡ ok tt) × (b ≡ ok tt)
both_ok (ok u) b h = (refl, h)
both_ok (err e) b h = cc

-- Where the checks of a query pass, the limits that get_graph gives to build_ancestry are at most the
-- server's configured ones and its hard ceilings.
pub limits_of-Allowed :
    (query : GraphQuery) (default_limits : GraphLimits)
    → validate_query query default_limits ≡ ok tt
    → Allowed default_limits (limits_of query default_limits)
unfolding validate_query limits_of
limits_of-Allowed query default_limits h =
    let (depth, others) = both_ok _ _ h in
    let (nodes, edges) = both_ok _ _ others in
    record {
      depth = validated _ query.max_depth 0 hard_max_depth default_limits.max_depth depth;
      nodes = validated _ query.max_nodes 0 hard_max_nodes default_limits.max_nodes nodes;
      edges = validated _ query.max_edges 0 hard_max_edges default_limits.max_edges edges;
    }
