-- ===== src/IdleNodes.antt =====
-- packages/cli/src/cost/idle.ts: the nodes that cost money without doing work. `Date.parse` (of
-- moments after 1970) and `localeCompare` are parameters, and so is the monthly estimate, which
-- multiplies floating-point prices.
pub mod Exact
pub mod Order
use launch_pad.Prelude.{
  ℕ, ◌-◌, ◌/◌, String, Bool, false, Option, none, some, List, [], ◌∷◌, or_else, ltb, ◌==◌,
  if◌then◌else◌,
}
use launch_pad.Prelude.Sort.{sort}
use launch_pad.Registry.{NodeRole, NodeState, edge, stopped, ready}

abbrev pub day_ms : ℕ
day_ms = 86400000

abbrev pub default_min_idle_days : ℕ
default_min_idle_days = 7

pub data IdleKind : Type 0 where
  paused empty : IdleKind

pub record IdleNodeInput : Type 0 where
  pub node_id : String
  pub role : NodeRole
  pub instance_type : String
  pub state : NodeState
  pub created_at : String
  pub last_seen : Option String
  pub desired_services : ℕ
  pub edge_routes : Option ℕ

pub record IdleRecommendation (Usd : Type 0) : Type 0 where
  pub node_id : String
  pub role : NodeRole
  pub instance_type : String
  pub kind : IdleKind
  pub idle_days : ℕ
  pub monthly_waste_usd : Option Usd

-- An unknown routing is never empty.
abbrev pub is_zero : Option ℕ → Bool
is_zero none = false
is_zero (some n) = n == 0

abbrev pub is_empty_node : IdleNodeInput → Bool
is_empty_node n = elim n.role [ edge ↦ is_zero n.edge_routes | _ ↦ n.desired_services == 0 ]

module _ (parse_date : String → Option ℕ) where
  unfoldable pub idle_days_since : String → ℕ → ℕ
  idle_days_since iso now_ms = elim (parse_date iso) [ none ↦ 0 | some t ↦ (now_ms - t) / day_ms ]

  module _ {Usd : Type 0} (estimate_ec2_monthly : String → Option Usd)
      (now_ms min_idle_days : ℕ) where
    unfoldable pub recommendation :
        IdleNodeInput → IdleKind → ℕ → Option Usd → IdleRecommendation Usd
    recommendation n kind idle_days waste = record {
      node_id = n.node_id;
      role = n.role;
      instance_type = n.instance_type;
      kind = kind;
      idle_days = idle_days;
      monthly_waste_usd = waste;
    }

    -- The body of the loop for a stopped node, and for one that is ready.
    unfoldable pub visit_paused :
        IdleNodeInput → List (IdleRecommendation Usd) → List (IdleRecommendation Usd)
    visit_paused n recs =
        let idle_days = idle_days_since (or_else n.last_seen n.created_at) now_ms in
        if ltb idle_days min_idle_days then recs else recommendation n paused idle_days none ∷ recs

    unfoldable pub visit_ready :
        IdleNodeInput → List (IdleRecommendation Usd) → List (IdleRecommendation Usd)
    visit_ready n recs =
        let idle_days = idle_days_since n.created_at now_ms in
        if is_empty_node n
        then if ltb idle_days min_idle_days
          then recs
          else recommendation n empty idle_days (estimate_ec2_monthly n.instance_type) ∷ recs
        else recs

    unfoldable pub visit_idle :
        IdleNodeInput → List (IdleRecommendation Usd) → List (IdleRecommendation Usd)
    visit_idle n recs = elim n.state [
      | stopped ↦ visit_paused n recs
      | ready ↦ visit_ready n recs
      | _ ↦ recs
    ]

    unfoldable pub idle_from : List IdleNodeInput → List (IdleRecommendation Usd)
    idle_from [] = []
    idle_from (n ∷ ns) = let rest = idle_from ns in visit_idle n rest

    module _ (locale_before : String → String → Bool) where
      -- `b.idleDays - a.idleDays || a.nodeId.localeCompare(b.nodeId)`
      unfoldable pub more_idle : IdleRecommendation Usd → IdleRecommendation Usd → Bool
      more_idle a b =
          if a.idle_days == b.idle_days
          then locale_before a.node_id b.node_id
          else ltb b.idle_days a.idle_days

      unfoldable pub recommend_idle_nodes : List IdleNodeInput → List (IdleRecommendation Usd)
      recommend_idle_nodes nodes = sort more_idle (idle_from nodes)
