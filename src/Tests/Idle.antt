-- ===== src/Tests/Idle.antt =====
-- A paused node, an edge without routes, and a node with work.
use launch_pad.Prelude.{
  ℕ, ◌*◌, String, Option, none, some, List, [], ◌∷◌, ◌≡◌, refl, str_lt, str_eq, any, map, ◌&&◌,
  if◌then◌else◌,
}
use launch_pad.Prelude.Sort.{sort, insert_sorted}
use launch_pad.Registry.{NodeRole, NodeState, app, edge, ready, stopped}
use launch_pad.IdleNodes.{
  IdleNodeInput, IdleRecommendation, default_min_idle_days, idle_days_since, recommendation,
  visit_paused, visit_ready, visit_idle, idle_from, more_idle, recommend_idle_nodes,
}
use launch_pad.IdleNodes.Order.{AreDescending}
use launch_pad.IdleNodes.Exact.{is_wasteful, recommend_idle_nodes-exact}

abbrev parse_date : String → Option ℕ
parse_date iso = if str_eq iso "t0" then some 0 else none

abbrev estimate : String → Option ℕ
estimate instance_type = some 12

abbrev node : String → NodeRole → NodeState → ℕ → Option ℕ → IdleNodeInput
node id role state services routes = record {
  node_id = id;
  role = role;
  instance_type = "t4g.small";
  state = state;
  created_at = "t0";
  last_seen = none;
  desired_services = services;
  edge_routes = routes;
}

abbrev fleet : List IdleNodeInput
fleet =
    node "a" app stopped 0 none
    ∷ node "b" edge ready 0 (some 0)
    ∷ node "c" app ready 2 none
    ∷ node "d" edge ready 0 none
    ∷ []

flagged :
    map
      (λ r. r.node_id)
      (recommend_idle_nodes parse_date estimate (86400000 * 9) default_min_idle_days str_lt fleet)
    ≡ "a" ∷ "b" ∷ []
unfolding recommend_idle_nodes idle_from visit_idle visit_paused visit_ready recommendation
    idle_days_since more_idle sort insert_sorted
flagged = refl

recommend_idle_nodes-exact_example :
    ((id : String)
      → any
          (λ (r : IdleRecommendation ℕ). str_eq r.node_id id)
          (recommend_idle_nodes parse_date estimate
            (86400000 * 9)
            default_min_idle_days
            str_lt
            fleet)
        ≡ any
            (λ n.
              str_eq n.node_id id
              && is_wasteful parse_date estimate (86400000 * 9) default_min_idle_days n)
            fleet)
    × AreDescending
        (recommend_idle_nodes parse_date estimate (86400000 * 9) default_min_idle_days str_lt fleet)
recommend_idle_nodes-exact_example =
    recommend_idle_nodes-exact parse_date estimate (86400000 * 9) default_min_idle_days str_lt fleet
