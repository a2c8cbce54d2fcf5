-- ===== src/Tests/Pool.antt =====
-- A pool of two cold nodes, a routing table of two shards, a plan that creates a node, and a rebalance.
use launch_pad.Prelude.{
  ℕ, ◌+◌, ◌/◌, max, String, true, false, ◌≡◌, refl, Option, none, some, List, [], ◌∷◌, ok, get,
  or_else, contains, str_lt, leb, ltb, ◌==◌, str_eq, if◌then◌else◌,
}
use launch_pad.Prelude.Int.{pos}
use launch_pad.Capacity.{arm64, lookup_instance_capacity, smallest_instance_type_for}
use launch_pad.Registry.{NodeRole, NodeRegistryEntry}
use launch_pad.Autoscale.{Percents, AutoscalePolicy, AutoscaleNodeObservation, plan_autoscale}
use launch_pad.Autoscale.Laws.{plan_autoscale-Outcome}
use launch_pad.Autoscale.ScaleOut.{PoolNode}
use launch_pad.Edge.{
  UpstreamShard, build_edge_backends_from_shards, build_edge_backends_from_shards-routes, routes,
}
use launch_pad.Provision.{NodeDemand, build_provision_plan, NodeAction}
use launch_pad.Provision.Sizing.{build_provision_plan-ArePlanned, ArePlanned}
use launch_pad.Tests.Placement.{entry_of}
use launch_pad.Prelude.{Dict}
use launch_pad.Rebalance.{ServicePlacement, diff_placement, vacated_nodes-diff_placement}

abbrev whole_percents : Percents
whole_percents = record {
  Num = ℕ;
  nothing = 0;
  plus = λ x y. x + y;
  share = λ x n. x / n;
  reaches = λ x y. leb y x;
  is_below = λ x y. ltb x y;
  greatest = λ x y. max x y;
  is_less = λ x y. ltb x y;
  is_same = λ x y. x == y;
}

abbrev policy : AutoscalePolicy whole_percents
policy = record {
  min_nodes = 1;
  max_nodes = 3;
  scale_out_percent = 80;
  scale_in_percent = 30;
  cooldown_seconds = 300;
  last_scale_at = none;
}

abbrev cold_node : String → ℕ → AutoscaleNodeObservation whole_percents
cold_node id cpu = record {
  node_id = id;
  role = NodeRole.app;
  state = "ready";
  protected = false;
  provisioning = none;
  cpu_percent = some cpu;
  memory_percent = some 10;
  reserved = some (record {
    steady_cpu = 100;
    steady_memory = 100;
    surge_cpu = 50;
    surge_memory = 50;
    allocatable_cpu = pos 1000;
    allocatable_memory = pos 1000;
  });
}

plan_autoscale-Outcome_example :
    launch_pad.Autoscale.Laws.Outcome whole_percents
      (λ s. none)
      str_lt
      policy
      (cold_node "a" 20 ∷ cold_node "b" 5 ∷ [])
      (pos 0)
      (plan_autoscale whole_percents
        (λ s. none)
        str_lt
        policy
        (cold_node "a" 20 ∷ cold_node "b" 5 ∷ [])
        (pos 0))
plan_autoscale-Outcome_example =
    plan_autoscale-Outcome whole_percents (λ s. none) str_lt policy
      (cold_node "a" 20 ∷ cold_node "b" 5 ∷ []) (pos 0)

abbrev two_pool : List PoolNode
two_pool =
    record { node_id = "a"; instance_type = "t4g.small"; architecture = some arm64 }
    ∷ record { node_id = "b"; instance_type = "m5.large"; architecture = none }
    ∷ []

abbrev shards : List UpstreamShard
shards =
    record {
      node_id = "a";
      private_ip = "10.0.0.1";
      updated_at = "";
      backends = record { domain = "shop"; host_port = 3000; health_path = none } ∷ [];
    }
    ∷ record {
      node_id = "b";
      private_ip = "10.0.0.2";
      updated_at = "";
      backends =
          record { domain = "blog"; host_port = 3001; health_path = none }
          ∷ record { domain = "shop"; host_port = 3002; health_path = none }
          ∷ [];
    }
    ∷ []

build_edge_backends_from_shards-routes_example :
    or_else (get "shop" (build_edge_backends_from_shards shards)) [] ≡ routes "shop" shards
build_edge_backends_from_shards-routes_example =
    build_edge_backends_from_shards-routes shards "shop"

abbrev demand_for : String → NodeDemand
demand_for id = record {
  node_id = id;
  architecture = arm64;
  cpu = 512;
  memory = 256;
  surge_cpu = none;
  surge_memory = none;
}

abbrev known : String → Option NodeRegistryEntry
known id = if str_eq id "a" then some (entry_of "a") else none

-- The registered node is used; the other becomes a t4g.micro.
abbrev actions : List NodeAction
actions =
    NodeAction.use_ready "a" (entry_of "a")
    ∷ NodeAction.create (record {
      node_id = "n";
      role = NodeRole.app;
      edge_node_id = some "edge-1";
      instance_type = "t4g.micro";
      architecture = arm64;
      capacity = record { total_cpu = 2048; total_memory = 1024; architecture = arm64 };
    })
    ∷ []

plan_runs :
    build_provision_plan str_lt "edge-1" known true none (demand_for "a" ∷ demand_for "n" ∷ [])
    ≡ ok actions
unfolding build_provision_plan launch_pad.Provision.plan_demand launch_pad.Provision.action_of
    launch_pad.Provision.create_app smallest_instance_type_for
    launch_pad.Capacity.lookup_instance_capacity launch_pad.Capacity.raw_to_capacity
    launch_pad.Capacity.to_candidates launch_pad.Capacity.is_candidate
    launch_pad.Capacity.target_architecture launch_pad.Capacity.fits_demand
    launch_pad.Capacity.cheaper launch_pad.Capacity.family_rank launch_pad.Prelude.Sort.sort
    launch_pad.Prelude.Sort.insert_sorted
plan_runs = refl

build_provision_plan-ArePlanned_example :
    ArePlanned known (demand_for "a" ∷ demand_for "n" ∷ []) actions
build_provision_plan-ArePlanned_example =
    build_provision_plan-ArePlanned str_lt "edge-1" known true none
      (demand_for "a" ∷ demand_for "n" ∷ []) plan_runs

abbrev placed : Dict ℕ → List ServicePlacement
placed by_node = record { service = "web"; by_node = by_node } ∷ []

-- "a" keeps a replica and "b" none.
vacated_nodes-diff_placement_example :
    contains "b"
      (diff_placement str_lt str_lt
        (placed (("a", 1) ∷ ("b", 2) ∷ []))
        (placed (("a", 3) ∷ ("b", 0) ∷ []))).vacated_nodes
    ≡ true
vacated_nodes-diff_placement_example =
    vacated_nodes-diff_placement str_lt str_lt (placed (("a", 1) ∷ ("b", 2) ∷ []))
      (placed (("a", 3) ∷ ("b", 0) ∷ [])) "b"
