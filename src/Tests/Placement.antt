-- ===== src/Tests/Placement.antt =====
-- Plans for two nodes and two services: a web service and a database with a volume.
use launch_pad.Placement.Tallies.{node_ids}
use launch_pad.Prelude.{
  inl, inr, ℕ, String, true, false, ◌≡◌, refl, ◌⊎◌, none, some, List, [], ◌∷◌, map, Distinct, ok,
  err, ◌++◌, ◌↔◌,
}
use launch_pad.Prelude.Int.{◌-ℤ◌}
use launch_pad.Prelude.Doubles.{thousandths}
use launch_pad.Capacity.{arm64, check_capacity}
use launch_pad.Capacity.Check.{IsAdmitted, check_capacity-ok_iff}
use launch_pad.Prelude.Occurs.{Occurs}
use launch_pad.Registry.{NodeRegistryEntry, allocatable_cpu, allocatable_memory}
use launch_pad.Candidates.{demands_of, candidate_of, demand_of}
use launch_pad.Candidates.Admission.{plan_cluster_placement-admitted, admission_input, find_node}
use launch_pad.Placement.{
  CandidateNode, ClusterServiceInput, ClusterPlanInput, ClusterServicePlan, new_tally,
  plan_cluster_placement, place, capacity_placement, sticky_full, fits, plan_services, find_tally,
  place_volume_service, place_at, place_sticky, place_fresh, pack_by_capacity, pack_rounds,
  best_node, best_from, consider, replaces, score_after, free_cpu_after, free_memory_after, commit,
  commit_at, commit_one, placements_of,
}
use launch_pad.Placement.Load.{demands_on}
use launch_pad.Placement.Complete.{
  Covers, plan_cluster_placement-Covers, plan_cluster_placement-sticky, place-IsStuck,
}
use launch_pad.Placement.Pack.{IsStuck}

abbrev pub entry_of : String → NodeRegistryEntry
entry_of id = record {
  node_id = id;
  cluster_id = "default";
  instance_id = none;
  instance_type = "t4g.medium";
  architecture = arm64;
  region = "us-east-1";
  availability_zone = none;
  role = launch_pad.Registry.NodeRole.app;
  private_ip = none;
  total_cpu = 2048;
  total_memory = 4096;
  reserved_cpu = 256;
  reserved_memory = 512;
  public_ip = none;
  eip_allocation_id = none;
  security_group_id = none;
  iam_instance_profile = none;
  provisioning = launch_pad.Registry.Provisioning.ec2;
  advertise_ip = none;
  iam_user_name = none;
  agent_id = "agent";
  agent_version = none;
  agent_type = launch_pad.Registry.NodeAgentType.rust;
  created_at = "";
  created_by = "";
  state = launch_pad.Registry.NodeState.ready;
}

abbrev pub node_of : String → CandidateNode
node_of id = candidate_of id (demands_of []) (entry_of id)

abbrev pub web : ℕ → ClusterServiceInput
web replicas = record {
  name = "web";
  replicas = replicas;
  cpu = 512;
  memory = 256;
  max_surge = 1;
  is_web = true;
  has_volumes = false;
  sticky_node_id = none;
}

abbrev pub db : ℕ → ClusterServiceInput
db cpu = record {
  name = "db";
  replicas = 1;
  cpu = cpu;
  memory = 512;
  max_surge = 1;
  is_web = false;
  has_volumes = true;
  sticky_node_id = some "b";
}

abbrev pub two_nodes : List CandidateNode
two_nodes = node_of "a" ∷ node_of "b" ∷ []

abbrev pub two_services : ClusterPlanInput
two_services = record { cluster_id = "c"; nodes = two_nodes; services = db 256 ∷ web 3 ∷ [] }

abbrev planned : List ClusterServicePlan
planned =
    record {
      service = "db";
      placements = record { node_id = "b"; replicas = 1 } ∷ [];
      pool = "a" ∷ "b" ∷ [];
    }
    ∷ record {
      service = "web";
      placements =
          record { node_id = "a"; replicas = 2 } ∷ record { node_id = "b"; replicas = 1 } ∷ [];
      pool = "a" ∷ "b" ∷ [];
    }
    ∷ []

-- What a run of the planner computes through.
planner : Unit {0}
unfolding plan_cluster_placement plan_services place place_volume_service place_at place_sticky
    place_fresh find_tally new_tally candidate_of fits demands_of demand_of allocatable_cpu
    allocatable_memory pack_by_capacity pack_rounds best_node best_from consider replaces
    score_after free_cpu_after free_memory_after commit commit_at commit_one placements_of ◌-ℤ◌
planner = tt

plan_runs : plan_cluster_placement thousandths two_services ≡ ok planned
unfolding planner
plan_runs = refl

-- The database does not move to "a", which has room, and fails.
sticky_fails :
    plan_cluster_placement thousandths (record two_services { services = web 2 ∷ db 1500 ∷ [] })
    ≡ err (sticky_full "db" "b")
unfolding planner
sticky_fails = refl

-- Three replicas of web fit two nodes; the fourth has no room.
web_fails : place thousandths (map new_tally two_nodes) (web 5) ≡ err (capacity_placement "web" 5 5)
unfolding planner
web_fails = refl

two_nodes-Distinct : Distinct (map (λ (n : CandidateNode). n.node_id) two_nodes)
unfolding planner
two_nodes-Distinct = (refl, (refl, tt))

new_tally-Distinct : Distinct (node_ids (map new_tally two_nodes))
unfolding planner
new_tally-Distinct = (refl, (refl, tt))

b_there : Occurs "b" (map (λ (n : CandidateNode). n.node_id) two_nodes)
unfolding planner
b_there = inr (inl refl)

found_a : find_node "a" two_nodes ≡ some (candidate_of "a" (demands_of []) (entry_of "a"))
unfolding candidate_of
found_a = refl

found_b : find_tally "b" (map new_tally two_nodes) ≡ some (new_tally (node_of "b"))
unfolding planner
found_b = refl

plan_cluster_placement-admitted_example :
    (demands_on "shop" "a" two_services.services planned ≡ [])
    ⊎ ((check_capacity (
          admission_input
            (entry_of "a")
            (demands_of [] ++ demands_on "shop" "a" two_services.services planned))).ok
        ≡ true)
plan_cluster_placement-admitted_example =
    plan_cluster_placement-admitted thousandths two_services "shop" "a" [] (entry_of "a")
      two_nodes-Distinct found_a plan_runs

plan_cluster_placement-Covers_example : Covers two_services.services planned
plan_cluster_placement-Covers_example =
    plan_cluster_placement-Covers thousandths two_services planned two_nodes-Distinct plan_runs

abbrev db_plan : ClusterServicePlan
db_plan = record {
  service = "db";
  placements = record { node_id = "b"; replicas = 1 } ∷ [];
  pool = "a" ∷ "b" ∷ [];
}

plan_cluster_placement-sticky_example :
    db_plan.placements ≡ record { node_id = "b"; replicas = 1 } ∷ []
plan_cluster_placement-sticky_example =
    plan_cluster_placement-sticky thousandths two_services planned (db 256) db_plan "b"
      two_nodes-Distinct plan_runs (inl (refl, refl)) refl refl b_there

place-IsStuck_example :
    IsStuck thousandths (web 5) (map new_tally two_nodes) 0 (capacity_placement "web" 5 5)
place-IsStuck_example =
    place-IsStuck thousandths (map new_tally two_nodes) (web 5) refl new_tally-Distinct web_fails

check_capacity-ok_iff_example :
    ((check_capacity (admission_input (entry_of "a") [])).ok ≡ true)
    ↔ IsAdmitted (admission_input (entry_of "a") [])
check_capacity-ok_iff_example = check_capacity-ok_iff (admission_input (entry_of "a") [])
