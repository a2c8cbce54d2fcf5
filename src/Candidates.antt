-- ===== src/Candidates.antt =====
-- packages/cli/src/deploy/candidate-nodes.ts: the planner's view of a cluster. What S3 answers for
-- each listed node, and whether its heartbeat is fresh, are inputs.
pub mod Admission
use launch_pad.Prelude.{
  ◌*◌, min, String, Bool, true, false, not, ◌&&◌, Option, none, some, List, [], ◌∷◌, map, Dict, put,
  str_eq, filter, sum_from, max_from, if◌then◌else◌, ◌++◌,
}
use launch_pad.Capacity.{CapacityServiceDemand, surge_cpu_of, surge_memory_of}
use launch_pad.Service.{ServiceConfig}
use launch_pad.Registry.{
  NodeRegistryEntry, NodeState, Provisioning, allocatable_cpu, allocatable_memory,
  node_hosts_containers,
}
use launch_pad.Placement.{CandidateNode}

unfoldable pub demand_of : ServiceConfig → CapacityServiceDemand
demand_of s =
    let surge = min s.rollout.max_surge s.replicas in
    record {
      project = s.project;
      service = s.service;
      cpu = s.cpu * s.replicas;
      memory = s.memory * s.replicas;
      surge_cpu = some (s.cpu * surge);
      surge_memory = some (s.memory * surge);
    }

unfoldable pub demands_of : List ServiceConfig → List CapacityServiceDemand
unfolding demand_of
demands_of services = map demand_of services

pub record CandidateNodes : Type 0 where
  pub nodes : Dict NodeRegistryEntry
  pub cluster_app_node_ids : List String
  pub candidate_nodes : List CandidateNode

-- One id of `listNodeIds`, with what the reads of its documents return.
pub record NodeDocs : Type 0 where
  pub id : String
  pub entry : Option NodeRegistryEntry
  pub fresh_heartbeat : Bool
  pub desired : Option (List ServiceConfig)

abbrev pub is_external : Provisioning → Bool
is_external Provisioning.ec2 = false
is_external Provisioning.external = true

abbrev pub is_up : NodeState → Bool
is_up NodeState.ready = true
is_up NodeState.provisioning = true
is_up _ = false

-- The three `continue`s of the loop.
unfoldable pub is_schedulable : NodeRegistryEntry → Bool → Bool
is_schedulable entry fresh =
    if not (node_hosts_containers entry.role)
    then false
    else if is_external entry.provisioning && not (is_up entry.state)
    then false
    else not (is_external entry.provisioning && not fresh)

-- What other projects run on a node.
unfoldable pub others_on : String → Option (List ServiceConfig) → List ServiceConfig
others_on owner none = []
others_on owner (some existing) = filter (λ s. not (str_eq s.project owner)) existing

unfoldable pub candidate_of :
    String → List CapacityServiceDemand → NodeRegistryEntry → CandidateNode
candidate_of id committed entry = record {
  node_id = id;
  architecture = entry.architecture;
  allocatable_cpu = allocatable_cpu entry;
  allocatable_memory = allocatable_memory entry;
  steady_cpu = sum_from (λ s. s.cpu) 0 committed;
  steady_memory = sum_from (λ s. s.memory) 0 committed;
  max_surge_cpu = max_from surge_cpu_of 0 committed;
  max_surge_memory = max_from surge_memory_of 0 committed;
}

-- One round of the loop.
unfoldable pub add_candidate : String → Bool → NodeDocs → CandidateNodes → CandidateNodes
add_candidate owner needs_snapshot docs acc = elim docs.entry [
  | none ↦ acc
  | some entry ↦
      let nodes = put docs.id entry acc.nodes in
      if is_schedulable entry docs.fresh_heartbeat
      then (record {
        nodes = nodes;
        cluster_app_node_ids = acc.cluster_app_node_ids ++ docs.id ∷ [];
        candidate_nodes =
            acc.candidate_nodes
            ++ candidate_of docs.id
                (if needs_snapshot then demands_of (others_on owner docs.desired) else []) entry
              ∷ [];
      })
      else record acc { nodes = nodes }
]

unfoldable pub build_from : String → Bool → List NodeDocs → CandidateNodes → CandidateNodes
build_from owner needs_snapshot [] acc = acc
build_from owner needs_snapshot (docs ∷ rest) acc =
    build_from owner needs_snapshot rest (add_candidate owner needs_snapshot docs acc)

unfoldable pub build_candidate_nodes : String → Bool → List NodeDocs → CandidateNodes
build_candidate_nodes owner needs_snapshot listed =
    build_from owner needs_snapshot listed
      (record { nodes = []; cluster_app_node_ids = []; candidate_nodes = [] })
