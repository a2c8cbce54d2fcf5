-- ===== src/Provision.antt =====
-- packages/cli/src/deploy/provision-plan.ts: which nodes a deploy creates, resumes or uses. `load` is
-- the registry read; the locale's order, by which instance types are sorted, is a parameter.
pub mod Sizing
use launch_pad.Prelude.{
  ℕ, ◌+◌, String, Bool, true, false, Option, none, some, List, [], ◌∷◌, or_else, if◌then◌else◌,
  Result, ok, err, ◌>>=◌,
}
use launch_pad.Capacity.{
  NodeArchitecture, InstanceCapacity, SizedType, SmallestTypeOptions, lookup_instance_capacity,
  smallest_instance_type_for,
}
use launch_pad.Registry.{NodeRegistryEntry, NodeRole, NodeState, node_fronts_ingress}
use launch_pad.Candidates.{is_external}

pub record NodeDemand : Type 0 where
  pub node_id : String
  pub architecture : NodeArchitecture
  pub cpu : ℕ
  pub memory : ℕ
  pub surge_cpu : Option ℕ
  pub surge_memory : Option ℕ

-- The fields of a `create` action.
pub record Creation : Type 0 where
  pub node_id : String
  pub role : NodeRole
  pub edge_node_id : Option String
  pub instance_type : String
  pub architecture : NodeArchitecture
  pub capacity : InstanceCapacity

pub data NodeAction : Type 0 where
  use_ready : (node_id : String) (entry : NodeRegistryEntry) → NodeAction
  resume : (node_id : String) (entry : NodeRegistryEntry) → NodeAction
  create : Creation → NodeAction

pub data ProvisionError : Type 0 where
  not_edge_role : (node_id : String) → ProvisionError
  no_such_node : (node_id : String) → ProvisionError
  unknown_edge_type : ProvisionError
  no_type_fits : (node_id : String) (peak_cpu peak_memory : ℕ) → ProvisionError

abbrev pub default_edge_instance_type : String
default_edge_instance_type = "t4g.nano"

abbrev pub is_stopped : NodeState → Bool
is_stopped NodeState.stopped = true
is_stopped _ = false

-- A node that exists: an operator's host is never resumed.
unfoldable pub action_of : String → NodeRegistryEntry → NodeAction
action_of id entry =
    if is_external entry.provisioning
    then use_ready id entry
    else if is_stopped entry.state
    then resume id entry
    else use_ready id entry

unfoldable pub create_edge : String → Option InstanceCapacity → Result ProvisionError NodeAction
create_edge id none = err unknown_edge_type
create_edge id (some capacity) = ok (
    create (record {
      node_id = id;
      role = NodeRole.edge;
      edge_node_id = none;
      instance_type = default_edge_instance_type;
      architecture = capacity.architecture;
      capacity = capacity;
    }))

unfoldable pub plan_edge_action :
    String → Option NodeRegistryEntry → Bool → Result ProvisionError NodeAction
plan_edge_action id none allow_create =
    if allow_create
    then create_edge id (lookup_instance_capacity default_edge_instance_type)
    else err (no_such_node id)
plan_edge_action id (some entry) allow_create =
    if node_fronts_ingress entry.role then ok (action_of id entry) else err (not_edge_role id)

abbrev pub peak_cpu : NodeDemand → ℕ
peak_cpu d = d.cpu + or_else d.surge_cpu 0

abbrev pub peak_memory : NodeDemand → ℕ
peak_memory d = d.memory + or_else d.surge_memory 0

-- The options that the plan passes to `smallestInstanceTypeFor`.
abbrev pub sizing : Option String → NodeArchitecture → SmallestTypeOptions
sizing floor architecture = record {
  reserved_cpu = none;
  reserved_memory = none;
  floor = floor;
  architecture = some architecture;
}

unfoldable pub create_app :
    String → NodeDemand → Option SizedType → Result ProvisionError NodeAction
create_app edge_node_id d none = err (no_type_fits d.node_id (peak_cpu d) (peak_memory d))
create_app edge_node_id d (some sized) = ok (
    create (record {
      node_id = d.node_id;
      role = NodeRole.app;
      edge_node_id = some edge_node_id;
      instance_type = sized.instance_type;
      architecture = sized.capacity.architecture;
      capacity = sized.capacity;
    }))

module _ (locale_before : String → String → Bool) (edge_node_id : String)
    (load : String → Option NodeRegistryEntry) (allow_create : Bool) (floor : Option String) where
  -- One round of the loop, at what `load` answers.
  unfoldable pub plan_demand :
      NodeDemand → Option NodeRegistryEntry → Result ProvisionError NodeAction
  plan_demand d (some entry) = ok (action_of d.node_id entry)
  plan_demand d none =
      if allow_create
      then create_app edge_node_id d (
          smallest_instance_type_for locale_before (peak_cpu d) (peak_memory d)
            (sizing floor d.architecture))
      else err (no_such_node d.node_id)

  unfoldable pub build_provision_plan : List NodeDemand → Result ProvisionError (List NodeAction)
  build_provision_plan [] = ok []
  build_provision_plan (d ∷ ds) = do
    action ← plan_demand d (load d.node_id)
    actions ← build_provision_plan ds
    ok (action ∷ actions)
