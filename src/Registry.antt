-- ===== src/Registry.antt =====
-- packages/shared/src/registry.ts, architecture.ts and node-role.ts: the registry entry of a node.
use launch_pad.Prelude.{ℕ, String, Bool, true, false, Option}
use launch_pad.Prelude.Int.{ℤ, sub_ℕ}
use launch_pad.Capacity.{NodeArchitecture}

pub data NodeState : Type 0 where
  provisioning ready stopped terminating terminated : NodeState

pub data NodeRole : Type 0 where
  app edge both : NodeRole

pub data NodeAgentType : Type 0 where
  ts rust : NodeAgentType

pub data Provisioning : Type 0 where
  ec2 external : Provisioning

pub record NodeRegistryEntry : Type 0 where
  pub node_id : String
  pub cluster_id : String
  pub instance_id : Option String
  pub instance_type : String
  pub architecture : NodeArchitecture
  pub region : String
  pub availability_zone : Option String
  pub role : NodeRole
  pub private_ip : Option String
  pub total_cpu : ℕ
  pub total_memory : ℕ
  pub reserved_cpu : ℕ
  pub reserved_memory : ℕ
  pub public_ip : Option String
  pub eip_allocation_id : Option String
  pub security_group_id : Option String
  pub iam_instance_profile : Option String
  pub provisioning : Provisioning
  pub advertise_ip : Option String
  pub iam_user_name : Option String
  pub agent_id : String
  pub agent_version : Option String
  pub agent_type : NodeAgentType
  pub created_at : String
  pub created_by : String
  pub state : NodeState

unfoldable pub allocatable_cpu : NodeRegistryEntry → ℤ
allocatable_cpu node = sub_ℕ node.total_cpu node.reserved_cpu

unfoldable pub allocatable_memory : NodeRegistryEntry → ℤ
allocatable_memory node = sub_ℕ node.total_memory node.reserved_memory

unfoldable pub node_hosts_containers : NodeRole → Bool
node_hosts_containers app = true
node_hosts_containers edge = false
node_hosts_containers both = true

unfoldable pub node_fronts_ingress : NodeRole → Bool
node_fronts_ingress app = false
node_fronts_ingress edge = true
node_fronts_ingress both = true

unfoldable pub node_uses_elastic_ip : NodeRole → Bool
node_uses_elastic_ip app = false
node_uses_elastic_ip edge = true
node_uses_elastic_ip both = true
