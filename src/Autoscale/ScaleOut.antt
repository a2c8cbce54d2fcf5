-- ===== src/Autoscale/ScaleOut.antt =====
-- `scaleOutNodeSpec` of autoscale.ts: the node that a scale-out creates.
pub mod Largest
use launch_pad.Prelude.{
  String, Bool, true, Option, none, some, List, [], ◌∷◌, ◌&&◌, ◌||◌, or_else, ltb, ◌==◌,
  if◌then◌else◌,
}
use launch_pad.Capacity.{
  NodeArchitecture, arm64, x86_64, InstanceCapacity, lookup_instance_capacity, same_architecture,
}
use launch_pad.Placement.AutoAdd.{NameSupply}

-- One node of the pool, as the caller knows it.
pub record PoolNode : Type 0 where
  pub node_id : String
  pub instance_type : String
  pub architecture : Option NodeArchitecture

pub record ScaleOutNodeSpec : Type 0 where
  pub node_id : String
  pub instance_type : String
  pub architecture : NodeArchitecture
  pub edge_node_id : String

-- The largest type so far, with its capacity where the table knows it.
pub record Best : Type 0 where
  pub instance_type : String
  pub capacity : Option InstanceCapacity

unfoldable pub is_larger : InstanceCapacity → InstanceCapacity → Bool
is_larger cap best =
    ltb best.total_cpu cap.total_cpu
    || (cap.total_cpu == best.total_cpu && ltb best.total_memory cap.total_memory)

-- `!best || …`
unfoldable pub beats : InstanceCapacity → Option InstanceCapacity → Bool
beats cap none = true
beats cap (some best) = is_larger cap best

unfoldable pub pick_at : PoolNode → Option InstanceCapacity → Best → Best
pick_at n none best = best
pick_at n (some cap) best =
    if beats cap best.capacity
    then (record { instance_type = n.instance_type; capacity = some cap })
    else best

unfoldable pub pick_larger : NodeArchitecture → PoolNode → Best → Best
pick_larger architecture n best =
    if same_architecture (or_else n.architecture x86_64) architecture
    then pick_at n (lookup_instance_capacity n.instance_type) best
    else best

unfoldable pub pick_all : NodeArchitecture → List PoolNode → Best → Best
pick_all architecture [] best = best
pick_all architecture (n ∷ ns) best = pick_all architecture ns (pick_larger architecture n best)

-- `input.pool[0]?.architecture ?? "arm64"`
unfoldable pub pool_architecture : List PoolNode → NodeArchitecture
pool_architecture [] = arm64
pool_architecture (n ∷ _) = or_else n.architecture arm64

abbrev pub default_type : NodeArchitecture → String
default_type arm64 = "t4g.micro"
default_type x86_64 = "t3.small"

unfoldable pub best_type : List PoolNode → Best
best_type pool =
    let architecture = pool_architecture pool in
    pick_all architecture pool (record {
      instance_type = default_type architecture;
      capacity = lookup_instance_capacity (default_type architecture);
    })

module _ (names : NameSupply) where
  open names use {Rng, generate, generate_fresh}

  unfoldable pub scale_out_node_spec : List String → List PoolNode → String → Rng → ScaleOutNodeSpec
  scale_out_node_spec existing_node_ids pool default_edge r = record {
    node_id = (generate existing_node_ids r).0;
    instance_type = (best_type pool).instance_type;
    architecture = pool_architecture pool;
    edge_node_id = default_edge;
  }
