-- ===== src/Autoscale/ScaleOut/Largest.antt =====
-- The type that a scale-out chooses.
use launch_pad.Prelude.Occurs.{Occurs}
use launch_pad.Prelude.{◌≤◌, ◌<◌, ◌⊎◌, String, true, false, ◌≡◌, some, List, or_else}
use launch_pad.Capacity.{
  NodeArchitecture, x86_64, InstanceCapacity, lookup_instance_capacity, same_architecture,
}
use launch_pad.Autoscale.ScaleOut.{PoolNode, Best, is_larger, pool_architecture, default_type}

-- No node of the architecture that the table knows is larger than `best`.
abbrev pub IsCovered : NodeArchitecture → InstanceCapacity → PoolNode → Type 0
IsCovered architecture best n =
    (cap : InstanceCapacity)
    → same_architecture (or_else n.architecture x86_64) architecture ≡ true
    → lookup_instance_capacity n.instance_type ≡ some cap
    → is_larger cap best ≡ false

-- The choice after a step: a tabled type that is not smaller than `before`, and covers `Q`.
record IsChoice (before : InstanceCapacity) (best : Best) (Covers : InstanceCapacity → Type 0)
    : Type 0 where
  cap : InstanceCapacity
  recorded : best.capacity ≡ some cap
  tabled : lookup_instance_capacity best.instance_type ≡ some cap
  grown : is_larger before cap ≡ false
  covers : Covers cap

abbrev IsTabled : InstanceCapacity → Best → Type 0
IsTabled cap best =
    (best.capacity ≡ some cap) × (lookup_instance_capacity best.instance_type ≡ some cap)

-- By CPU, then by memory.
abbrev pub IsAtMost : InstanceCapacity → InstanceCapacity → Type 0
IsAtMost a b =
    (a.total_cpu < b.total_cpu) ⊎ ((a.total_cpu ≡ b.total_cpu) × (a.total_memory ≤ b.total_memory))

-- A node of the pool that counts, as x86 where it does not say: of the architecture, with a known type.
abbrev pub Offers : NodeArchitecture → PoolNode → InstanceCapacity → Type 0
Offers architecture n cap =
    (same_architecture (or_else n.architecture x86_64) architecture ≡ true)
    × (lookup_instance_capacity n.instance_type ≡ some cap)

-- The type that a pool calls for.
pub record IsLargest (pool : List PoolNode) (instance_type : String) : Type 0 where
  pub cap : InstanceCapacity
  pub typed : lookup_instance_capacity instance_type ≡ some cap
  pub floor : InstanceCapacity
  pub default : lookup_instance_capacity (default_type (pool_architecture pool)) ≡ some floor
  pub above_default : IsAtMost floor cap
  pub largest :
      (n : PoolNode) (other : InstanceCapacity)
      → Occurs n pool
      → Offers (pool_architecture pool) n other
      → IsAtMost other cap
  pub origin :
      (instance_type ≡ default_type (pool_architecture pool))
      ⊎ ((n : PoolNode) × Occurs n pool × (instance_type ≡ n.instance_type))
