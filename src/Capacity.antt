-- ===== src/Capacity.antt =====
-- packages/shared/src/capacity.ts: vCPU shares and MB, instance types, and the admission check.
-- `localeCompare` on instance types is a parameter.
pub mod Check
use launch_pad.Prelude.{
  ℕ, ◌+◌, ◌*◌, String, Bool, true, ◌&&◌, Option, none, some, List, [], ◌∷◌, Dict, get, or_else, leb,
  ltb, ◌==◌, if◌then◌else◌, sum_from, max_from, filter, find?,
}
use launch_pad.Prelude.Int.{ℤ, pos, ◌-ℤ◌, sub_ℕ, leb_ℤ}
use launch_pad.Prelude.Sort.{sort}
use text.Mathlib.Text.{starts_with}

pub data NodeArchitecture : Type 0 where
  x86_64 arm64 : NodeArchitecture

abbrev pub same_architecture : NodeArchitecture → NodeArchitecture → Bool
same_architecture x86_64 x86_64 = true
same_architecture arm64 arm64 = true
same_architecture _ _ = Bool.false

abbrev pub cpu_shares_per_vcpu : ℕ
cpu_shares_per_vcpu = 1024

abbrev pub default_reserved_cpu : ℕ
default_reserved_cpu = 256

abbrev pub default_reserved_memory : ℕ
default_reserved_memory = 512

pub record RawInstanceCapacity : Type 0 where
  pub vcpu : ℕ
  pub memory_mib : ℕ
  pub architecture : NodeArchitecture

pub record InstanceCapacity : Type 0 where
  pub total_cpu : ℕ
  pub total_memory : ℕ
  pub architecture : NodeArchitecture

abbrev raw : ℕ → ℕ → NodeArchitecture → RawInstanceCapacity
raw v m a = record { vcpu = v; memory_mib = m; architecture = a }

abbrev pub instance_capacity_table : Dict RawInstanceCapacity
instance_capacity_table =
    ("t4g.nano", raw 2 512 arm64)
    ∷ ("t4g.micro", raw 2 1024 arm64)
    ∷ ("t4g.small", raw 2 2048 arm64)
    ∷ ("t4g.medium", raw 2 4096 arm64)
    ∷ ("t4g.large", raw 2 8192 arm64)
    ∷ ("t4g.xlarge", raw 4 16384 arm64)
    ∷ ("t3.nano", raw 2 512 x86_64)
    ∷ ("t3.micro", raw 2 1024 x86_64)
    ∷ ("t3.small", raw 2 2048 x86_64)
    ∷ ("t3.medium", raw 2 4096 x86_64)
    ∷ ("t3.large", raw 2 8192 x86_64)
    ∷ ("t3.xlarge", raw 4 16384 x86_64)
    ∷ ("t3a.micro", raw 2 1024 x86_64)
    ∷ ("t3a.small", raw 2 2048 x86_64)
    ∷ ("t3a.medium", raw 2 4096 x86_64)
    ∷ ("t3a.large", raw 2 8192 x86_64)
    ∷ ("t2.micro", raw 1 1024 x86_64)
    ∷ ("t2.small", raw 1 2048 x86_64)
    ∷ ("t2.medium", raw 2 4096 x86_64)
    ∷ ("m5.large", raw 2 8192 x86_64)
    ∷ ("m5.xlarge", raw 4 16384 x86_64)
    ∷ ("m6i.large", raw 2 8192 x86_64)
    ∷ ("m6i.xlarge", raw 4 16384 x86_64)
    ∷ ("c5.large", raw 2 4096 x86_64)
    ∷ ("c5.xlarge", raw 4 8192 x86_64)
    ∷ []

unfoldable pub raw_to_capacity : RawInstanceCapacity → InstanceCapacity
raw_to_capacity r = record {
  total_cpu = r.vcpu * cpu_shares_per_vcpu;
  total_memory = r.memory_mib;
  architecture = r.architecture;
}

unfoldable pub lookup_instance_capacity : String → Option InstanceCapacity
lookup_instance_capacity instance_type = elim (get instance_type instance_capacity_table) [
  | none ↦ none
  | some r ↦ some (raw_to_capacity r)
]

pub record CapacityServiceDemand : Type 0 where
  pub project : String
  pub service : String
  pub cpu : ℕ
  pub memory : ℕ
  pub surge_cpu : Option ℕ
  pub surge_memory : Option ℕ

pub record CapacityCheckInput : Type 0 where
  pub total_cpu : ℕ
  pub total_memory : ℕ
  pub reserved_cpu : ℕ
  pub reserved_memory : ℕ
  pub services : List CapacityServiceDemand

pub record CapacityCheckResult : Type 0 where
  pub ok : Bool
  pub allocatable_cpu : ℤ
  pub allocatable_memory : ℤ
  pub used_cpu : ℕ
  pub used_memory : ℕ
  pub steady_cpu : ℕ
  pub steady_memory : ℕ
  pub surge_cpu : ℕ
  pub surge_memory : ℕ
  pub cpu_over_by : ℤ
  pub memory_over_by : ℤ

abbrev pub surge_cpu_of : CapacityServiceDemand → ℕ
surge_cpu_of s = or_else s.surge_cpu 0

abbrev pub surge_memory_of : CapacityServiceDemand → ℕ
surge_memory_of s = or_else s.surge_memory 0

unfoldable pub check_capacity : CapacityCheckInput → CapacityCheckResult
unfolding ◌-ℤ◌
check_capacity input =
    let allocatable_cpu = sub_ℕ input.total_cpu input.reserved_cpu in
    let allocatable_memory = sub_ℕ input.total_memory input.reserved_memory in
    let steady_cpu = sum_from (λ s. s.cpu) 0 input.services in
    let steady_memory = sum_from (λ s. s.memory) 0 input.services in
    let surge_cpu = max_from surge_cpu_of 0 input.services in
    let surge_memory = max_from surge_memory_of 0 input.services in
    let used_cpu = steady_cpu + surge_cpu in
    let used_memory = steady_memory + surge_memory in
    let cpu_over_by = pos used_cpu -ℤ allocatable_cpu in
    let memory_over_by = pos used_memory -ℤ allocatable_memory in
    record {
      ok = leb_ℤ cpu_over_by (pos 0) && leb_ℤ memory_over_by (pos 0);
      allocatable_cpu = allocatable_cpu;
      allocatable_memory = allocatable_memory;
      used_cpu = used_cpu;
      used_memory = used_memory;
      steady_cpu = steady_cpu;
      steady_memory = steady_memory;
      surge_cpu = surge_cpu;
      surge_memory = surge_memory;
      cpu_over_by = cpu_over_by;
      memory_over_by = memory_over_by;
    }

pub record SmallestTypeOptions : Type 0 where
  pub reserved_cpu : Option ℕ
  pub reserved_memory : Option ℕ
  pub floor : Option String
  pub architecture : Option NodeArchitecture

unfoldable pub family_rank : String → ℕ
family_rank instance_type =
    if starts_with instance_type "t4g."
    then 0
    else if starts_with instance_type "t3."
    then 1
    else if starts_with instance_type "t3a."
    then 2
    else if starts_with instance_type "t2."
    then 3
    else 4

pub record SizedType : Type 0 where
  pub instance_type : String
  pub capacity : InstanceCapacity

unfoldable pub to_candidates : Dict RawInstanceCapacity → List SizedType
to_candidates [] = []
to_candidates ((t, r) ∷ m) =
    record { instance_type = t; capacity = raw_to_capacity r } ∷ to_candidates m

-- The two `filter` calls: the architecture, and the floor.
unfoldable pub is_candidate : Option NodeArchitecture → Option InstanceCapacity → SizedType → Bool
is_candidate architecture floor_cap c =
    elim architecture [ none ↦ true | some a ↦ same_architecture c.capacity.architecture a ]
    && elim floor_cap [
      | none ↦ true
      | some f ↦ leb f.total_cpu c.capacity.total_cpu && leb f.total_memory c.capacity.total_memory
    ]

-- `opts.architecture ?? floorCap?.architecture`
unfoldable pub target_architecture :
    Option NodeArchitecture → Option InstanceCapacity → Option NodeArchitecture
target_architecture (some a) floor_cap = some a
target_architecture none none = none
target_architecture none (some f) = some f.architecture

-- The test of the last loop, `total - reserved >= demand`.
unfoldable pub fits_demand : ℕ → ℕ → ℕ → ℕ → SizedType → Bool
fits_demand reserved_cpu reserved_memory cpu_shares memory_mb c =
    leb_ℤ (pos cpu_shares) (sub_ℕ c.capacity.total_cpu reserved_cpu)
    && leb_ℤ (pos memory_mb) (sub_ℕ c.capacity.total_memory reserved_memory)

module _ (locale_before : String → String → Bool) where
  -- The comparator of `sort`: is its value negative?
  unfoldable pub cheaper : SizedType → SizedType → Bool
  cheaper a b =
      if a.capacity.total_cpu == b.capacity.total_cpu
      then if a.capacity.total_memory == b.capacity.total_memory
        then if family_rank a.instance_type == family_rank b.instance_type
          then locale_before a.instance_type b.instance_type
          else ltb (family_rank a.instance_type) (family_rank b.instance_type)
        else ltb a.capacity.total_memory b.capacity.total_memory
      else ltb a.capacity.total_cpu b.capacity.total_cpu

  unfoldable pub smallest_instance_type_for : ℕ → ℕ → SmallestTypeOptions → Option SizedType
  smallest_instance_type_for cpu_shares memory_mb opts =
      let reserved_cpu = or_else opts.reserved_cpu default_reserved_cpu in
      let reserved_memory = or_else opts.reserved_memory default_reserved_memory in
      let floor_cap = lookup_instance_capacity (or_else opts.floor "t4g.micro") in
      let target = target_architecture opts.architecture floor_cap in
      let candidates =
        sort cheaper
          (filter (is_candidate target floor_cap) (to_candidates instance_capacity_table)) in
      find? (fits_demand reserved_cpu reserved_memory cpu_shares memory_mb) candidates
