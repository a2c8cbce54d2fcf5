-- ===== src/Capacity/Check.antt =====
-- `checkCapacity`: when the answer is ok.
use launch_pad.Prelude.{
  ℕ, ◌+◌, ◌-◌, ◌≤◌, ◌≡◌, refl, true, ◌↔◌, inl, inr, max, Option, none, some, List, [], ◌∷◌, arith,
  sum_from, max_from, le-max_from, Option-cases,
}
use launch_pad.Prelude.Occurs.{Occurs}
use launch_pad.Capacity.{
  CapacityServiceDemand, CapacityCheckInput, check_capacity, surge_cpu_of, surge_memory_of,
}

-- The peak of a set of demands: their sum, and the largest single surge.
abbrev pub peak_cpu : List CapacityServiceDemand → ℕ
peak_cpu ds = sum_from (λ s. s.cpu) 0 ds + max_from surge_cpu_of 0 ds

abbrev pub peak_memory : List CapacityServiceDemand → ℕ
peak_memory ds = sum_from (λ s. s.memory) 0 ds + max_from surge_memory_of 0 ds

-- In the code's own terms.
pub check_capacity-ok_peak :
    (input : CapacityCheckInput)
    → ((check_capacity input).ok ≡ true) ↔ (
        (input.reserved_cpu + peak_cpu input.services ≤ input.total_cpu)
        × (input.reserved_memory + peak_memory input.services ≤ input.total_memory))
unfolding check_capacity
check_capacity-ok_peak input = ground arith

-- What the services of a set hold together.
abbrev pub steady_cpu : List CapacityServiceDemand → ℕ
steady_cpu [] = 0
steady_cpu (s ∷ ss) = s.cpu + steady_cpu ss

abbrev pub steady_memory : List CapacityServiceDemand → ℕ
steady_memory [] = 0
steady_memory (s ∷ ss) = s.memory + steady_memory ss

-- What a rollout holds beside that, where it says so.
abbrev pub surge : Option ℕ → ℕ
surge none = 0
surge (some extra) = extra

-- With what the host reserves and all steady demands, the total has room for the rollout of any one
-- service at a time.
pub record IsAdmitted (input : CapacityCheckInput) : Type 0 where
  pub cpu : input.reserved_cpu + steady_cpu input.services ≤ input.total_cpu
  pub memory : input.reserved_memory + steady_memory input.services ≤ input.total_memory
  pub rollout_cpu :
      (s : CapacityServiceDemand)
      → Occurs s input.services
      → input.reserved_cpu + steady_cpu input.services + surge s.surge_cpu ≤ input.total_cpu
  pub rollout_memory :
      (s : CapacityServiceDemand)
      → Occurs s input.services
      → input.reserved_memory + steady_memory input.services + surge s.surge_memory
        ≤ input.total_memory

sum_from-steady_cpu :
    (acc : ℕ) (ss : List CapacityServiceDemand) → sum_from (λ s. s.cpu) acc ss ≡ acc + steady_cpu ss
sum_from-steady_cpu acc [] = omega arith
sum_from-steady_cpu acc (s ∷ ss) = omega (arith, sum_from-steady_cpu (acc + s.cpu) ss)

sum_from-steady_memory :
    (acc : ℕ) (ss : List CapacityServiceDemand)
    → sum_from (λ s. s.memory) acc ss ≡ acc + steady_memory ss
sum_from-steady_memory acc [] = omega arith
sum_from-steady_memory acc (s ∷ ss) = omega (arith, sum_from-steady_memory (acc + s.memory) ss)

Occurs-max_from :
    (f : CapacityServiceDemand → ℕ) (acc : ℕ) (ss : List CapacityServiceDemand)
    (s : CapacityServiceDemand)
    → Occurs s ss
    → f s ≤ max_from f acc ss
Occurs-max_from f acc [] s o = absurd o
Occurs-max_from f acc (x ∷ ss) s (inl e) = rw e (omega (arith, le-max_from f (max acc (f x)) ss))
Occurs-max_from f acc (x ∷ ss) s (inr o) = Occurs-max_from f (max acc (f x)) ss s o

max_from-le :
    (f : CapacityServiceDemand → ℕ) (acc bound : ℕ) (ss : List CapacityServiceDemand)
    → acc ≤ bound
    → ((s : CapacityServiceDemand) → Occurs s ss → f s ≤ bound)
    → max_from f acc ss ≤ bound
max_from-le f acc bound [] h each = h
max_from-le f acc bound (x ∷ ss) h each =
    max_from-le f (max acc (f x)) bound ss (omega (arith, each x (inl refl)))
      (λ s o. each s (inr o))

surge_cpu_of-surge : (s : CapacityServiceDemand) → surge_cpu_of s ≡ surge s.surge_cpu
surge_cpu_of-surge s = elim (Option-cases s.surge_cpu) [
  | inl e ↦ rw e refl
  | inr (extra, e) ↦ rw e refl
]

surge_memory_of-surge : (s : CapacityServiceDemand) → surge_memory_of s ≡ surge s.surge_memory
surge_memory_of-surge s = elim (Option-cases s.surge_memory) [
  | inl e ↦ rw e refl
  | inr (extra, e) ↦ rw e refl
]

-- A set is admitted exactly where, for CPU and for memory, the total covers what the host reserves
-- and all steady demands, and still does when any one service of the set adds its rollout's surge.
pub check_capacity-ok_iff :
    (input : CapacityCheckInput) → ((check_capacity input).ok ≡ true) ↔ IsAdmitted input
check_capacity-ok_iff input =
    let ss = input.services in
    let cpu_sum = sum_from-steady_cpu 0 ss in
    let memory_sum = sum_from-steady_memory 0 ss in
    (
      λ h.
          let (cpu, memory) = (check_capacity-ok_peak input).0 h in
          record {
            cpu = omega (arith, cpu, cpu_sum);
            memory = omega (arith, memory, memory_sum);
            rollout_cpu = λ s o.
                omega (
                  arith,
                  cpu,
                  cpu_sum,
                  surge_cpu_of-surge s,
                  Occurs-max_from surge_cpu_of 0 ss s o,
                );
            rollout_memory = λ s o. omega (
              arith,
              memory,
              memory_sum,
              surge_memory_of-surge s,
              Occurs-max_from surge_memory_of 0 ss s o,
            );
          },
      λ a.
          let cpu_peak =
            max_from-le surge_cpu_of 0 (input.total_cpu - (input.reserved_cpu + steady_cpu ss)) ss
              (omega arith) (λ s o. omega (arith, a.rollout_cpu s o, surge_cpu_of-surge s)) in
          let memory_peak =
            max_from-le surge_memory_of 0
              (input.total_memory - (input.reserved_memory + steady_memory ss)) ss (omega arith)
              (λ s o. omega (arith, a.rollout_memory s o, surge_memory_of-surge s)) in
          (check_capacity-ok_peak input).1 (
            omega (arith, cpu_peak, cpu_sum, a.cpu),
            omega (arith, memory_peak, memory_sum, a.memory),
          ),
    )
