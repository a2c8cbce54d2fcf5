-- ===== src/Candidates/Admission.antt =====
-- What the planner accepts passes the admission check that deploy makes before it publishes.
use mathlib.Core.Option
use mathlib.Core.Path.{subst}
use mathlib.Core.List.{append_assoc, append-nil}
use launch_pad.Prelude.{
  ℕ, ◌+◌, ltb, String, true, ◌≡◌, refl, ap, sym, ◌∙◌, ◌⊎◌, inl, inr, Option, some, List, [], ◌∷◌,
  ◌++◌, map, arith, Bool-cases, Distinct, ok, sum_from, max_from, sum_from-append, max_from-append,
  find?, str_eq, ◌≤◌,
}
use launch_pad.Prelude.Int.{pos, leb_ℤ, sub_ℕ}
use launch_pad.Prelude.Doubles.{Doubles}
use launch_pad.Capacity.{
  CapacityServiceDemand, CapacityCheckInput, check_capacity, surge_cpu_of, surge_memory_of,
}
use launch_pad.Capacity.Check.{check_capacity-ok_peak}
use launch_pad.Service.{ServiceConfig}
use launch_pad.Registry.{NodeRegistryEntry, allocatable_cpu, allocatable_memory}
use launch_pad.Placement.{
  CandidateNode, ClusterServiceInput, ClusterServicePlan, ClusterPlanInput, NodeTally, commit_one,
  find_tally, new_tally, plan_cluster_placement,
}
use launch_pad.Placement.Tallies.{
  node_ids, node_ids-new_tally, committed, committed-zero, replicas_on,
}
use launch_pad.Placement.Load.{
  load, demand, demands_on, IsWithin, Run-load, plan_services-Run, demands_on-placed,
  demands_on-absent,
}
use launch_pad.Candidates.{demands_of, candidate_of}

-- A tally that stands for a set of demands.
abbrev Sums : List CapacityServiceDemand → NodeTally → Type 0
Sums ds t =
    (t.steady_cpu ≡ sum_from (λ s. s.cpu) 0 ds)
    × (t.steady_memory ≡ sum_from (λ s. s.memory) 0 ds)
    × (t.max_surge_cpu ≡ max_from surge_cpu_of 0 ds)
    × (t.max_surge_memory ≡ max_from surge_memory_of 0 ds)

committed-Sums :
    (project : String) (s : ClusterServiceInput) (r : ℕ) (t : NodeTally)
    (ds : List CapacityServiceDemand)
    → Sums ds t
    → Sums (ds ++ demand project s r ∷ []) (committed s r t)
unfolding commit_one demand
committed-Sums project s r t ds (a, b, c, e) = (
  rw (sum_from-append, a),
  rw (sum_from-append, b),
  rw (max_from-append, c),
  rw (max_from-append, e),
)

-- Committing a plan adds exactly its demands.
load-Sums :
    (project id : String) (t : NodeTally) (ss : List ClusterServiceInput)
    (plans : List ClusterServicePlan) (ds : List CapacityServiceDemand)
    → Sums ds t
    → Sums (ds ++ demands_on project id ss plans) (load id t ss plans)
      × ((load id t ss plans).node ≡ t.node)
unfolding load demands_on commit_one
load-Sums project id t [] plans ds h = (rw append-nil h, refl)
load-Sums project id t (s ∷ ss) [] ds h = (rw append-nil h, refl)
load-Sums project id t (s ∷ ss) (p ∷ plans) ds h =
    let r = replicas_on id p.placements in
    elim (Bool-cases (ltb 0 r)) [
      | inl e ↦
          let added = ds ++ demand project s r ∷ [] in
          subst
            (λ ds'.
              Sums ds' (load id (committed s r t) ss plans)
              × ((load id (committed s r t) ss plans).node ≡ t.node))
            (append_assoc ds (demand project s r ∷ []) (demands_on project id ss plans)
              ∙ ap (λ l. ds ++ l) (sym (demands_on-placed project id s ss p plans e)))
            (load-Sums project id (committed s r t) ss plans added
              (committed-Sums project s r t ds h))
      | inr e ↦
          let none_here : r ≡ 0 = ground arith in
          let same : committed s r t ≡ t = rw none_here (committed-zero s t) in
          subst
            (λ u.
              Sums (ds ++ demands_on project id (s ∷ ss) (p ∷ plans)) (load id u ss plans)
              × ((load id u ss plans).node ≡ t.node))
            (sym same)
            (rw (demands_on-absent project id s ss p plans e)
              (load-Sums project id t ss plans ds h))
    ]

-- The input of `assertCapacity`.
unfoldable pub admission_input : NodeRegistryEntry → List CapacityServiceDemand → CapacityCheckInput
admission_input node merged = record {
  total_cpu = node.total_cpu;
  total_memory = node.total_memory;
  reserved_cpu = node.reserved_cpu;
  reserved_memory = node.reserved_memory;
  services = merged;
}

abbrev pub find_node : String → List CandidateNode → Option CandidateNode
find_node id nodes = find? (λ n. str_eq n.node_id id) nodes

find_tally-map :
    (id : String) (nodes : List CandidateNode)
    → find_tally id (map new_tally nodes) ≡ Option.map new_tally (find_node id nodes)
unfolding find_tally new_tally
find_tally-map id [] = refl
find_tally-map id (n ∷ nodes) = ground (arith, find_tally-map id nodes)

abbrev pub candidate_ids : List CandidateNode → List String
candidate_ids nodes = map (λ (n : CandidateNode). n.node_id) nodes

within_bound :
    (n total reserved : ℕ) → leb_ℤ (pos n) (sub_ℕ total reserved) ≡ true → reserved + n ≤ total
within_bound n total reserved h = ground arith

module _ (d : Doubles) (input : ClusterPlanInput) (project id : String) where
  within_admitted :
      (others : List ServiceConfig) (entry : NodeRegistryEntry) (ss : List ClusterServiceInput)
      (plans : List ClusterServicePlan)
      → IsWithin (load id (new_tally (candidate_of id (demands_of others) entry)) ss plans)
      → (check_capacity
          (admission_input entry (demands_of others ++ demands_on project id ss plans))).ok
        ≡ true
  unfolding admission_input new_tally candidate_of allocatable_cpu allocatable_memory
  within_admitted others entry ss plans within =
      let t = new_tally (candidate_of id (demands_of others) entry) in
      let ((a, b, c, e), same) =
        load-Sums project id t ss plans (demands_of others) (refl, refl, refl, refl) in
      let w =
        subst
          (λ (n : CandidateNode).
            (leb_ℤ (pos ((load id t ss plans).steady_cpu + (load id t ss plans).max_surge_cpu))
                n.allocatable_cpu
              ≡ true)
            × (leb_ℤ
                  (pos ((load id t ss plans).steady_memory + (load id t ss plans).max_surge_memory))
                  n.allocatable_memory
                ≡ true))
          same within in
      (check_capacity-ok_peak _).1 (
        within_bound _ entry.total_cpu entry.reserved_cpu (rw (a, c) at w.0),
        within_bound _ entry.total_memory entry.reserved_memory (rw (b, e) at w.1),
      )

  -- Of a plan on distinct nodes: a node receives nothing, or the admission check passes for all that
  -- other projects run there with all that the plan adds.
  pub plan_cluster_placement-admitted :
      (others : List ServiceConfig) (entry : NodeRegistryEntry) {plans : List ClusterServicePlan}
      → Distinct (candidate_ids input.nodes)
      → find_node id input.nodes ≡ some (candidate_of id (demands_of others) entry)
      → plan_cluster_placement d input ≡ ok plans
      → (demands_on project id input.services plans ≡ [])
        ⊎ ((check_capacity (
              admission_input entry
                (demands_of others ++ demands_on project id input.services plans))).ok
            ≡ true)
  unfolding plan_cluster_placement
  plan_cluster_placement-admitted others entry {plans} nd f h =
      let t = new_tally (candidate_of id (demands_of others) entry) in
      let found : find_tally id (map new_tally input.nodes) ≡ some t =
        find_tally-map id input.nodes ∙ ap (Option.map new_tally) f in
      let nd' : Distinct (node_ids (map new_tally input.nodes)) =
        subst Distinct (sym (node_ids-new_tally input.nodes)) nd in
      let run = plan_services-Run d input.services (map new_tally input.nodes) h in
      elim (Run-load project id t run nd' found) [
        | inl quiet ↦ inl quiet
        | inr within ↦ inr (within_admitted others entry input.services plans within)
      ]
