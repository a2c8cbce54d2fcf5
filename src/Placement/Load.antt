-- ===== src/Placement/Load.antt =====
-- The load that a whole plan puts on one node, followed through `planClusterPlacement`.
use mathlib.Core.Path.{subst}
use mathlib.Core.Option
use launch_pad.Prelude.{
  ℕ, ◌+◌, ◌*◌, ltb, min, String, true, false, ◌≡◌, refl, ap, sym, ◌∙◌, ◌⊎◌, inl, inr, some, List,
  [], ◌∷◌, arith, Bool-cases, if◌then◌else◌, Distinct, ok, >>=-eq-ok, ltb→lt,
}
use launch_pad.Prelude.Int.{pos, leb_ℤ}
use launch_pad.Prelude.Doubles.{Doubles}
use launch_pad.Capacity.{CapacityServiceDemand}
use launch_pad.Placement.{
  Placement, ClusterServicePlan, NodeTally, ClusterServiceInput, fits, commit_one, commit,
  find_tally, place, plan_services,
}
use launch_pad.Placement.Tallies.{
  node_ids, node_ids-commit, committed, committed-zero, replicas_on, find_tally-commit,
}
use launch_pad.Placement.Step.{place-IsPlaced}

-- The tally of the node `id` after a plan, whatever its other nodes.
unfoldable pub load :
    String → NodeTally → List ClusterServiceInput → List ClusterServicePlan → NodeTally
load id t [] plans = t
load id t (s ∷ ss) [] = t
load id t (s ∷ ss) (p ∷ plans) = load id (committed s (replicas_on id p.placements) t) ss plans

-- The demand of `r` replicas of a service on one node, as deploy's `capacityDemands` computes it.
unfoldable pub demand : String → ClusterServiceInput → ℕ → CapacityServiceDemand
demand project s r =
    let surge = min s.max_surge r in
    record {
      project = project;
      service = s.name;
      cpu = s.cpu * r;
      memory = s.memory * r;
      surge_cpu = some (s.cpu * surge);
      surge_memory = some (s.memory * surge);
    }

-- What a plan puts on the node `id`: a demand for each service that it places there.
unfoldable pub demands_on :
    String
    → String
    → List ClusterServiceInput
    → List ClusterServicePlan
    → List CapacityServiceDemand
demands_on project id [] plans = []
demands_on project id (s ∷ ss) [] = []
demands_on project id (s ∷ ss) (p ∷ plans) =
    let rest = demands_on project id ss plans in
    let r = replicas_on id p.placements in if ltb 0 r then demand project s r ∷ rest else rest

module _ (project id : String) (s : ClusterServiceInput) (ss : List ClusterServiceInput)
    (p : ClusterServicePlan) (plans : List ClusterServicePlan) where
  pub demands_on-placed :
      ltb 0 (replicas_on id p.placements) ≡ true
      → demands_on project id (s ∷ ss) (p ∷ plans)
        ≡ demand project s (replicas_on id p.placements) ∷ demands_on project id ss plans
  unfolding demands_on
  demands_on-placed e = rw e

  pub demands_on-absent :
      ltb 0 (replicas_on id p.placements) ≡ false
      → demands_on project id (s ∷ ss) (p ∷ plans) ≡ demands_on project id ss plans
  unfolding demands_on
  demands_on-absent e = rw e

-- The peak of a tally, with its largest surge, is within the node.
abbrev pub IsWithin : NodeTally → Type 0
IsWithin t =
    (leb_ℤ (pos (t.steady_cpu + t.max_surge_cpu)) t.node.allocatable_cpu ≡ true)
    × (leb_ℤ (pos (t.steady_memory + t.max_surge_memory)) t.node.allocatable_memory ≡ true)

-- The rounds of a plan that succeeds.
pub data Run (d : Doubles)
    : List NodeTally → List ClusterServiceInput → List ClusterServicePlan → Type 0 where
  done : {ts : List NodeTally} → Run d ts [] []
  step :
      {ts : List NodeTally} {s : ClusterServiceInput} {ps : List Placement}
      {ss : List ClusterServiceInput} {plans : List ClusterServicePlan}
      → place d ts s ≡ ok ps
      → Run d (commit ts s ps) ss plans
      → Run d ts (s ∷ ss) (record { service = s.name; placements = ps; pool = node_ids ts } ∷ plans)

pub plan_services-Run :
    (d : Doubles) (ss : List ClusterServiceInput) (ts : List NodeTally)
    {plans : List ClusterServicePlan}
    → plan_services d ts ss ≡ ok plans
    → Run d ts ss plans
unfolding plan_services
plan_services-Run d [] ts h = subst (Run d ts []) (cc h) done
plan_services-Run d (s ∷ ss) ts h =
    let (ps, placed, h') = >>=-eq-ok (place d ts s) _ h in
    let (rest, planned, same) = >>=-eq-ok (plan_services d (commit ts s ps) ss) _ h' in
    subst (Run d ts (s ∷ ss)) (cc same)
      (step placed (plan_services-Run d ss (commit ts s ps) planned))

pub Distinct-commit :
    (ts : List NodeTally) (s : ClusterServiceInput) (ps : List Placement)
    → Distinct (node_ids ts)
    → Distinct (node_ids (commit ts s ps))
Distinct-commit ts s ps nd = subst Distinct (sym (node_ids-commit ts s ps)) nd

fits-IsWithin :
    (t : NodeTally) (s : ClusterServiceInput) (r : ℕ)
    → fits t s r ≡ true
    → IsWithin (committed s r t)
unfolding fits commit_one
fits-IsWithin t s r h = ground arith

module _ (project id : String) where
  load-nil :
      (t : NodeTally) (ss : List ClusterServiceInput) (plans : List ClusterServicePlan)
      → demands_on project id ss plans ≡ []
      → load id t ss plans ≡ t
  unfolding load demands_on
  load-nil t [] plans h = refl
  load-nil t (s ∷ ss) [] h = refl
  load-nil t (s ∷ ss) (p ∷ plans) h = elim (Bool-cases (ltb 0 (replicas_on id p.placements))) [
    | inl e ↦ cc (e, h)
    | inr e ↦
        let none_here : replicas_on id p.placements ≡ 0 = ground arith in
        rw (none_here, committed-zero) (load-nil t ss plans (ground arith))
  ]

  -- After a plan, a node received nothing, or its peak load is within its capacity.
  pub Run-load :
      {d : Doubles} {ts : List NodeTally} {ss : List ClusterServiceInput}
      {plans : List ClusterServicePlan} (t : NodeTally)
      → Run d ts ss plans
      → Distinct (node_ids ts)
      → find_tally id ts ≡ some t
      → (demands_on project id ss plans ≡ []) ⊎ IsWithin (load id t ss plans)
  unfolding demands_on load
  Run-load t done nd f = inl refl
  Run-load {d} {ts} t (step {s} {ps} {ss} {plans} placed run) nd f =
      let here = place-IsPlaced d ts s nd placed in
      let r = replicas_on id ps in
      let ih =
        Run-load (committed s r t) run (Distinct-commit ts s ps nd)
          (find_tally-commit id ts s ps here.distinct ∙ ap (Option.map (committed s r)) f) in
      elim (Bool-cases (ltb 0 r)) [
        | inl e ↦ inr (elim ih [
          | inl quiet ↦ rw (load-nil (committed s r t) ss plans quiet) (elim (here.room id t f) [
            | inl zero_here ↦ absurd (omega (arith, ltb→lt 0 r e, zero_here))
            | inr room ↦ fits-IsWithin t s r room
          ])
          | inr within ↦ within
        ])
        | inr e ↦ elim ih [ inl quiet ↦ inl (rw e quiet) | inr within ↦ inr within ]
      ]
