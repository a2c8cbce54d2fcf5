-- ===== src/Placement/Complete.antt =====
-- A plan covers the services it was asked for, and leaves volumes where they are.
use mathlib.Core.Path.{subst}
use launch_pad.Prelude.{
  str_eq, eq_iff, String, true, false, ◌≡◌, refl, sym, ◌∙◌, ◌⊎◌, inl, inr, some, List, [], ◌∷◌,
  Bool-cases, Option-cases, if_true, if_false, Distinct, ok, err, ap, >>=-eq-err,
}
use launch_pad.Prelude.Occurs.{Occurs}
use launch_pad.Prelude.Doubles.{Doubles}
use launch_pad.Placement.{
  Placement, PlacementError, capacity_placement, sticky_full, ClusterServiceInput,
  ClusterServicePlan, NodeTally, fits, find_tally, best_node, place_fresh, place_sticky, place_at,
  place_volume_service, place, pack_by_capacity, pack_rounds, placements_of, plan_cluster_placement,
  ClusterPlanInput, map, CandidateNode, new_tally,
}
use launch_pad.Placement.Tallies.{
  node_ids-commit, node_ids, Distinct-IsIndexed, placed_ids, node_ids-new_tally,
}
use launch_pad.Placement.Pack.{total_replicas, IsStuck, pack_rounds-IsStuck}
use launch_pad.Placement.Step.{place-IsPlaced, All-find_tally, All-zero, total-nil}
use launch_pad.Placement.Load.{Run, done, step, Distinct-commit, plan_services-Run}

-- One plan for each service, in order, of the service's name, with all of its replicas, and no node
-- named twice.
abbrev pub Covers : List ClusterServiceInput → List ClusterServicePlan → Type 0
Covers [] [] = Unit
Covers [] (_ ∷ _) = ⊥
Covers (_ ∷ _) [] = ⊥
Covers (s ∷ ss) (p ∷ ps) =
    ((p.service ≡ s.name)
      × (total_replicas p.placements ≡ s.replicas)
      × Distinct (placed_ids p.placements))
    × Covers ss ps

pub Run-Covers :
    {d : Doubles} {ts : List NodeTally} {ss : List ClusterServiceInput}
    {plans : List ClusterServicePlan}
    → Run d ts ss plans
    → Distinct (node_ids ts)
    → Covers ss plans
Run-Covers done nd = tt
Run-Covers {d} {ts} (step {s} {ps} placed run) nd =
    let here = place-IsPlaced d ts s nd placed in
    ((refl, here.complete, here.distinct), Run-Covers run (Distinct-commit ts s ps nd))

-- On distinct nodes, a plan that succeeds has one entry for each service, in order, of the service's
-- name, whose placements name no node twice and add up to exactly the service's replicas.
pub plan_cluster_placement-Covers :
    (d : Doubles) (input : ClusterPlanInput) (plans : List ClusterServicePlan)
    → Distinct (map (λ (n : CandidateNode). n.node_id) input.nodes)
    → plan_cluster_placement d input ≡ ok plans
    → Covers input.services plans
unfolding plan_cluster_placement
plan_cluster_placement-Covers d input plans nd h =
    Run-Covers (plan_services-Run d input.services (map new_tally input.nodes) h)
      (subst Distinct (sym (node_ids-new_tally input.nodes)) nd)

abbrev pub alone : String → ClusterServiceInput → List Placement
alone id s = record { node_id = id; replicas = s.replicas } ∷ []

module _ (d : Doubles) (ts : List NodeTally) (s : ClusterServiceInput) where
  place_fresh-alone :
      {ps : List Placement} → place_fresh d ts s ≡ ok ps → (id : String) × (ps ≡ alone id s)
  unfolding place_fresh
  place_fresh-alone {ps} h = elim (Option-cases (best_node d ts s [] s.replicas)) [
    | inl n ↦
        let k : err (capacity_placement s.name 1 s.replicas) ≡ ok ps = rw (n, place_fresh) at h in
        cc
    | inr (b, n) ↦
        let k : ok (alone b.node.node_id s) ≡ ok ps = rw (n, place_fresh) at h in
        (b.node.node_id, cc)
  ]

  place_sticky-room :
      (id : String) (t : NodeTally)
      → find_tally id ts ≡ some t
      → fits t s s.replicas ≡ true
      → place_sticky d ts s id ≡ ok (alone t.node.node_id s)
  unfolding place_sticky
  place_sticky-room id t f room = rw (f, room, place_sticky)

  place_sticky-full :
      (id : String) (t : NodeTally)
      → find_tally id ts ≡ some t
      → fits t s s.replicas ≡ false
      → place_sticky d ts s id ≡ err (sticky_full s.name id)
  unfolding place_sticky
  place_sticky-full id t f full = rw (f, full, place_sticky)

  place-sticky :
      (id : String) (t : NodeTally)
      → s.has_volumes ≡ true
      → s.sticky_node_id ≡ some id
      → Distinct (node_ids ts)
      → find_tally id ts ≡ some t
      → ((fits t s s.replicas ≡ true) × (place d ts s ≡ ok (alone id s)))
        ⊎ ((fits t s s.replicas ≡ false) × (place d ts s ≡ err (sticky_full s.name id)))
  unfolding place place_volume_service place_at
  place-sticky id t v st nd f =
      let (_, same) =
        All-find_tally (λ t. find_tally t.node.node_id ts ≡ some t) id ts (Distinct-IsIndexed ts nd)
          f in
      let moved : place d ts s ≡ place_sticky d ts s id = if_true _ _ v ∙ ap (place_at d ts s) st in
      elim (Bool-cases (fits t s s.replicas)) [
        | inl room ↦
            inl (room, moved ∙ place_sticky-room id t f room ∙ ap (λ x. ok (alone x s)) same)
        | inr full ↦ inr (full, moved ∙ place_sticky-full id t f full)
      ]

  -- Without volumes, an error says that the replicas before the named one fill the pool: placed
  -- safely, they leave no node that has room for it.
  pub place-IsStuck :
      {e : PlacementError}
      → s.has_volumes ≡ false
      → Distinct (node_ids ts)
      → place d ts s ≡ err e
      → IsStuck d s ts 0 e
  unfolding place pack_by_capacity
  place-IsStuck {e} v nd h =
      let failed : pack_rounds d ts s s.replicas 1 [] ≡ err e =
        >>=-eq-err (pack_rounds d ts s s.replicas 1 []) (λ counts. placements_of counts ts)
          (sym (if_false _ _ v) ∙ h) in
      pack_rounds-IsStuck d s ts s.replicas 0 [] nd (All-zero d ts s nd ts) 0
        (total-nil d ts s nd ts) failed

-- The service and its plan stand at the same place of the two lists.
abbrev pub IsPlannedAs :
    ClusterServiceInput
    → ClusterServicePlan
    → List ClusterServiceInput
    → List ClusterServicePlan
    → Type 0
IsPlannedAs s p [] plans = ⊥
IsPlannedAs s p (x ∷ ss) [] = ⊥
IsPlannedAs s p (x ∷ ss) (q ∷ plans) = ((s ≡ x) × (p ≡ q)) ⊎ IsPlannedAs s p ss plans

find_tally-there :
    (id : String) (ts : List NodeTally)
    → Occurs id (node_ids ts)
    → (t : NodeTally) × (find_tally id ts ≡ some t)
unfolding find_tally
find_tally-there id [] o = absurd o
find_tally-there id (t ∷ ts) o = elim (Bool-cases (str_eq t.node.node_id id)) [
  | inl e ↦ (t, rw e refl)
  | inr e ↦ elim o [
    | inl same ↦ absurd (let k = (eq_iff t.node.node_id id).1 (sym same) in cc)
    | inr there ↦ let (u, f) = find_tally-there id ts there in (u, rw e f)
  ]
]

place-stays :
    (d : Doubles) (ts : List NodeTally) (s : ClusterServiceInput) (id : String)
    (ps : List Placement)
    → Distinct (node_ids ts)
    → s.has_volumes ≡ true
    → s.sticky_node_id ≡ some id
    → Occurs id (node_ids ts)
    → place d ts s ≡ ok ps
    → ps ≡ alone id s
place-stays d ts s id ps nd v st o h =
    let (t, f) = find_tally-there id ts o in
    elim (place-sticky d ts s id t v st nd f) [ inl (_, placed) ↦ cc | inr (_, full) ↦ absurd (cc) ]

Run-stays :
    {d : Doubles} {ts : List NodeTally} {ss : List ClusterServiceInput}
    {plans : List ClusterServicePlan} (s : ClusterServiceInput) (p : ClusterServicePlan)
    (id : String)
    → Run d ts ss plans
    → Distinct (node_ids ts)
    → Occurs id (node_ids ts)
    → s.has_volumes ≡ true
    → s.sticky_node_id ≡ some id
    → IsPlannedAs s p ss plans
    → p.placements ≡ alone id s
Run-stays s p id done nd o v st h = absurd h
Run-stays {d} {ts} s p id (step {s = x} {ps} placed run) nd o v st (inl (same, planned)) =
    let here : place d ts s ≡ ok ps = rw same placed in
    ap (λ (q : ClusterServicePlan). q.placements) planned ∙ place-stays d ts s id ps nd v st o here
Run-stays {d} {ts} s p id (step {s = x} {ps} placed run) nd o v st (inr later) =
    Run-stays s p id run (Distinct-commit ts x ps nd)
      (subst (λ ids. Occurs id ids) (sym (node_ids-commit ts x ps)) o) v st later

-- In a plan that succeeds on distinct nodes, a service with volumes that a node of the pool holds is
-- placed with all its replicas on that one node, whatever is placed before it.
pub plan_cluster_placement-sticky :
    (d : Doubles) (input : ClusterPlanInput) (plans : List ClusterServicePlan)
    (s : ClusterServiceInput) (p : ClusterServicePlan) (id : String)
    → Distinct (map (λ (n : CandidateNode). n.node_id) input.nodes)
    → plan_cluster_placement d input ≡ ok plans
    → IsPlannedAs s p input.services plans
    → s.has_volumes ≡ true
    → s.sticky_node_id ≡ some id
    → Occurs id (map (λ (n : CandidateNode). n.node_id) input.nodes)
    → p.placements ≡ record { node_id = id; replicas = s.replicas } ∷ []
unfolding plan_cluster_placement
plan_cluster_placement-sticky d input plans s p id nd h there v st o =
    let ids = sym (node_ids-new_tally input.nodes) in
    Run-stays s p id (plan_services-Run d input.services (map new_tally input.nodes) h)
      (subst Distinct ids nd) (subst (λ xs. Occurs id xs) ids o) v st there
