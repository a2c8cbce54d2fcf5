-- ===== src/Placement.antt =====
-- packages/cli/src/deploy/placement.ts: the capacity scheduler of a cluster's app nodes.
-- A thrown error is an `err` that holds its kind and its numbers, without the text for the terminal.
-- The quotients that rank two nodes are floating-point: their operations are a parameter.
pub mod Best
pub mod AutoAdd
pub mod Complete
pub mod Load
pub mod Step
pub mod Pack
pub mod Tallies
use launch_pad.Prelude.{
  ℕ, zero, suc, ◌+◌, ◌-◌, ◌*◌, ◌^◌, min, max, String, Bool, true, false, ◌&&◌, ◌||◌, Option, none,
  some, List, [], ◌∷◌, map, Dict, get, put, or_else, str_eq, str_lt, ltb, if◌then◌else◌, filter,
  find?, Result, ok, err, ◌>>=◌,
}
use launch_pad.Prelude.Int.{ℤ, pos, ◌-ℤ◌, leb_ℤ, ltb_ℤ, eqb_ℤ}
use launch_pad.Prelude.Doubles.{Doubles}
use launch_pad.Capacity.{NodeArchitecture}

pub record Placement : Type 0 where
  pub node_id : String
  pub replicas : ℕ

pub record CandidateNode : Type 0 where
  pub node_id : String
  pub architecture : NodeArchitecture
  pub allocatable_cpu : ℤ
  pub allocatable_memory : ℤ
  pub steady_cpu : ℕ
  pub steady_memory : ℕ
  pub max_surge_cpu : ℕ
  pub max_surge_memory : ℕ

-- Number.MAX_SAFE_INTEGER
abbrev pub unbounded : ℕ
unbounded = 2 ^ 53 - 1

unfoldable pub bootstrap_candidate_node : String → NodeArchitecture → CandidateNode
bootstrap_candidate_node node_id architecture = record {
  node_id = node_id;
  architecture = architecture;
  allocatable_cpu = pos unbounded;
  allocatable_memory = pos unbounded;
  steady_cpu = 0;
  steady_memory = 0;
  max_surge_cpu = 0;
  max_surge_memory = 0;
}

pub record ClusterServiceInput : Type 0 where
  pub name : String
  pub replicas : ℕ
  pub cpu : ℕ
  pub memory : ℕ
  pub max_surge : ℕ
  pub is_web : Bool
  pub has_volumes : Bool
  pub sticky_node_id : Option String

pub record ClusterServicePlan : Type 0 where
  pub service : String
  pub placements : List Placement
  pub pool : List String

pub record ClusterPlanInput : Type 0 where
  pub cluster_id : String
  pub nodes : List CandidateNode
  pub services : List ClusterServiceInput

pub record NodeTally : Type 0 where
  pub node : CandidateNode
  pub steady_cpu : ℕ
  pub steady_memory : ℕ
  pub max_surge_cpu : ℕ
  pub max_surge_memory : ℕ

-- `CapacityPlacementError`, and the plain `CliError` of a sticky node that is full.
pub data PlacementError : Type 0 where
  capacity_placement : (service : String) (replica_index replicas : ℕ) → PlacementError
  sticky_full : (service node : String) → PlacementError

unfoldable pub fits : NodeTally → ClusterServiceInput → ℕ → Bool
fits t s here =
    let surge_cpu = max t.max_surge_cpu (s.cpu * min s.max_surge here) in
    let surge_memory = max t.max_surge_memory (s.memory * min s.max_surge here) in
    leb_ℤ (pos (t.steady_cpu + s.cpu * here + surge_cpu)) t.node.allocatable_cpu
    && leb_ℤ (pos (t.steady_memory + s.memory * here + surge_memory)) t.node.allocatable_memory

unfoldable pub free_cpu_after : NodeTally → ClusterServiceInput → ℕ → ℤ
free_cpu_after t s here = t.node.allocatable_cpu -ℤ pos (t.steady_cpu + s.cpu * here)

unfoldable pub free_memory_after : NodeTally → ClusterServiceInput → ℕ → ℤ
free_memory_after t s here = t.node.allocatable_memory -ℤ pos (t.steady_memory + s.memory * here)

-- `counts.get(id) ?? 0`
abbrev pub count_at : Dict ℕ → String → ℕ
count_at counts id = or_else (get id counts) 0

unfoldable pub commit_one : ClusterServiceInput → Placement → NodeTally → NodeTally
commit_one s p t = record t {
  steady_cpu = t.steady_cpu + s.cpu * p.replicas;
  steady_memory = t.steady_memory + s.memory * p.replicas;
  max_surge_cpu = max t.max_surge_cpu (s.cpu * min s.max_surge p.replicas);
  max_surge_memory = max t.max_surge_memory (s.memory * min s.max_surge p.replicas);
}

-- `tallies.find((x) => x.node.nodeId === p.nodeId)`, updated in place; none is skipped.
unfoldable pub commit_at : List NodeTally → ClusterServiceInput → Placement → List NodeTally
commit_at [] s p = []
commit_at (t ∷ ts) s p =
    if str_eq t.node.node_id p.node_id then commit_one s p t ∷ ts else t ∷ commit_at ts s p

unfoldable pub commit : List NodeTally → ClusterServiceInput → List Placement → List NodeTally
commit ts s [] = ts
commit ts s (p ∷ ps) = commit (commit_at ts s p) s ps

unfoldable pub find_tally : String → List NodeTally → Option NodeTally
find_tally id ts = find? (λ t. str_eq t.node.node_id id) ts

unfoldable pub new_tally : CandidateNode → NodeTally
new_tally n = record {
  node = n;
  steady_cpu = n.steady_cpu;
  steady_memory = n.steady_memory;
  max_surge_cpu = n.max_surge_cpu;
  max_surge_memory = n.max_surge_memory;
}

-- The end of `packByCapacity`: the positive counts, in the order of the pool.
unfoldable pub placements_of : Dict ℕ → List NodeTally → List Placement
placements_of counts pool =
    filter (λ p. ltb 0 p.replicas)
      (map
        (λ (t : NodeTally). record {
          node_id = t.node.node_id;
          replicas = count_at counts t.node.node_id;
        })
        pool)

module _ (d : Doubles) where
  open d use {Num, divide, least, minus, is_positive, is_zero}

  unfoldable pub score_after : NodeTally → ClusterServiceInput → ℕ → Num
  score_after t s here =
      least (divide (free_cpu_after t s here) t.node.allocatable_cpu)
        (divide (free_memory_after t s here) t.node.allocatable_memory)

  -- One step of `bestNode` at two nodes that fit: does `t` replace `best`?
  unfoldable pub replaces : ClusterServiceInput → NodeTally → ℕ → NodeTally → ℕ → Bool
  replaces s t here best best_here =
      let diff = minus (score_after t s here) (score_after best s best_here) in
      let d_cpu = free_cpu_after t s here -ℤ free_cpu_after best s best_here in
      let d_mem = free_memory_after t s here -ℤ free_memory_after best s best_here in
      if is_positive diff
      then true
      else if is_zero diff
      then if ltb_ℤ (pos 0) d_cpu || (eqb_ℤ d_cpu (pos 0) && ltb_ℤ (pos 0) d_mem)
        then true
        else eqb_ℤ d_cpu (pos 0) && eqb_ℤ d_mem (pos 0) && str_lt t.node.node_id best.node.node_id
      else false

  unfoldable pub consider :
      ClusterServiceInput → Dict ℕ → ℕ → NodeTally → Option NodeTally → Option NodeTally
  consider s counts more t best =
      let here = count_at counts t.node.node_id + more in
      if fits t s here
      then (elim best [
        | none ↦ some t
        | some b ↦
            if replaces s t here b (count_at counts b.node.node_id + more) then some t else some b
      ])
      else best

  unfoldable pub best_from :
      ClusterServiceInput → Dict ℕ → ℕ → List NodeTally → Option NodeTally → Option NodeTally
  best_from s counts more [] best = best
  best_from s counts more (t ∷ ts) best = best_from s counts more ts (consider s counts more t best)

  unfoldable pub best_node : List NodeTally → ClusterServiceInput → Dict ℕ → ℕ → Option NodeTally
  best_node ts s counts more = best_from s counts more ts none

  -- The loop of `packByCapacity`: `left` more rounds, the next of them the `i`-th.
  unfoldable pub pack_rounds :
      List NodeTally → ClusterServiceInput → ℕ → ℕ → Dict ℕ → Result PlacementError (Dict ℕ)
  pack_rounds pool s zero i counts = ok counts
  pack_rounds pool s (suc left) i counts = elim (best_node pool s counts 1) [
    | none ↦ err (capacity_placement s.name i s.replicas)
    | some b ↦
        pack_rounds pool s left (i + 1)
          (put b.node.node_id (count_at counts b.node.node_id + 1) counts)
  ]

  unfoldable pub pack_by_capacity :
      List NodeTally → ClusterServiceInput → Result PlacementError (List Placement)
  pack_by_capacity pool s = do
    counts ← pack_rounds pool s s.replicas 1 []
    ok (placements_of counts pool)

  -- All replicas on one node.
  unfoldable pub place_fresh :
      List NodeTally → ClusterServiceInput → Result PlacementError (List Placement)
  place_fresh ts s = elim (best_node ts s [] s.replicas) [
    | none ↦ err (capacity_placement s.name 1 s.replicas)
    | some b ↦ ok (record { node_id = b.node.node_id; replicas = s.replicas } ∷ [])
  ]

  unfoldable pub place_sticky :
      List NodeTally → ClusterServiceInput → String → Result PlacementError (List Placement)
  place_sticky ts s id = elim (find_tally id ts) [
    | none ↦ place_fresh ts s
    | some sticky ↦
        if fits sticky s s.replicas
        then ok (record { node_id = sticky.node.node_id; replicas = s.replicas } ∷ [])
        else err (sticky_full s.name id)
  ]

  unfoldable pub place_at :
      List NodeTally → ClusterServiceInput → Option String → Result PlacementError (List Placement)
  place_at ts s none = place_fresh ts s
  place_at ts s (some id) = place_sticky ts s id

  unfoldable pub place_volume_service :
      List NodeTally → ClusterServiceInput → Result PlacementError (List Placement)
  place_volume_service ts s = place_at ts s s.sticky_node_id

  unfoldable pub place :
      List NodeTally → ClusterServiceInput → Result PlacementError (List Placement)
  place ts s = if s.has_volumes then place_volume_service ts s else pack_by_capacity ts s

  -- The loop of `planClusterPlacement`.
  unfoldable pub plan_services :
      List NodeTally → List ClusterServiceInput → Result PlacementError (List ClusterServicePlan)
  plan_services ts [] = ok []
  plan_services ts (s ∷ ss) = do
    ps ← place ts s
    plans ← plan_services (commit ts s ps) ss
    ok (
        record {
          service = s.name;
          placements = ps;
          pool = map (λ (t : NodeTally). t.node.node_id) ts;
        }
        ∷ plans)

  unfoldable pub plan_cluster_placement :
      ClusterPlanInput → Result PlacementError (List ClusterServicePlan)
  plan_cluster_placement input = plan_services (map new_tally input.nodes) input.services
