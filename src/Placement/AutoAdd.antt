-- ===== src/Placement/AutoAdd.antt =====
-- `templateCandidateNode` and `planClusterPlacementAutoAdd` of placement.ts: the plan that grows the
-- pool. Names come from a supply, which node-names.ts is.
pub mod Laws
use launch_pad.Prelude.{
  ℕ, zero, suc, String, false, ◌≡◌, List, [], ◌∷◌, ◌++◌, contains, add, if◌then◌else◌, Result, ok,
  err,
}
use launch_pad.Prelude.Int.{ℤ, leb_ℤ}
use launch_pad.Prelude.Doubles.{Doubles}
use launch_pad.Capacity.{arm64}
use launch_pad.Placement.{
  CandidateNode, ClusterServicePlan, ClusterPlanInput, PlacementError, capacity_placement,
  sticky_full, bootstrap_candidate_node, plan_cluster_placement,
}

-- `generateNodeName(used, rng)`, with the state of its random source.
pub record NameSupply : Type 1 where
  pub Rng : Type 0
  pub generate : List String → Rng → String × Rng
  pub generate_fresh : (used : List String) (r : Rng) → contains (generate used r).0 used ≡ false

abbrev pub max_ℤ : ℤ → ℤ → ℤ
max_ℤ a b = if leb_ℤ a b then b else a

-- `Math.max(...existing.map(f))`, from the first on.
unfoldable pub largest : (CandidateNode → ℤ) → ℤ → List CandidateNode → ℤ
largest f m [] = m
largest f m (n ∷ ns) = largest f (max_ℤ m (f n)) ns

unfoldable pub template_candidate_node : String → List CandidateNode → CandidateNode
template_candidate_node id [] = bootstrap_candidate_node id arm64
template_candidate_node id (n ∷ ns) = record {
  node_id = id;
  architecture = n.architecture;
  allocatable_cpu = largest (λ x. x.allocatable_cpu) n.allocatable_cpu ns;
  allocatable_memory = largest (λ x. x.allocatable_memory) n.allocatable_memory ns;
  steady_cpu = 0;
  steady_memory = 0;
  max_surge_cpu = 0;
  max_surge_memory = 0;
}

pub record Grown : Type 0 where
  pub plans : List ClusterServicePlan
  pub added : List CandidateNode

-- A round of the loop where no addition is left, and where one is: `next` adds a node.
unfoldable pub rethrow :
    List CandidateNode
    → Result PlacementError (List ClusterServicePlan)
    → Result PlacementError Grown
rethrow added (ok plans) = ok (record { plans = plans; added = added })
rethrow added (err e) = err e

unfoldable pub retry :
    List CandidateNode
    → Result PlacementError Grown
    → Result PlacementError (List ClusterServicePlan)
    → Result PlacementError Grown
retry added next (ok plans) = ok (record { plans = plans; added = added })
retry added next (err (capacity_placement _ _ _)) = next
retry added next (err (sticky_full s n)) = err (sticky_full s n)

module _ (d : Doubles) (names : NameSupply) (input : ClusterPlanInput) where
  open names use {Rng, generate}

  unfoldable pub plan_with : List CandidateNode → Result PlacementError (List ClusterServicePlan)
  plan_with added = plan_cluster_placement d (record input { nodes = input.nodes ++ added })

  -- The loop: `left` is `maxAdd - added.length`.
  unfoldable pub grow : ℕ → List CandidateNode → List String → Rng → Result PlacementError Grown
  unfolding retry rethrow
  grow zero added used r = rethrow added (plan_with added)
  grow (suc left) added used r =
      let id = (generate used r).0 in
      let next =
        grow left (added ++ template_candidate_node id input.nodes ∷ []) (add id used)
          (generate used r).1 in
      retry added next (plan_with added)

  unfoldable pub plan_cluster_placement_auto_add :
      ℕ → List String → Rng → Result PlacementError Grown
  plan_cluster_placement_auto_add max_add existing_node_ids r = grow max_add [] existing_node_ids r
