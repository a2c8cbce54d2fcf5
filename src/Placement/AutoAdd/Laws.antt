-- ===== src/Placement/AutoAdd/Laws.antt =====
-- How far `planClusterPlacementAutoAdd` grows the pool, and what its result is.
use native.Mathlib.Decide.{dec_lt}
use mathlib.Core.Path.{subst}
use mathlib.Core.List.{append-nil, append_assoc, map-append}
use launch_pad.Prelude.{
  ℕ, zero, suc, ◌+◌, ◌≤◌, ◌<◌, String, true, false, ◌≡◌, refl, sym, ap, ◌∙◌, ◌⊎◌, inl, inr, List,
  [], ◌∷◌, ◌++◌, map, contains, add, contains-add, Distinct, Distinct-concat, length, length-append,
  take, take-append_left, take-length, Result, ok, err, arith, All, All-weaken, All-append,
  Bool-cases, eq_refl, eq_iff,
}
use launch_pad.Prelude.Doubles.{Doubles}
use launch_pad.Placement.{
  CandidateNode, ClusterServicePlan, ClusterPlanInput, PlacementError, capacity_placement,
  sticky_full, bootstrap_candidate_node, str_eq,
}
use launch_pad.Placement.AutoAdd.{
  NameSupply, template_candidate_node, Grown, plan_with, grow, plan_cluster_placement_auto_add,
  retry, rethrow,
}

abbrev pub ids_of : List CandidateNode → List String
ids_of nodes = map (λ (n : CandidateNode). n.node_id) nodes

abbrev pub IsCapacityError {ℓ} : {A : Type ℓ} → Result PlacementError A → Type 0
IsCapacityError (ok _) = ⊥
IsCapacityError (err (capacity_placement _ _ _)) = Unit
IsCapacityError (err (sticky_full _ _)) = ⊥

fresh_of_known :
    (id : String) (used xs : List String)
    → All (λ x. contains x used ≡ true) xs
    → contains id used ≡ false
    → contains id xs ≡ false
fresh_of_known id used [] h n = refl
fresh_of_known id used (x ∷ xs) (k, h) n = elim (Bool-cases (str_eq x id)) [
  | inl e ↦
      let same : contains id used ≡ true =
        subst (λ y. contains y used ≡ true) ((eq_iff x id).0 e) k in
      cc
  | inr e ↦ rw e (fresh_of_known id used xs h n)
]

node_id-template :
    (id : String) (nodes : List CandidateNode) → (template_candidate_node id nodes).node_id ≡ id
unfolding template_candidate_node bootstrap_candidate_node
node_id-template id [] = refl
node_id-template id (n ∷ ns) = refl

ids_of-add :
    (id : String) (nodes added : List CandidateNode)
    → ids_of (nodes ++ (added ++ template_candidate_node id nodes ∷ []))
      ≡ ids_of (nodes ++ added) ++ id ∷ []
ids_of-add id nodes added = rw (
  ← append_assoc nodes added (template_candidate_node id nodes ∷ []),
  map-append,
  node_id-template,
)

module _ (d : Doubles) (names : NameSupply) (input : ClusterPlanInput) where
  open names use {Rng, generate, generate_fresh}

  -- Every shorter list of added nodes fails for want of capacity.
  abbrev pub IsNeeded : List CandidateNode → Type 0
  IsNeeded added =
      (k : ℕ) → k < length added → IsCapacityError (plan_with d names input (take k added))

  -- What the loop keeps: the ids are new and distinct, and every node was needed.
  pub record IsGrowing (added : List CandidateNode) (used : List String) : Type 0 where
    pub distinct : Distinct (ids_of (input.nodes ++ added))
    pub known : All (λ id. contains id used ≡ true) (ids_of (input.nodes ++ added))
    pub needed : IsNeeded added

  -- The nodes that the first draws of names give, each shaped after the given pool.
  abbrev pub drawn : ℕ → List String → Rng → List CandidateNode
  drawn zero used r = []
  drawn (suc k) used r =
      let id = (generate used r).0 in
      template_candidate_node id input.nodes ∷ drawn k (add id used) (generate used r).1

  -- What a success returns, where the names are drawn in the order of `pool`.
  pub record IsGrown (pool : List CandidateNode) (max_add : ℕ) (g : Grown) : Type 0 where
    pub planned : plan_with d names input g.added ≡ ok g.plans
    pub in_order : g.added ≡ take (length g.added) pool
    pub bounded : length g.added ≤ max_add
    pub distinct : Distinct (ids_of (input.nodes ++ g.added))
    pub needed : IsNeeded g.added

  -- What a failure means: the planner's own error at the last pool, a capacity error only where
  -- all additions are used up.
  pub record IsExhausted (pool : List CandidateNode) (max_add : ℕ) (e : PlacementError)
      : Type 0 where
    pub added : List CandidateNode
    pub failed : plan_with d names input added ≡ err e
    pub in_order : added ≡ take (length added) pool
    pub distinct : Distinct (ids_of (input.nodes ++ added))
    pub needed : IsNeeded added
    pub final : (length added ≡ max_add) ⊎ ((s n : String) × (e ≡ sticky_full s n))
    pub bounded : length added ≤ max_add

  abbrev pub Outcome : List CandidateNode → ℕ → Result PlacementError Grown → Type 0
  Outcome pool max_add (ok g) = IsGrown pool max_add g
  Outcome pool max_add (err e) = IsExhausted pool max_add e

  in_order_of :
      (pool added rest : List CandidateNode)
      → pool ≡ added ++ rest
      → added ≡ take (length added) pool
  in_order_of pool added rest e =
      rw (e, take-append_left (length added) added rest (omega arith), take-length added) refl

  IsGrowing-add :
      (added : List CandidateNode) (used : List String) (r : Rng)
      → IsGrowing added used
      → IsCapacityError (plan_with d names input added)
      → IsGrowing
          (added ++ template_candidate_node (generate used r).0 input.nodes ∷ [])
          (add (generate used r).0 used)
  IsGrowing-add added used r g h =
      let id = (generate used r).0 in
      let t = template_candidate_node id input.nodes in
      record {
        distinct = rw (ids_of-add id input.nodes added) (
            Distinct-concat (ids_of (input.nodes ++ added)) id g.distinct (
              fresh_of_known id used (ids_of (input.nodes ++ added)) g.known
                (generate_fresh used r)));
        known = rw (ids_of-add id input.nodes added) (
            All-append (λ x. contains x (add id used) ≡ true) (ids_of (input.nodes ++ added))
              (id ∷ [])
              (All-weaken (λ x k. contains-add x id used ∙ ground arith)
                (ids_of (input.nodes ++ added)) g.known)
              (contains-add id id used ∙ ground (arith, eq_refl id), tt));
        needed = λ k lt. elim (dec_lt k (length added)) [
          | yes before ↦ rw (take-append_left k added (t ∷ []) (omega arith)) (g.needed k before)
          | no after ↦
              let here : k ≡ length added = omega (arith, lt, length-append added (t ∷ [])) in
              rw
                (
                  here,
                  take-append_left (length added) added (t ∷ []) (omega arith),
                  take-length added,
                )
                h
        ];
      }

  rethrow-Outcome :
      (max_add : ℕ) (pool added rest : List CandidateNode) (used : List String)
      (x : Result PlacementError (List ClusterServicePlan))
      → plan_with d names input added ≡ x
      → length added ≡ max_add
      → pool ≡ added ++ rest
      → IsGrowing added used
      → Outcome pool max_add (rethrow added x)
  unfolding rethrow
  rethrow-Outcome max_add pool added rest used (ok plans) h e f g = record {
    planned = h;
    in_order = in_order_of pool added rest f;
    bounded = omega arith;
    distinct = g.distinct;
    needed = g.needed;
  }
  rethrow-Outcome max_add pool added rest used (err x) h e f g = record {
    added = added;
    failed = h;
    in_order = in_order_of pool added rest f;
    distinct = g.distinct;
    needed = g.needed;
    final = inl e;
    bounded = omega arith;
  }

  retry-Outcome :
      (max_add : ℕ) (pool added rest : List CandidateNode) (used : List String)
      (next : Result PlacementError Grown) (x : Result PlacementError (List ClusterServicePlan))
      → plan_with d names input added ≡ x
      → length added ≤ max_add
      → pool ≡ added ++ rest
      → IsGrowing added used
      → (IsCapacityError x → Outcome pool max_add next)
      → Outcome pool max_add (retry added next x)
  unfolding retry
  retry-Outcome max_add pool added rest used next (ok plans) h e f g rec = record {
    planned = h;
    in_order = in_order_of pool added rest f;
    bounded = e;
    distinct = g.distinct;
    needed = g.needed;
  }
  retry-Outcome max_add pool added rest used next (err (capacity_placement s i n)) h e f g rec =
      rec tt
  retry-Outcome max_add pool added rest used next (err (sticky_full s n)) h e f g rec = record {
    added = added;
    failed = h;
    in_order = in_order_of pool added rest f;
    distinct = g.distinct;
    needed = g.needed;
    final = inr (s, n, refl);
    bounded = e;
  }

  grow-Outcome :
      (left max_add : ℕ) (pool added : List CandidateNode) (used : List String) (r : Rng)
      → length added + left ≡ max_add
      → pool ≡ added ++ drawn left used r
      → IsGrowing added used
      → Outcome pool max_add (grow d names input left added used r)
  unfolding grow
  grow-Outcome zero max_add pool added used r e f g =
      rethrow-Outcome max_add pool added [] used (plan_with d names input added) refl (omega arith)
        f g
  grow-Outcome (suc left) max_add pool added used r e f g =
      let t = template_candidate_node (generate used r).0 input.nodes in
      let rest = drawn left (add (generate used r).0 used) (generate used r).1 in
      retry-Outcome max_add pool added (t ∷ rest) used _ (plan_with d names input added) refl
        (omega arith) f g
        (λ failed.
          grow-Outcome left max_add pool _ _ (generate used r).1
            (omega (arith, length-append added (t ∷ [])))
            (f ∙ sym (append_assoc added (t ∷ []) rest)) (IsGrowing-add added used r g failed))

  ids_of-nil : ids_of (input.nodes ++ []) ≡ ids_of input.nodes
  ids_of-nil = ap ids_of (append-nil input.nodes)

  -- From distinct known nodes: a success is the planner's own plan over the given nodes and at most
  -- `max_add` new ones, a failure the planner's error over such nodes, of capacity only where there
  -- are `max_add` new ones. In both cases the new nodes are those of the names drawn first, in order
  -- and shaped after the given nodes, all ids are distinct, and with fewer new nodes the planner
  -- fails for want of capacity.
  pub plan_cluster_placement_auto_add-Outcome :
      (max_add : ℕ) (existing : List String) (r : Rng)
      → Distinct (ids_of input.nodes)
      → All (λ id. contains id existing ≡ true) (ids_of input.nodes)
      → Outcome
          (drawn max_add existing r)
          max_add
          (plan_cluster_placement_auto_add d names input max_add existing r)
  unfolding plan_cluster_placement_auto_add
  plan_cluster_placement_auto_add-Outcome max_add existing r nd known =
      grow-Outcome max_add max_add (drawn max_add existing r) [] existing r (omega arith) refl
        (record {
          distinct = rw ids_of-nil nd;
          known = rw ids_of-nil known;
          needed = λ k lt. absurd (omega (arith, lt));
        })
