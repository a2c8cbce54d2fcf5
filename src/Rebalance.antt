-- ===== src/Rebalance.antt =====
-- packages/cli/src/deploy/rebalance-plan.ts, from `occupancyByNode` on: what a freshly planned
-- placement changes. The locale's order of texts is a parameter.
use launch_pad.Prelude.{
  ℕ, ◌+◌, String, Bool, true, false, not, ◌&&◌, ◌||◌, ◌≡◌, refl, ◌∙◌, ap, List, [], ◌∷◌, ◌++◌, Dict,
  get, put, keys, or_else, contains, add, contains-keys-put, str_eq, ltb, ◌==◌, filter,
  if◌then◌else◌, arith, inl, inr, Bool-cases, eq_iff,
}
use launch_pad.Prelude.Sort.{sort, contains-sort}

pub record ServicePlacement : Type 0 where
  pub service : String
  pub by_node : Dict ℕ

pub record RebalanceChange : Type 0 where
  pub service : String
  pub node : String
  pub from : ℕ
  pub to : ℕ

pub record RebalanceDiff : Type 0 where
  pub changed : Bool
  pub changes : List RebalanceChange
  pub vacated_nodes : List String

-- The inner loop of `occupancyByNode`.
unfoldable pub occupy : Dict ℕ → Dict ℕ → Dict ℕ
occupy total [] = total
occupy total ((node, replicas) ∷ rest) =
    occupy
      (if ltb 0 replicas then put node (or_else (get node total) 0 + replicas) total else total)
      rest

unfoldable pub occupancy_from : Dict ℕ → List ServicePlacement → Dict ℕ
occupancy_from total [] = total
occupancy_from total (s ∷ ss) = occupancy_from (occupy total s.by_node) ss

unfoldable pub occupancy_by_node : List ServicePlacement → Dict ℕ
occupancy_by_node placement = occupancy_from [] placement

-- The inner loop of `bySvc`: the positive counts.
unfoldable pub clean_from : Dict ℕ → Dict ℕ → Dict ℕ
clean_from clean [] = clean
clean_from clean ((node, replicas) ∷ rest) =
    clean_from (if ltb 0 replicas then put node replicas clean else clean) rest

unfoldable pub by_svc_from : Dict (Dict ℕ) → List ServicePlacement → Dict (Dict ℕ)
by_svc_from m [] = m
by_svc_from m (s ∷ ss) = by_svc_from (put s.service (clean_from [] s.by_node) m) ss

unfoldable pub by_svc : List ServicePlacement → Dict (Dict ℕ)
by_svc placement = by_svc_from [] placement

-- `new Set([...xs, ...ys])`
unfoldable pub union_of : List String → List String → List String
union_of seen [] = seen
union_of seen (x ∷ xs) = union_of (add x seen) xs

unfoldable pub node_changes : String → Dict ℕ → Dict ℕ → List String → List RebalanceChange
node_changes service a b [] = []
node_changes service a b (node ∷ nodes) =
    let rest = node_changes service a b nodes in
    let from = or_else (get node a) 0 in
    let to = or_else (get node b) 0 in
    if from == to
    then rest
    else record { service = service; node = node; from = from; to = to } ∷ rest

unfoldable pub all_changes : Dict (Dict ℕ) → Dict (Dict ℕ) → List String → List RebalanceChange
all_changes cur next [] = []
all_changes cur next (service ∷ services) =
    let a = or_else (get service cur) [] in
    let b = or_else (get service next) [] in
    node_changes service a b (union_of [] (keys a ++ keys b)) ++ all_changes cur next services

-- `changes.length > 0`
abbrev pub is_some_change : List RebalanceChange → Bool
is_some_change [] = false
is_some_change (_ ∷ _) = true

module _ (text_before locale_before : String → String → Bool) where
  -- The comparator of `sort`: is its value negative?
  unfoldable pub change_before : RebalanceChange → RebalanceChange → Bool
  change_before x y =
      locale_before x.service y.service
      || (not (locale_before y.service x.service) && locale_before x.node y.node)

  unfoldable pub diff_placement : List ServicePlacement → List ServicePlacement → RebalanceDiff
  diff_placement current planned =
      let cur = by_svc current in
      let next = by_svc planned in
      let changes =
        sort change_before (all_changes cur next (union_of [] (keys cur ++ keys next))) in
      let before = occupancy_by_node current in
      let after = occupancy_by_node planned in
      record {
        changed = is_some_change changes;
        changes = changes;
        vacated_nodes =
            sort text_before (filter (λ node. not (contains node (keys after))) (keys before));
      }

-- Does a placement put a replica on the node?
abbrev pub hosts_in : String → Dict ℕ → Bool
hosts_in d [] = false
hosts_in d ((node, replicas) ∷ rest) = (str_eq node d && ltb 0 replicas) || hosts_in d rest

abbrev pub hosts : String → List ServicePlacement → Bool
hosts d [] = false
hosts d (s ∷ ss) = hosts_in d s.by_node || hosts d ss

contains-occupy :
    (d : String) (total m : Dict ℕ)
    → contains d (keys (occupy total m)) ≡ (contains d (keys total) || hosts_in d m)
unfolding occupy
contains-occupy d total [] = ground arith
contains-occupy d total ((node, replicas) ∷ rest) = elim (Bool-cases (ltb 0 replicas)) [
  | inl e ↦ rw e (
      contains-occupy d (put node (or_else (get node total) 0 + replicas) total) rest
      ∙ ground (arith, contains-keys-put node d (or_else (get node total) 0 + replicas) total))
  | inr e ↦ rw e (contains-occupy d total rest ∙ ground arith)
]

contains-occupancy_from :
    (d : String) (total : Dict ℕ) (ss : List ServicePlacement)
    → contains d (keys (occupancy_from total ss)) ≡ (contains d (keys total) || hosts d ss)
unfolding occupancy_from
contains-occupancy_from d total [] = ground arith
contains-occupancy_from d total (s ∷ ss) =
    contains-occupancy_from d (occupy total s.by_node) ss
    ∙ ground (arith, contains-occupy d total s.by_node)

contains-filter :
    (p : String → Bool) (d : String) (xs : List String)
    → contains d (filter p xs) ≡ (contains d xs && p d)
contains-filter p d [] = refl
contains-filter p d (x ∷ xs) = elim (Bool-cases (str_eq x d)) [
  | inl e ↦ let same : x ≡ d = (eq_iff x d).0 e in ground (arith, contains-filter p d xs, ap p same)
  | inr e ↦ ground (arith, contains-filter p d xs)
]

module _ (text_before locale_before : String → String → Bool) where
  -- A node is reported as vacated exactly where some service has a replica on it in the current placement
  -- and none has one in the planned.
  pub vacated_nodes-diff_placement :
      (current planned : List ServicePlacement) (d : String)
      → contains d (diff_placement text_before locale_before current planned).vacated_nodes
        ≡ (hosts d current && not (hosts d planned))
  unfolding diff_placement occupancy_by_node
  vacated_nodes-diff_placement current planned d =
      contains-sort text_before d _
      ∙ contains-filter (λ node. not (contains node (keys (occupancy_from [] planned)))) d
          (keys (occupancy_from [] current))
      ∙ ground (arith, contains-occupancy_from d [] current, contains-occupancy_from d [] planned)
