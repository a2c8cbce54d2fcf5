-- ===== src/Placement/Tallies.antt =====
-- The tallies of `planClusterPlacement`: looking a node up by its id, and committing placements.
use mathlib.Core.Option
use mathlib.Core.Path.{subst}
use launch_pad.Prelude.{
  ℕ, String, false, ◌≡◌, refl, ap, ◌∙◌, Option, none, some, inl, inr, List, [], ◌∷◌, map, All,
  All-zip, arith, Bool-cases, if◌then◌else◌, str_eq, eq_iff, eq_refl, contains, Distinct,
  str_eq-sym,
}
use launch_pad.Placement.{
  Placement, NodeTally, ClusterServiceInput, commit_one, commit_at, commit, find_tally, new_tally,
  CandidateNode,
}

abbrev pub node_ids : List NodeTally → List String
node_ids ts = map (λ (t : NodeTally). t.node.node_id) ts

-- Every tally is the one that a lookup of its id finds.
abbrev pub IsIndexed : List NodeTally → List NodeTally → Type 0
IsIndexed all_ts ts = All (λ t. find_tally t.node.node_id all_ts ≡ some t) ts

ne_of_not_contains :
    (x : String) (ts : List NodeTally)
    → contains x (node_ids ts) ≡ false
    → All (λ t. str_eq x t.node.node_id ≡ false) ts
ne_of_not_contains x [] h = tt
ne_of_not_contains x (t ∷ ts) h =
    (ground (arith, str_eq-sym x t.node.node_id), ne_of_not_contains x ts (ground arith))

pub Distinct-IsIndexed : (ts : List NodeTally) → Distinct (node_ids ts) → IsIndexed ts ts
unfolding find_tally
Distinct-IsIndexed [] h = tt
Distinct-IsIndexed (t ∷ ts) (new, h) = (
  rw (eq_refl t.node.node_id),
  All-zip (λ x e f. rw e f) ts (ne_of_not_contains t.node.node_id ts new) (Distinct-IsIndexed ts h),
)

-- The tally after `r` more replicas of `s`.
abbrev pub committed : ClusterServiceInput → ℕ → NodeTally → NodeTally
committed s r t = commit_one s (record { node_id = t.node.node_id; replicas = r }) t

-- How many replicas a list of placements gives to a node.
abbrev pub replicas_on : String → List Placement → ℕ
replicas_on id [] = 0
replicas_on id (p ∷ ps) = if str_eq p.node_id id then p.replicas else replicas_on id ps

abbrev pub placed_ids : List Placement → List String
placed_ids ps = map (λ (p : Placement). p.node_id) ps

pub committed-zero : (s : ClusterServiceInput) (t : NodeTally) → committed s 0 t ≡ t
unfolding commit_one
committed-zero s t = ground arith

find_tally-commit_at :
    (id : String) (ts : List NodeTally) (s : ClusterServiceInput) (p : Placement)
    → find_tally id (commit_at ts s p) ≡ (
        if str_eq p.node_id id
        then Option.map (committed s p.replicas) (find_tally id ts)
        else find_tally id ts)
unfolding find_tally commit_at commit_one
find_tally-commit_at id [] s p = ground arith
find_tally-commit_at id (t ∷ ts) s p = ground (
  arith,
  find_tally-commit_at id ts s p,
  eq_iff t.node.node_id id,
  eq_iff p.node_id id,
  eq_iff t.node.node_id p.node_id,
)

pub node_ids-commit_at :
    (ts : List NodeTally) (s : ClusterServiceInput) (p : Placement)
    → node_ids (commit_at ts s p) ≡ node_ids ts
unfolding commit_at commit_one
node_ids-commit_at [] s p = refl
node_ids-commit_at (t ∷ ts) s p = ground (arith, node_ids-commit_at ts s p)

-- Committing changes no id and no order.
pub node_ids-commit :
    (ts : List NodeTally) (s : ClusterServiceInput) (ps : List Placement)
    → node_ids (commit ts s ps) ≡ node_ids ts
unfolding commit
node_ids-commit ts s [] = refl
node_ids-commit ts s (p ∷ ps) = node_ids-commit (commit_at ts s p) s ps ∙ node_ids-commit_at ts s p

pub replicas_on-eq-zero :
    (id : String) (ps : List Placement)
    → contains id (placed_ids ps) ≡ false
    → replicas_on id ps ≡ 0
replicas_on-eq-zero id [] h = refl
replicas_on-eq-zero id (p ∷ ps) h = ground (arith, replicas_on-eq-zero id ps)

map-committed-zero :
    (s : ClusterServiceInput) (o : Option NodeTally) → Option.map (committed s 0) o ≡ o
map-committed-zero s none = refl
map-committed-zero s (some t) = ap some (committed-zero s t)

-- Committing placements on distinct nodes adds to each tally its own replicas, once.
pub find_tally-commit :
    (id : String) (ts : List NodeTally) (s : ClusterServiceInput) (ps : List Placement)
    → Distinct (placed_ids ps)
    → find_tally id (commit ts s ps)
      ≡ Option.map (committed s (replicas_on id ps)) (find_tally id ts)
unfolding commit
find_tally-commit id ts s [] h = rw map-committed-zero
find_tally-commit id ts s (p ∷ ps) (new, h) = elim (Bool-cases (str_eq p.node_id id)) [
  | inl e ↦
      let gone : contains id (placed_ids ps) ≡ false =
        subst (λ x. contains x (placed_ids ps) ≡ false) ((eq_iff p.node_id id).0 e) new in
      rw (
        find_tally-commit id (commit_at ts s p) s ps h,
        find_tally-commit_at id ts s p,
        replicas_on-eq-zero id ps gone,
        map-committed-zero,
        e,
      )
  | inr e ↦ rw (find_tally-commit id (commit_at ts s p) s ps h, find_tally-commit_at id ts s p, e)
]

pub node_ids-new_tally :
    (nodes : List CandidateNode)
    → node_ids (map new_tally nodes) ≡ map (λ (n : CandidateNode). n.node_id) nodes
unfolding new_tally
node_ids-new_tally [] = refl
node_ids-new_tally (n ∷ nodes) = ap (λ ids. n.node_id ∷ ids) (node_ids-new_tally nodes)
