-- ===== src/Tests/Publish.antt =====
-- A publish that loses one race, and a plan that adds a node.
use launch_pad.Prelude.{
  ℕ, zero, suc, String, true, false, ◌≡◌, refl, Option, none, some, List, [], ◌∷◌, Result,
  if◌then◌else◌, str_eq, inl, inr,
}
use launch_pad.Prelude.Doubles.{thousandths}
use launch_pad.Service.{DesiredState}
use launch_pad.Publish.{
  Attempt, publish_desired, attempts_from, PublishError, max_publish_retries, Written,
}
use launch_pad.Publish.Laws.{Outcome, publish_desired-Outcome}
use launch_pad.Tests.Merge.{service, shared_node}
use launch_pad.Tests.Placement.{entry_of, two_services, web}
use launch_pad.Prelude.{◌<◌, All, All-weaken, arith, Bool-cases, contains, eq_iff}
use mathlib.Core.Path.{subst}
use Prim.Native.String.{◌++◌ as append, count}
use text.Mathlib.TextLemmas.{length-append}
use launch_pad.Placement.{ClusterPlanInput}
use launch_pad.Candidates.{candidate_of}
use launch_pad.Placement.AutoAdd.{NameSupply, plan_cluster_placement_auto_add}
use launch_pad.Placement.AutoAdd.Laws
use launch_pad.Placement.AutoAdd.Laws.{plan_cluster_placement_auto_add-Outcome}

-- A body is its text, and its ETag too; "v1" holds no state that parses, "v2" the shared node.
abbrev pub parse_body : String → Option DesiredState
parse_body body =
    if str_eq body "v2"
    then some (record { version = 3; node_id = "a"; updated_at = ""; services = shared_node })
    else none

-- The first attempt reads "v1" and finds "v2" at its write.
abbrev race : ℕ → Attempt String
race zero = record { at_read = some "v1"; at_write = some "v2"; now = "t0" }
race (suc k) = record { at_read = some "v2"; at_write = some "v2"; now = "t1" }

abbrev publish_blog : Result PublishError (Written String)
publish_blog =
    publish_desired (λ b. b) parse_body "a" (entry_of "a") "blog" (service "blog" "web" "x" 2 ∷ [])
      true race

publish_desired-Outcome_example :
    Outcome
      (λ b. b)
      parse_body
      (λ a b e. e)
      "a"
      (entry_of "a")
      "blog"
      (service "blog" "web" "x" 2 ∷ [])
      true
      (attempts_from race max_publish_retries 0)
      publish_blog
publish_desired-Outcome_example =
    publish_desired-Outcome (λ b. b) parse_body (λ a b e. e) "a" (entry_of "a") "blog"
      (service "blog" "web" "x" 2 ∷ []) true race

-- All used names in one, and "z": no used name.
abbrev pub joined : List String → String
joined [] = "z"
joined (s ∷ used) = append s (joined used)

joined-pos : (used : List String) → 0 < count (joined used)
joined-pos [] = omega arith
joined-pos (s ∷ used) = omega (arith, length-append s (joined used), joined-pos used)

pub longer_is_new :
    (m : String) (used : List String) → All (λ s. count s < count m) used → contains m used ≡ false
longer_is_new m [] h = refl
longer_is_new m (s ∷ used) (lt, h) = elim (Bool-cases (str_eq s m)) [
  | inl e ↦
      let same : s ≡ m = (eq_iff s m).0 e in
      let below : count m < count m = subst (λ y. count y < count m) same lt in
      absurd (omega (arith, below))
  | inr e ↦ rw e (longer_is_new m used h)
]

pub joined-longer : (used : List String) → All (λ s. count s < count (joined used)) used
joined-longer [] = tt
joined-longer (s ∷ used) = (
  omega (arith, length-append s (joined used), joined-pos used),
  All-weaken (λ x lt. omega (arith, lt, length-append s (joined used))) used (joined-longer used),
)

abbrev pub joined_names : NameSupply
joined_names = record {
  Rng = Unit;
  generate = λ used r. (joined used, tt);
  generate_fresh = λ used r. longer_is_new (joined used) used (joined-longer used);
}

-- Nodes "a" and "b" have no room for five replicas; the node "abz" has.
abbrev five_replicas : ClusterPlanInput
five_replicas = record two_services { services = web 5 ∷ [] }

plan_cluster_placement_auto_add-Outcome_example :
    launch_pad.Placement.AutoAdd.Laws.Outcome thousandths joined_names five_replicas
      (launch_pad.Placement.AutoAdd.Laws.drawn thousandths joined_names five_replicas 2
        ("a" ∷ "b" ∷ [])
        tt)
      2
      (plan_cluster_placement_auto_add thousandths joined_names five_replicas 2 ("a" ∷ "b" ∷ []) tt)
unfolding candidate_of
plan_cluster_placement_auto_add-Outcome_example =
    plan_cluster_placement_auto_add-Outcome thousandths joined_names five_replicas 2
      ("a" ∷ "b" ∷ []) tt (refl, (refl, tt)) (refl, (refl, tt))
