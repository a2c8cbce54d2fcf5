-- ===== src/Publish/Laws.antt =====
-- What a publish guarantees against concurrent writers.
use mathlib.Core.Path.{subst}
use mathlib.Core.List.{Memᴰ}
use launch_pad.Prelude.{
  ℕ, String, Bool, true, false, ◌≡◌, refl, ap, ◌⊎◌, inl, inr, Option, none, some, List, [], ◌∷◌,
  str_eq, Result, ok, err, All, Bool-cases, filter, eq_iff,
}
use launch_pad.Capacity.{check_capacity}
use launch_pad.Service.{ServiceConfig, DesiredState}
use launch_pad.Registry.{NodeRegistryEntry}
use launch_pad.Candidates.{demands_of}
use launch_pad.Candidates.Admission.{admission_input}
use launch_pad.Merge.{MergeError, is_other}
use launch_pad.Merge.Full.{merge_project_services-preserves}
use launch_pad.Merge.Partial.{merge_project_services_partial-preserves}
use launch_pad.Publish.{
  PublishError, merge_failed, no_capacity, racing, Stored, Attempt, Written, written, state_of,
  put_answer, PutAnswer, stored, precondition_failed, not_found, after_put, put_failed,
  merged_services, admit, publish_from, publish_desired, attempts_from, max_publish_retries,
}

module _ {Body : Type 0} (etag : Body → String) (parse : Body → Option DesiredState)
    -- equal ETags are ETags of equal bodies
    (etag_injective : (a b : Body) → etag a ≡ etag b → a ≡ b) where
  pub precondition-same :
      (read current : Stored Body) → put_answer etag parse read current ≡ stored → read ≡ current
  unfolding put_answer
  precondition-same none none h = refl
  precondition-same none (some b) h = cc
  precondition-same (some a) none h = cc
  precondition-same (some a) (some b) h = elim (Bool-cases (str_eq (etag a) (etag b))) [
    | inl e ↦ ap some (etag_injective a b ((eq_iff _ _).0 e))
    | inr e ↦ cc (h, e)
  ]

  module _ (node_id : String) (node : NodeRegistryEntry) (project : String)
      (incoming : List ServiceConfig) (partial : Bool) where
    -- What a write stands on: the merge of the very object that it replaces, admitted by the node.
    pub record IsSerial (replaced : Stored Body) (next : DesiredState) : Type 0 where
      pub now : String
      pub merged :
          merged_services etag parse partial
            (state_of etag parse node_id now replaced).services
            project
            incoming
          ≡ ok next.services
      pub admitted : (check_capacity (admission_input node (demands_of next.services))).ok ≡ true
      pub others :
          filter (is_other project) next.services
          ≡ filter (is_other project) (state_of etag parse node_id now replaced).services

    abbrev pub merge_at : Attempt Body → Result MergeError (List ServiceConfig)
    merge_at a =
        merged_services etag parse partial (state_of etag parse node_id a.now a.at_read).services
          project incoming

    -- What an error stands on: the attempt whose read made it.
    abbrev pub Blames : PublishError → Attempt Body → Type 0
    Blames (merge_failed e) a = merge_at a ≡ err e
    Blames (no_capacity id) a =
        (merged : List ServiceConfig) × (merge_at a ≡ ok merged)
        × ((check_capacity (admission_input node (demands_of merged))).ok ≡ false)
    Blames put_failed a = put_answer etag parse a.at_read a.at_write ≡ not_found
    Blames (racing id) a = ⊥

    abbrev pub Lost : Attempt Body → Type 0
    Lost a = put_answer etag parse a.at_read a.at_write ≡ precondition_failed

    -- A write is serial; an error is the last word of some attempt, or every attempt lost a race.
    abbrev pub Outcome : List (Attempt Body) → Result PublishError (Written Body) → Type 0
    Outcome attempts (ok (written replaced next)) = IsSerial replaced next
    Outcome attempts (err e) =
        ((a : Attempt Body) × Memᴰ a attempts × Blames e a)
        ⊎ ((e ≡ racing node_id) × All Lost attempts)

    merged_services-others :
        (existing merged : List ServiceConfig)
        → merged_services etag parse partial existing project incoming ≡ ok merged
        → filter (is_other project) merged ≡ filter (is_other project) existing
    unfolding merged_services
    merged_services-others existing merged h = elim (Bool-cases partial) [
      | inl e ↦
          merge_project_services_partial-preserves existing project incoming merged (rw e at h)
      | inr e ↦ (merge_project_services-preserves existing project incoming merged (rw e at h)).0
    ]

    Outcome-cons :
        (a : Attempt Body) (attempts : List (Attempt Body)) (r : Result PublishError (Written Body))
        → Lost a
        → Outcome attempts r
        → Outcome (a ∷ attempts) r
    Outcome-cons a attempts (ok (written replaced next)) lost h = h
    Outcome-cons a attempts (err e) lost (inl (b, m, h)) = inl (b, Memᴰ.tail m, h)
    Outcome-cons a attempts (err e) lost (inr (same, h)) = inr (same, (lost, h))

    after_put-Outcome :
        (a : Attempt Body) (attempts : List (Attempt Body))
        (again : Result PublishError (Written Body)) (merged : List ServiceConfig) (p : PutAnswer)
        → merge_at a ≡ ok merged
        → (check_capacity (admission_input node (demands_of merged))).ok ≡ true
        → put_answer etag parse a.at_read a.at_write ≡ p
        → Outcome attempts again
        → Outcome
            (a ∷ attempts)
            (after_put etag parse node_id node project incoming partial a again merged p)
    unfolding after_put
    after_put-Outcome a attempts again merged precondition_failed h fits p rest =
        Outcome-cons a attempts again p rest
    after_put-Outcome a attempts again merged not_found h fits p rest = inl (a, Memᴰ.head refl, p)
    after_put-Outcome a attempts again merged stored h fits p rest =
        let merged_here =
          subst
            (λ (x : Stored Body).
              merged_services etag parse partial (state_of etag parse node_id a.now x).services
                project incoming
              ≡ ok merged)
            (precondition-same a.at_read a.at_write p) h in
        record {
          now = a.now;
          merged = merged_here;
          admitted = fits;
          others = merged_services-others _ merged merged_here;
        }

    admit-Outcome :
        (a : Attempt Body) (attempts : List (Attempt Body))
        (again : Result PublishError (Written Body)) (m : Result MergeError (List ServiceConfig))
        → merge_at a ≡ m
        → Outcome attempts again
        → Outcome (a ∷ attempts) (admit etag parse node_id node project incoming partial a again m)
    unfolding admit
    admit-Outcome a attempts again (err e) h rest = inl (a, Memᴰ.head refl, h)
    admit-Outcome a attempts again (ok merged) h rest =
        elim (Bool-cases (check_capacity (admission_input node (demands_of merged))).ok) [
          | inr full ↦ rw full (inl (a, Memᴰ.head refl, (merged, h, full)))
          | inl fits ↦ rw fits (
              after_put-Outcome a attempts again merged (put_answer etag parse a.at_read a.at_write)
                h fits refl rest)
        ]

    publish_from-Outcome :
        (attempts : List (Attempt Body))
        → Outcome attempts (publish_from etag parse node_id node project incoming partial attempts)
    unfolding publish_from
    publish_from-Outcome [] = inr (refl, tt)
    publish_from-Outcome (a ∷ attempts) =
        admit-Outcome a attempts _ (merge_at a) refl (publish_from-Outcome attempts)

    -- Whatever other writers do between the requests of the five attempts: a publish that returns has
    -- replaced the object by the merge with that same object, admitted by the node's capacity, with
    -- every other project's services as they stood in it; a publish that fails wrote nothing, and
    -- its error is that of a merge, of an admission check or of a write to an object that is gone, or
    -- each attempt lost a race.
    pub publish_desired-Outcome :
        (env : ℕ → Attempt Body)
        → Outcome
            (attempts_from env max_publish_retries 0)
            (publish_desired etag parse node_id node project incoming partial env)
    unfolding publish_desired
    publish_desired-Outcome env = publish_from-Outcome _
