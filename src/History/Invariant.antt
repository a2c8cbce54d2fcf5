-- ===== src/History/Invariant.antt =====
-- What every history of a node keeps.
use launch_pad.Prelude.{
  ◌==◌, Result, ok, err, String, Bool, true, false, not, ◌&&◌, Option, none, some, List, [], ◌∷◌,
  ◌≡◌, refl, sym, ap, ◌∙◌, inl, inr, arith, eq_iff, Bool-cases, if_true, if_false, contains,
  Distinct, str_eq, filter, find?, length,
}
use mathlib.Core.Path.{subst}
use launch_pad.Registry.{NodeRegistryEntry}
use launch_pad.Service.{ServiceConfig}
use launch_pad.Merge.{MergeError, key_of, is_other, is_owned, merge_project_services_partial}
use launch_pad.Merge.Full.{keys_of, merge_project_services-preserves}
use launch_pad.Merge.Partial.{
  merge_project_services_partial-preserves, merge_project_services_partial-Distinct,
}
use launch_pad.Undeploy.{services_after_removal}
use launch_pad.Undeploy.Laws.{filter_other-services_after_removal}
use launch_pad.History.{
  Step, deployed, deployed_partly, removed, job_started, job_removed, History, start, next,
  Decision, nothing, write, removal, job_merge, is_service, is_run, other_run, unless_running,
  decide_job_run, decide_job_removal,
}

contains-keys-filter :
    (k : String) (p : ServiceConfig → Bool) (ss : List ServiceConfig)
    → contains k (keys_of ss) ≡ false
    → contains k (keys_of (filter p ss)) ≡ false
contains-keys-filter k p [] h = refl
contains-keys-filter k p (s ∷ ss) h = ground (arith, contains-keys-filter k p ss)

filter-Distinct :
    (p : ServiceConfig → Bool) (ss : List ServiceConfig)
    → Distinct (keys_of ss)
    → Distinct (keys_of (filter p ss))
filter-Distinct p [] d = tt
filter-Distinct p (s ∷ ss) (new, d) = elim (Bool-cases (p s)) [
  | inl e ↦ rw e (contains-keys-filter (key_of s) p ss new, filter-Distinct p ss d)
  | inr e ↦ rw e (filter-Distinct p ss d)
]

-- A job's removal drops services of the project only.
filter_other-filter :
    (project : String) (p : ServiceConfig → Bool) (ss : List ServiceConfig)
    → ((s : ServiceConfig) → is_other project s ≡ true → p s ≡ true)
    → filter (is_other project) (filter p ss) ≡ filter (is_other project) ss
filter_other-filter project p [] f = refl
filter_other-filter project p (s ∷ ss) f = elim (Bool-cases (p s)) [
  | inl e ↦ elim (Bool-cases (str_eq s.project project)) [
    | inl o ↦ rw (e, o) (filter_other-filter project p ss f)
    | inr o ↦ rw (e, o) (ap (λ l. s ∷ l) (filter_other-filter project p ss f))
  ]
  | inr e ↦ elim (Bool-cases (str_eq s.project project)) [
    | inl o ↦ rw (e, o) (filter_other-filter project p ss f)
    | inr o ↦ absurd (let k = f s (rw o refl) in cc)
  ]
]

pub removal-write :
    (existing services after : List ServiceConfig)
    → removal existing services ≡ write after
    → services ≡ after
removal-write existing services after h = elim (Bool-cases (length services == length existing)) [
  | inl e ↦ absurd (let k : nothing ≡ write after = sym (if_true _ _ e) ∙ h in cc)
  | inr e ↦ let k : write services ≡ write after = sym (if_false _ _ e) ∙ h in cc
]

job_merge-write :
    (merged : Result MergeError (List ServiceConfig)) (after : List ServiceConfig)
    → job_merge merged ≡ write after
    → merged ≡ ok after
job_merge-write (ok services) after h = cc
job_merge-write (err e) after h = absurd (cc)

unless_running-write :
    (run : Option String) (decision : Decision) (after : List ServiceConfig)
    → unless_running run decision ≡ write after
    → decision ≡ write after
unless_running-write none decision after h = h
unless_running-write (some run) decision after h = absurd (cc)

started :
    (incoming : ServiceConfig) (before after : List ServiceConfig)
    → decide_job_run incoming before ≡ write after
    → merge_project_services_partial before incoming.project (incoming ∷ []) ≡ ok after
unfolding decide_job_run
started incoming before after h =
    job_merge-write (merge_project_services_partial before incoming.project (incoming ∷ [])) after (
      unless_running-write
        (other_run (find? (is_service incoming.project incoming.service) before) incoming) _ after
        h)

pub decide_job_removal-write :
    (project job run : String) (before after : List ServiceConfig)
    → decide_job_removal project job run before ≡ write after
    → filter (λ s. not (is_service project job s && is_run run s)) before ≡ after
unfolding decide_job_removal
decide_job_removal-write project job run before after h = removal-write before _ after h

-- Every writer keeps the keys distinct,
Step-Distinct :
    (node : NodeRegistryEntry) (project : String) (before after : List ServiceConfig)
    → Step node project before after
    → Distinct (keys_of before)
    → Distinct (keys_of after)
unfolding services_after_removal
Step-Distinct node project before after (deployed incoming h _) d =
    (merge_project_services-preserves before project incoming after h).2
Step-Distinct node project before after (deployed_partly incoming h _) d =
    merge_project_services_partial-Distinct before project incoming after h
Step-Distinct node project before after (removed names) d = filter-Distinct _ before d
Step-Distinct node project before after (job_started incoming o h) d =
    merge_project_services_partial-Distinct before incoming.project (incoming ∷ []) after
      (started incoming before after h)
Step-Distinct node project before after (job_removed job run h) d =
    subst (λ ss. Distinct (keys_of ss)) (decide_job_removal-write project job run before after h)
      (filter-Distinct _ before d)

-- and leaves the other projects' services as they were.
Step-others :
    (node : NodeRegistryEntry) (project : String) (before after : List ServiceConfig)
    → Step node project before after
    → filter (is_other project) after ≡ filter (is_other project) before
Step-others node project before after (deployed incoming h _) =
    (merge_project_services-preserves before project incoming after h).0
Step-others node project before after (deployed_partly incoming h _) =
    merge_project_services_partial-preserves before project incoming after h
Step-others node project before after (removed names) =
    filter_other-services_after_removal project names before
Step-others node project before after (job_started incoming o h) =
    subst (λ p. filter (is_other p) after ≡ filter (is_other p) before)
      ((eq_iff incoming.project project).0 o)
      (merge_project_services_partial-preserves before incoming.project (incoming ∷ []) after
        (started incoming before after h))
Step-others node project before after (job_removed job run h) =
    subst (λ ss. filter (is_other project) ss ≡ filter (is_other project) before)
      (decide_job_removal-write project job run before after h)
      (filter_other-filter project _ before (λ s o. ground arith))

-- A project's own services are among those that another one leaves alone.
filter_owned-other :
    (p q : String) (ss : List ServiceConfig)
    → str_eq p q ≡ false
    → filter (is_owned q) (filter (is_other p) ss) ≡ filter (is_owned q) ss
filter_owned-other p q [] h = refl
filter_owned-other p q (s ∷ ss) h = elim (Bool-cases (str_eq s.project p)) [
  | inl e ↦
      let other : str_eq s.project q ≡ false =
        ground (arith, eq_iff s.project p, eq_iff s.project q, eq_iff p q) in
      rw (e, other) (filter_owned-other p q ss h)
  | inr e ↦ elim (Bool-cases (str_eq s.project q)) [
    | inl o ↦ rw (e, o) (ap (λ l. s ∷ l) (filter_owned-other p q ss h))
    | inr o ↦ rw (e, o) (filter_owned-other p q ss h)
  ]
]

-- The keys of a node's services stay distinct through every history of deploys, removals and jobs
-- of any projects, in any order; and the services of a project that has no part in the history
-- stay as they were, in their order.
pub History-preserves :
    (node : NodeRegistryEntry) (projects : List String) (first last : List ServiceConfig)
    → History node projects first last
    → Distinct (keys_of first)
    → Distinct (keys_of last)
      × ((project : String)
          → contains project projects ≡ false
          → filter (is_owned project) last ≡ filter (is_owned project) first)
History-preserves node [] first last start d = (d, λ project h. refl)
History-preserves node (p ∷ ps) first last (next {before = before} history step) d =
    let (d', kept) = History-preserves node ps first before history d in
    (
      Step-Distinct node p before last step d',
      λ project h.
          let apart : str_eq p project ≡ false = ground arith in
          sym (filter_owned-other p project last apart)
          ∙ ap (filter (is_owned project)) (Step-others node p before last step)
          ∙ filter_owned-other p project before apart
          ∙ kept project (ground arith),
    )
