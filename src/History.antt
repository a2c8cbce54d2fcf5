-- ===== src/History.antt =====
-- The other writers of a node's desired.json: `publishRemoval` of packages/cli/src/commands/destroy.ts
-- and `publishJobRun` and `removeJobRun` of packages/cli/src/commands/job.ts; and the history of a
-- node, in which every write stands on the object that it replaces (Publish/Laws has this of deploys).
pub mod Invariant
pub mod Removal
pub mod Serial
use launch_pad.Prelude.{
  ℕ, String, Bool, true, false, not, ◌&&◌, ◌≡◌, Option, none, some, List, [], ◌∷◌, str_eq, ◌==◌,
  length, filter, find?, if◌then◌else◌, Result, ok, err,
}
use launch_pad.Capacity.{check_capacity}
use launch_pad.Service.{ServiceConfig, DesiredState}
use launch_pad.Registry.{NodeRegistryEntry}
use launch_pad.Candidates.{demands_of}
use launch_pad.Candidates.Admission.{admission_input}
use launch_pad.Merge.{MergeError, merge_project_services, merge_project_services_partial}
use launch_pad.Undeploy.{services_after_removal}
use launch_pad.Publish.{
  Stored, Attempt, stored, precondition_failed, not_found, put_answer, state_of, attempts_from,
  max_publish_retries,
}

pub data WriteError : Type 0 where
  state_unparsed write_failed : WriteError
  already_running : (run_id : String) → WriteError
  job_merge_failed : MergeError → WriteError
  racing : (node_id : String) → WriteError

-- What an attempt makes of the state that it read: nothing to do, the services to write, or an error.
pub data Decision : Type 0 where
  nothing : Decision
  write : List ServiceConfig → Decision
  fail : WriteError → Decision

-- How a writer ends: with nothing written, or with services in place of an object. The version,
-- node and time that are written beside them are left out.
pub data Wrote (Body : Type 0) : Type 0 where
  unchanged : Wrote Body
  wrote : (replaced : Stored Body) (services : List ServiceConfig) → Wrote Body

-- A removal that leaves the list as long as it was is none.
abbrev pub removal : List ServiceConfig → List ServiceConfig → Decision
removal existing services = if length services == length existing then nothing else write services

unfoldable pub decide_removal : String → Option (List String) → Option DesiredState → Decision
decide_removal owner_project remove_set none = fail state_unparsed
decide_removal owner_project remove_set (some state) =
    removal state.services (services_after_removal state.services owner_project remove_set)

abbrev pub is_service : String → String → ServiceConfig → Bool
is_service project service s = str_eq s.project project && str_eq s.service service

-- `s.jobRun?.id === runId`
abbrev pub is_run : String → ServiceConfig → Bool
is_run run_id s = elim s.job_run [ none ↦ false | some run ↦ str_eq run.id run_id ]

-- The run that stands in the way of the incoming one.
unfoldable pub other_run : Option ServiceConfig → ServiceConfig → Option String
other_run none incoming = none
other_run (some current) incoming = elim current.job_run [
  | none ↦ none
  | some run ↦ if is_run run.id incoming then none else some run.id
]

abbrev pub job_merge : Result MergeError (List ServiceConfig) → Decision
job_merge (ok services) = write services
job_merge (err e) = fail (job_merge_failed e)

abbrev pub unless_running : Option String → Decision → Decision
unless_running none decision = decision
unless_running (some run_id) decision = fail (already_running run_id)

unfoldable pub decide_job_run : ServiceConfig → List ServiceConfig → Decision
decide_job_run incoming existing =
    let current = find? (is_service incoming.project incoming.service) existing in
    unless_running (other_run current incoming)
      (job_merge (merge_project_services_partial existing incoming.project (incoming ∷ [])))

unfoldable pub decide_job_removal : String → String → String → List ServiceConfig → Decision
decide_job_removal owner_project job_name run_id existing =
    removal existing
      (filter (λ s. not (is_service owner_project job_name s && is_run run_id s)) existing)

module _ {Body : Type 0} (etag : Body → String) (parse : Body → Option DesiredState) where
  -- The end of an attempt, from the decision on; `again` are the attempts after it.
  unfoldable pub finish :
      Attempt Body → Result WriteError (Wrote Body) → Decision → Result WriteError (Wrote Body)
  finish a again nothing = ok unchanged
  finish a again (fail e) = err e
  finish a again (write services) = elim (put_answer etag parse a.at_read a.at_write) [
    | stored ↦ ok (wrote a.at_write services)
    | precondition_failed ↦ again
    | not_found ↦ err write_failed
  ]

  -- Where there is no object there is nothing to remove.
  abbrev if_there : (Body → Decision) → Stored Body → Decision
  if_there decide none = nothing
  if_there decide (some body) = decide body

  module _ (node_id : String) where
    unfoldable pub write_from :
        (Attempt Body → Decision) → List (Attempt Body) → Result WriteError (Wrote Body)
    write_from decide [] = err (racing node_id)
    write_from decide (a ∷ attempts) =
        let again = write_from decide attempts in finish a again (decide a)

    unfoldable pub publish_removal :
        String → Option (List String) → (ℕ → Attempt Body) → Result WriteError (Wrote Body)
    publish_removal owner_project remove_set env =
        write_from
          (λ a. if_there (λ body. decide_removal owner_project remove_set (parse body)) a.at_read)
          (attempts_from env max_publish_retries 0)

    unfoldable pub publish_job_run :
        ServiceConfig → (ℕ → Attempt Body) → Result WriteError (Wrote Body)
    publish_job_run incoming env =
        write_from
          (λ a. decide_job_run incoming (state_of etag parse node_id a.now a.at_read).services)
          (attempts_from env max_publish_retries 0)

    unfoldable pub remove_job_run :
        String → String → String → (ℕ → Attempt Body) → Result WriteError (Wrote Body)
    remove_job_run owner_project job_name run_id env =
        write_from
          (λ a.
            if_there
              (λ body.
                decide_job_removal owner_project job_name run_id
                  (state_of etag parse node_id a.now (some body)).services)
              a.at_read)
          (attempts_from env max_publish_retries 0)

-- One write to a node's services, by a writer for one project.
pub data Step (node : NodeRegistryEntry) (project : String)
    : List ServiceConfig → List ServiceConfig → Type 0 where
  deployed :
      {before after : List ServiceConfig} (incoming : List ServiceConfig)
      → merge_project_services before project incoming ≡ ok after
      → (check_capacity (admission_input node (demands_of after))).ok ≡ true
      → Step node project before after
  deployed_partly :
      {before after : List ServiceConfig} (incoming : List ServiceConfig)
      → merge_project_services_partial before project incoming ≡ ok after
      → (check_capacity (admission_input node (demands_of after))).ok ≡ true
      → Step node project before after
  removed :
      {before : List ServiceConfig} (names : Option (List String))
      → Step node project before (services_after_removal before project names)
  job_started :
      {before after : List ServiceConfig} (incoming : ServiceConfig)
      → str_eq incoming.project project ≡ true
      → decide_job_run incoming before ≡ write after
      → Step node project before after
  job_removed :
      {before after : List ServiceConfig} (job_name run_id : String)
      → decide_job_removal project job_name run_id before ≡ write after
      → Step node project before after

-- A history of writes, of any projects in any order.
pub data History (node : NodeRegistryEntry)
    : List String → List ServiceConfig → List ServiceConfig → Type 0 where
  start : {services : List ServiceConfig} → History node [] services services
  next :
      {projects : List String} {first before after : List ServiceConfig} {project : String}
      → History node projects first before
      → Step node project before after
      → History node (project ∷ projects) first after
