-- ===== src/History/Serial.antt =====
-- A removal or a job's write stands on the object that it replaces.
use launch_pad.Prelude.{
  Result, ok, err, ℕ, String, Option, none, some, List, [], ◌∷◌, ◌≡◌, refl, ap, ◌∙◌,
}
use mathlib.Core.Path.{subst}
use text.Mathlib.TextPositions.{eq_refl}
use launch_pad.Registry.{NodeRegistryEntry}
use launch_pad.Service.{ServiceConfig, DesiredState}
use launch_pad.Publish.{
  Stored, Attempt, PutAnswer, stored, precondition_failed, not_found, put_answer, state_of,
  attempts_from, max_publish_retries,
}
use launch_pad.Publish.Laws.{precondition-same}
use launch_pad.History.{
  Step, job_started, job_removed, Decision, nothing, write, fail, Wrote, wrote, WriteError,
  if_there, finish, write_from, decide_removal, decide_job_run, decide_job_removal, publish_removal,
  publish_job_run, remove_job_run,
}
use launch_pad.History.Removal.{IsRemoval, IsRemoval-of}

module _ {Body : Type 0} (etag : Body → String) (parse : Body → Option DesiredState)
    -- equal ETags are ETags of equal bodies
    (etag_injective : (a b : Body) → etag a ≡ etag b → a ≡ b) where
  -- An attempt that decided on these services and still found the object that it had read.
  abbrev WroteAt : (Attempt Body → Decision) → Stored Body → List ServiceConfig → Type 0
  WroteAt decide replaced services =
      (a : Attempt Body) × (decide a ≡ write services) × (a.at_read ≡ replaced)

  put-WroteAt :
      (decide : Attempt Body → Decision) (a : Attempt Body) (again : Result WriteError (Wrote Body))
      (services : List ServiceConfig) (answer : PutAnswer) (replaced : Stored Body)
      (after : List ServiceConfig)
      → decide a ≡ write services
      → put_answer etag parse a.at_read a.at_write ≡ answer
      → (again ≡ ok (wrote replaced after) → WroteAt decide replaced after)
      → elim answer [
        | stored ↦ ok (wrote a.at_write services)
        | precondition_failed ↦ again
        | not_found ↦ err WriteError.write_failed
      ]
        ≡ ok (wrote replaced after)
      → WroteAt decide replaced after
  put-WroteAt decide a again services stored replaced after d e f h =
      let same : a.at_write ≡ replaced = cc in
      let out : services ≡ after = cc in
      (
        a,
        d ∙ ap write out,
        precondition-same etag parse etag_injective a.at_read a.at_write e ∙ same,
      )
  put-WroteAt decide a again services precondition_failed replaced after d e f h = f h
  put-WroteAt decide a again services not_found replaced after d e f h = absurd (cc)

  finish-WroteAt :
      (decide : Attempt Body → Decision) (a : Attempt Body) (again : Result WriteError (Wrote Body))
      (decision : Decision) (replaced : Stored Body) (after : List ServiceConfig)
      → decide a ≡ decision
      → (again ≡ ok (wrote replaced after) → WroteAt decide replaced after)
      → finish etag parse a again decision ≡ ok (wrote replaced after)
      → WroteAt decide replaced after
  unfolding finish
  finish-WroteAt decide a again nothing replaced after d f h = absurd (cc)
  finish-WroteAt decide a again (fail e) replaced after d f h = absurd (cc)
  finish-WroteAt decide a again (write services) replaced after d f h =
      put-WroteAt decide a again services (put_answer etag parse a.at_read a.at_write) replaced
        after d refl f h

  write_from-WroteAt :
      (node_id : String) (decide : Attempt Body → Decision) (attempts : List (Attempt Body))
      (replaced : Stored Body) (after : List ServiceConfig)
      → write_from etag parse node_id decide attempts ≡ ok (wrote replaced after)
      → WroteAt decide replaced after
  unfolding write_from
  write_from-WroteAt node_id decide [] replaced after h = absurd (cc)
  write_from-WroteAt node_id decide (a ∷ attempts) replaced after h =
      finish-WroteAt decide a (write_from etag parse node_id decide attempts) (decide a) replaced
        after refl (write_from-WroteAt node_id decide attempts replaced after) h

  -- The services that an object holds: what parses, or none.
  abbrev pub services_in : Stored Body → String → String → List ServiceConfig
  services_in object node_id now = (state_of etag parse node_id now object).services

  -- Whatever other writers do between the requests, with an ETag that tells bodies apart: a removal
  -- that writes has replaced an object that parses. What it wrote has fewer services than that same
  -- object: the other projects' ones as they were, in their order, none of the project's with a name
  -- to be removed (each name where none is given), and of the project's other names what was there.
  pub publish_removal-IsRemoval :
      (node_id : String) (owner : String) (names : Option (List String)) (env : ℕ → Attempt Body)
      (replaced : Stored Body) (after : List ServiceConfig)
      → publish_removal etag parse node_id owner names env ≡ ok (wrote replaced after)
      → IsRemoval etag parse owner names replaced after
  unfolding publish_removal
  publish_removal-IsRemoval node_id owner names env replaced after h =
      let (a, decided, same) =
        write_from-WroteAt node_id
          (λ a. if_there etag parse (λ body. decide_removal owner names (parse body)) a.at_read)
          (attempts_from env max_publish_retries 0) replaced after h in
      IsRemoval-of etag parse owner names a.at_read replaced after decided same

  -- Whatever other writers do between the requests, with an ETag that tells bodies apart: a job's
  -- start that writes has replaced an object by a step of the job's project from the services of
  -- that same object.
  pub publish_job_run-Step :
      (node_id : String) (node : NodeRegistryEntry) (incoming : ServiceConfig)
      (env : ℕ → Attempt Body) (replaced : Stored Body) (after : List ServiceConfig)
      → publish_job_run etag parse node_id incoming env ≡ ok (wrote replaced after)
      → (now : String) × Step node incoming.project (services_in replaced node_id now) after
  unfolding publish_job_run
  publish_job_run-Step node_id node incoming env replaced after h =
      let (a, decided, same) =
        write_from-WroteAt node_id
          (λ a. decide_job_run incoming (state_of etag parse node_id a.now a.at_read).services)
          (attempts_from env max_publish_retries 0) replaced after h in
      (
        a.now,
        subst (λ o. Step node incoming.project (services_in o node_id a.now) after) same
            (job_started incoming (eq_refl incoming.project) decided),
      )

  removal_of_job :
      (node_id : String) (node : NodeRegistryEntry) (owner job run now : String)
      (read replaced : Stored Body) (after : List ServiceConfig)
      → if_there etag parse
          (λ body. decide_job_removal owner job run (services_in (some body) node_id now))
          read
        ≡ write after
      → read ≡ replaced
      → Step node owner (services_in replaced node_id now) after
  removal_of_job node_id node owner job run now none replaced after h same = absurd (cc)
  removal_of_job node_id node owner job run now (some body) replaced after h same =
      subst (λ o. Step node owner (services_in o node_id now) after) same (job_removed job run h)

  -- Whatever other writers do between the requests, with an ETag that tells bodies apart: the end of
  -- a job that writes has replaced an object by a step of the job's project from the services of
  -- that same object.
  pub remove_job_run-Step :
      (node_id : String) (node : NodeRegistryEntry) (owner job run : String)
      (env : ℕ → Attempt Body) (replaced : Stored Body) (after : List ServiceConfig)
      → remove_job_run etag parse node_id owner job run env ≡ ok (wrote replaced after)
      → (now : String) × Step node owner (services_in replaced node_id now) after
  unfolding remove_job_run
  remove_job_run-Step node_id node owner job run env replaced after h =
      let (a, decided, same) =
        write_from-WroteAt node_id
          (λ a.
            if_there etag parse
              (λ body. decide_job_removal owner job run (services_in (some body) node_id a.now))
              a.at_read)
          (attempts_from env max_publish_retries 0) replaced after h in
      (a.now, removal_of_job node_id node owner job run a.now a.at_read replaced after decided same)
