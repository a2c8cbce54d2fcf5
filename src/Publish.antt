-- ===== src/Publish.antt =====
-- `publishDesired` of packages/cli/src/commands/deploy.ts: read, merge, admission check and
-- conditional write of a node's desired.json, tried again after a concurrent write.
-- S3 is a parameter: the ETag of a body, and what is stored at each of the two requests of an attempt,
-- since other writers may come between. A body that does not parse is one with no state.
pub mod Laws
use launch_pad.Prelude.{
  ℕ, zero, suc, String, Bool, Option, none, some, List, [], ◌∷◌, str_eq, if◌then◌else◌, Result, ok,
  err,
}
use launch_pad.Capacity.{check_capacity}
use launch_pad.Service.{ServiceConfig, DesiredState, empty_desired_state, protocol_version}
use launch_pad.Registry.{NodeRegistryEntry}
use launch_pad.Candidates.{demands_of}
use launch_pad.Candidates.Admission.{admission_input}
use launch_pad.Merge.{MergeError, merge_project_services, merge_project_services_partial}

abbrev pub max_publish_retries : ℕ
max_publish_retries = 5

pub data PublishError : Type 0 where
  merge_failed : MergeError → PublishError
  no_capacity : String → PublishError
  put_failed : PublishError
  racing : String → PublishError

-- How S3 answers a conditional write.
pub data PutAnswer : Type 0 where
  stored precondition_failed not_found : PutAnswer

-- The object at the key: none, or its body.
abbrev pub Stored : Type 0 → Type 0
Stored Body = Option Body

-- What one attempt meets: the object that is read, the object when the write arrives, and the clock.
pub record Attempt (Body : Type 0) : Type 0 where
  pub at_read : Stored Body
  pub at_write : Stored Body
  pub now : String

-- What a publish leaves: nothing written, or the object that it replaced and the state written.
pub data Written (Body : Type 0) : Type 0 where
  written : (replaced : Stored Body) (next : DesiredState) → Written Body

-- `env k` is what the `k`-th attempt meets.
unfoldable pub attempts_from : {A : Type 0} → (ℕ → A) → ℕ → ℕ → List A
attempts_from env zero k = []
attempts_from env (suc left) k = env k ∷ attempts_from env left (suc k)

module _ {Body : Type 0} (etag : Body → String) (parse : Body → Option DesiredState) where
  -- `parseDesiredStateOrEmpty`, and `emptyDesiredState` where there is no object.
  unfoldable pub state_of : String → String → Stored Body → DesiredState
  state_of node_id now none = empty_desired_state node_id now
  state_of node_id now (some body) = elim (parse body) [
    | none ↦ empty_desired_state node_id now
    | some state ↦ state
  ]

  -- `If-Match: etag`, or `If-None-Match: *` where nothing was read. Where the object that was read is
  -- gone, S3 answers 404, which the program throws on.
  unfoldable pub put_answer : Stored Body → Stored Body → PutAnswer
  put_answer none none = stored
  put_answer none (some _) = precondition_failed
  put_answer (some _) none = not_found
  put_answer (some body) (some current) =
      if str_eq (etag body) (etag current) then stored else precondition_failed

  unfoldable pub merged_services :
      Bool
      → List ServiceConfig
      → String
      → List ServiceConfig
      → Result MergeError (List ServiceConfig)
  merged_services partial existing project incoming =
      if partial
      then merge_project_services_partial existing project incoming
      else merge_project_services existing project incoming

  abbrev pub next_state : String → String → List ServiceConfig → DesiredState
  next_state node_id now services = record {
    version = protocol_version;
    node_id = node_id;
    updated_at = now;
    services = services;
  }

  module _ (node_id : String) (node : NodeRegistryEntry) (project : String)
      (incoming : List ServiceConfig) (partial : Bool) where
    unfoldable pub after_put :
        Attempt Body
        → Result PublishError (Written Body)
        → List ServiceConfig
        → PutAnswer
        → Result PublishError (Written Body)
    after_put a again merged stored = ok (written a.at_write (next_state node_id a.now merged))
    after_put a again merged precondition_failed = again
    after_put a again merged not_found = err put_failed

    -- The end of an attempt, from the merge on; `again` are the attempts after it.
    unfoldable pub admit :
        Attempt Body
        → Result PublishError (Written Body)
        → Result MergeError (List ServiceConfig)
        → Result PublishError (Written Body)
    admit a again (err e) = err (merge_failed e)
    admit a again (ok merged) =
        if (check_capacity (admission_input node (demands_of merged))).ok
        then after_put a again merged (put_answer a.at_read a.at_write)
        else err (no_capacity node_id)

    -- The loop over the attempts that are left.
    unfoldable pub publish_from : List (Attempt Body) → Result PublishError (Written Body)
    publish_from [] = err (racing node_id)
    publish_from (a ∷ attempts) =
        let again = publish_from attempts in
        admit a again
          (merged_services partial (state_of node_id a.now a.at_read).services project incoming)

    unfoldable pub publish_desired : (ℕ → Attempt Body) → Result PublishError (Written Body)
    publish_desired env = publish_from (attempts_from env max_publish_retries 0)
