-- ===== src/Tests/Writers.antt =====
-- Removals and job runs on a node that two projects share.
use launch_pad.Prelude.{
  if◌then◌else◌, zero, suc, ℕ, String, Option, none, some, [], ◌∷◌, ◌≡◌, refl, filter, Distinct,
  contains, ok, false, str_eq,
}
use launch_pad.Service.{ServiceConfig, DesiredState}
use launch_pad.Merge.{
  is_owned, merge_project_services_partial, assert_owned, assert_no_duplicates, no_duplicates_from,
  service_key, by_service_from, replace_all, applied_names,
}
use launch_pad.Merge.Full.{keys_of}
use launch_pad.Undeploy.{services_after_removal, should_remove}
use launch_pad.Publish.{Attempt, state_of, put_answer, attempts_from}
use launch_pad.History.{
  Step, History, start, next, removed, wrote, publish_removal, publish_job_run, remove_job_run,
  write_from, finish, decide_removal, decide_job_run, decide_job_removal, other_run,
}
use launch_pad.History.Invariant.{History-preserves}
use launch_pad.History.Removal.{IsRemoval}
use launch_pad.History.Serial.{
  services_in, publish_removal-IsRemoval, publish_job_run-Step, remove_job_run-Step,
}
use launch_pad.Tests.Merge.{shared_node, api, shop, web}
use launch_pad.Tests.Publish.{parse_body}
use launch_pad.Tests.Placement.{entry_of}

-- The first attempt loses its race.
abbrev lost_race : ℕ → Attempt String
lost_race zero = record { at_read = some "v2"; at_write = some "v1"; now = "t0" }
lost_race (suc k) = record { at_read = some "v2"; at_write = some "v2"; now = "t1" }

abbrev migrate : ServiceConfig
migrate = record {
  project = "blog";
  service = "migrate";
  image = "img";
  cpu = 128;
  memory = 64;
  replicas = 1;
  env = [];
  secret_refs = [];
  restart_at = none;
  cron = none;
  ingress = none;
  health_check = none;
  rollout = record { max_surge = 1; drain_timeout = "20s"; stop_grace = "30s" };
  volumes = [];
  database = none;
  backup = none;
  job_run = some (record { id = "run-1"; requested_at = "t0" });
}

abbrev parse_jobs : String → Option DesiredState
parse_jobs body =
    if str_eq body "v2"
    then some
        (record { version = 3; node_id = "a"; updated_at = ""; services = migrate ∷ shop ∷ [] })
    else none

removal_runs :
    publish_removal (λ b. b) parse_body "a" "blog" (some ("web" ∷ [])) lost_race
    ≡ ok (wrote (some "v2") (api ∷ shop ∷ []))
unfolding publish_removal write_from finish decide_removal services_after_removal should_remove
    put_answer attempts_from
removal_runs = refl

publish_removal-IsRemoval_example :
    IsRemoval (λ b. b) parse_body "blog" (some ("web" ∷ [])) (some "v2") (api ∷ shop ∷ [])
publish_removal-IsRemoval_example =
    publish_removal-IsRemoval (λ b. b) parse_body (λ a b e. e) "a" "blog" (some ("web" ∷ []))
      lost_race (some "v2") (api ∷ shop ∷ []) removal_runs

job_runs :
    publish_job_run (λ b. b) parse_body "a" migrate lost_race
    ≡ ok (wrote (some "v2") (api ∷ shop ∷ web ∷ migrate ∷ []))
unfolding publish_job_run write_from finish decide_job_run other_run merge_project_services_partial
    assert_owned assert_no_duplicates no_duplicates_from service_key by_service_from replace_all
    applied_names put_answer attempts_from state_of
job_runs = refl

publish_job_run-Step_example :
    (now : String) × Step
      (entry_of "a")
      "blog"
      (services_in (λ b. b) parse_body (λ a b e. e) (some "v2") "a" now)
      (api ∷ shop ∷ web ∷ migrate ∷ [])
publish_job_run-Step_example =
    publish_job_run-Step (λ b. b) parse_body (λ a b e. e) "a" (entry_of "a") migrate lost_race
      (some "v2") (api ∷ shop ∷ web ∷ migrate ∷ []) job_runs

ends :
    remove_job_run (λ b. b) parse_jobs "a" "blog" "migrate" "run-1" lost_race
    ≡ ok (wrote (some "v2") (shop ∷ []))
unfolding remove_job_run write_from finish decide_job_removal put_answer attempts_from state_of
ends = refl

remove_job_run-Step_example :
    (now : String) × Step
      (entry_of "a")
      "blog"
      (services_in (λ b. b) parse_jobs (λ a b e. e) (some "v2") "a" now)
      (shop ∷ [])
remove_job_run-Step_example =
    remove_job_run-Step (λ b. b) parse_jobs (λ a b e. e) "a" (entry_of "a") "blog" "migrate" "run-1"
      lost_race (some "v2") (shop ∷ []) ends

shared_node-Distinct : Distinct (keys_of shared_node)
unfolding service_key
shared_node-Distinct = (refl, (refl, (refl, tt)))

two_removals :
    History
      (entry_of "a")
      ("shop" ∷ "blog" ∷ [])
      shared_node
      (services_after_removal (services_after_removal shared_node "blog" none) "shop" none)
two_removals = next (next start (removed none)) (removed none)

History-preserves_example :
    Distinct (
      keys_of (services_after_removal (services_after_removal shared_node "blog" none) "shop" none))
    × ((project : String)
        → contains project ("shop" ∷ "blog" ∷ []) ≡ false
        → filter
            (is_owned project)
            (services_after_removal (services_after_removal shared_node "blog" none) "shop" none)
          ≡ filter (is_owned project) shared_node)
History-preserves_example =
    History-preserves (entry_of "a") ("shop" ∷ "blog" ∷ []) shared_node
      (services_after_removal (services_after_removal shared_node "blog" none) "shop" none)
      two_removals shared_node-Distinct
