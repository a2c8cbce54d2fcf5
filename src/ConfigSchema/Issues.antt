-- ===== src/ConfigSchema/Issues.antt =====
-- What a schema reports: zod's list of issues, each with its path. A refinement adds to the issues of
-- the fields; none at all means that the value is accepted. Numbers are natural, so `.int()` holds.
pub mod Silence
use launch_pad.Prelude.{
  ℕ, suc, String, Bool, true, false, List, [], ◌∷◌, ◌++◌, map, Option, none, some, leb,
}
use launch_pad.Prelude.Text.{Text, codes}
use launch_pad.Cron.{CronError}
use launch_pad.ConfigSchema.Formats.{VolumePathError}
use launch_pad.ConfigSchema.DomainPattern.{PatternError}

pub data Key : Type 0 where
  field : String → Key
  index : ℕ → Key

pub data IssueKind : Type 0 where
  invalid_string too_small too_big : IssueKind
  bad_volume_path : VolumePathError → IssueKind
  bad_domain_pattern : PatternError → IssueKind
  bad_cron : CronError → IssueKind
  never_fires serves_and_manages no_database_volume backup_without_database : IssueKind
  domain_without_port pattern_without_domain cron_with_domain cron_with_health_check : IssueKind
  cron_with_replicas web_without_health_check : IssueKind
  duplicate_volume_name duplicate_volume_path : String → IssueKind
  separator_inside : IssueKind
  duplicate_service colliding_database colliding_job : String → IssueKind

pub record Issue : Type 0 where
  pub path : List Key
  pub kind : IssueKind

-- `ctx.addIssue({ path, … })`
abbrev pub add_issue : List Key → IssueKind → List Issue
add_issue path kind = record { path = path; kind = kind } ∷ []

unfoldable pub issue_if : Bool → List Key → IssueKind → List Issue
issue_if true path kind = add_issue path kind
issue_if false path kind = []

unfoldable pub issue_unless : Bool → List Key → IssueKind → List Issue
issue_unless true path kind = []
issue_unless false path kind = add_issue path kind

-- The issues of a part of the value, under its key.
abbrev pub within : Key → Issue → Issue
within key issue = record { path = key ∷ issue.path; kind = issue.kind }

abbrev pub under : Key → List Issue → List Issue
under key issues = map (within key) issues

-- The issues of the parts of a value, one part behind the other.
unfoldable pub joined : List (List Issue) → List Issue
joined [] = []
joined (part ∷ parts) = part ++ joined parts

unfoldable pub each_from {ℓ} : {A : Type ℓ} → (A → List Issue) → ℕ → List A → List Issue
each_from issues i [] = []
each_from issues i (x ∷ xs) = under (index i) (issues x) ++ each_from issues (suc i) xs

-- `z.array(…)`
unfoldable pub each {ℓ} : {A : Type ℓ} → (A → List Issue) → List A → List Issue
each issues xs = each_from issues 0 xs

-- `.optional()`
unfoldable pub if_given {ℓ} : {A : Type ℓ} → (A → List Issue) → Option A → List Issue
if_given issues none = []
if_given issues (some x) = issues x

-- `z.string().regex(…)`
unfoldable pub matches : (Text → Bool) → String → List Issue
matches test s = issue_unless (test (codes s)) [] invalid_string

-- `z.number().min(low)`, and with `.max(high)`
unfoldable pub at_least : ℕ → ℕ → List Issue
at_least low n = issue_unless (leb low n) [] too_small

unfoldable pub in_range : ℕ → ℕ → ℕ → List Issue
in_range low high n = at_least low n ++ issue_unless (leb n high) [] too_big
