-- ===== src/Tests/Changed.antt =====
-- `deploy --changed` with a git that knows one branch.
use launch_pad.Prelude.{
  ok, err, Bool, true, false, ◌&&◌, Option, none, some, List, [], ◌∷◌, ◌++◌, map, ◌≡◌, refl, ◌↔◌,
  if◌then◌else◌,
}
use launch_pad.Prelude.Occurs.{Occurs}
use launch_pad.Prelude.Text.{Text, codes, same_text, starts_with, split_at}
use launch_pad.ChangedServices.{
  ServiceBuildPaths, to_slash, is_within, select_changed_services, trim, trim_start, trim_end,
  split_lines, is_sha, set_of, rev_parse, diff, ls_files, resolved_ref, resolve_ref, lines_of,
  collect_changed_paths, option_like,
}
use launch_pad.ChangedServices.Selected.{IsChanged, collect_changed_paths-selects}

abbrev commit : Text
commit = codes "0123456789abcdef0123456789abcdef01234567"

abbrev same_call : List Text → List Text → Bool
same_call [] [] = true
same_call (a ∷ as') (b ∷ bs) = same_text a b && same_call as' bs
same_call _ _ = false

abbrev git : List Text → Option Text
git call =
    if same_call call (rev_parse (codes "main"))
    then some (commit ++ 10 ∷ [])
    else if same_call call (diff commit)
    then some (codes "api/src/a.ts" ++ 10 ∷ [])
    else if same_call call ls_files
    then some []
    else none

abbrev services : List ServiceBuildPaths
services =
    record { name = codes "api"; context_dir = codes "api"; dockerfile = codes "api/Dockerfile" }
    ∷ record { name = codes "ap"; context_dir = codes "ap"; dockerfile = codes "ap/Dockerfile" }
    ∷ []

collected : collect_changed_paths git (codes "main") ≡ ok (codes "api/src/a.ts" ∷ [])
unfolding collect_changed_paths resolve_ref resolved_ref lines_of split_lines trim trim_start
    trim_end is_sha set_of to_slash starts_with split_at
collected = refl

selected : select_changed_services services (codes "api/src/a.ts" ∷ []) ≡ codes "api" ∷ []
unfolding select_changed_services to_slash is_within starts_with
selected = refl

no_option : collect_changed_paths git (codes "--output=x") ≡ err option_like
unfolding collect_changed_paths resolve_ref starts_with
no_option = refl

collect_changed_paths-selects_example :
    (sha changed untracked : Text) × (is_sha sha ≡ true)
    × (git (diff sha) ≡ some changed)
    × (git ls_files ≡ some untracked)
    × ((name : Text)
        → Occurs name (select_changed_services services (codes "api/src/a.ts" ∷ []))
          ↔ IsChanged services (map to_slash (split_lines changed ++ split_lines untracked)) name)
collect_changed_paths-selects_example =
    collect_changed_paths-selects git (codes "main") (codes "api/src/a.ts" ∷ []) services collected
