-- ===== src/ChangedServices.antt =====
-- packages/cli/src/deploy/changed-services.ts: the services whose build inputs differ from a git
-- commit. Git is a parameter, which gives the output of a call or fails; so are `resolve` and `relative` of
-- node:path, as the resolved paths of each service. Texts are lists of code points.
pub mod Selected
use launch_pad.Prelude.{
  Result, ok, err, ◌>>=◌, ◌==◌, leb, ℕ, Bool, not, ◌&&◌, ◌||◌, Option, none, some, List, [], ◌∷◌,
  ◌++◌, map, if◌then◌else◌, filter, all, any, length,
}
use launch_pad.Prelude.Text.{Text, codes, same_text, starts_with, is_empty_text, is_digit, split_at}
use launch_pad.Cron.{is_space}

pub record ServiceBuildPaths : Type 0 where
  pub name : Text
  pub context_dir : Text
  pub dockerfile : Text

-- 92 is the backslash.
unfoldable pub to_slash : Text → Text
to_slash path = map (λ c. if c == 92 then b'/' else c) path

unfoldable pub is_within : Text → Text → Bool
is_within path dir = is_empty_text dir || same_text path dir || starts_with (dir ++ b'/' ∷ []) path

abbrev pub is_input : ServiceBuildPaths → Text → Bool
is_input s p = same_text p s.dockerfile || is_within p s.context_dir

unfoldable pub select_changed_services : List ServiceBuildPaths → List Text → List Text
select_changed_services services changed_paths =
    let paths = filter (λ p. not (is_empty_text p)) (map to_slash changed_paths) in
    map (λ s. s.name) (filter (λ s. any (is_input s) paths) services)

-- `text.trim()`
unfoldable pub trim_start : Text → Text
trim_start [] = []
trim_start (c ∷ s) = if is_space c then trim_start s else c ∷ s

unfoldable pub trim_end : Text → Text
trim_end [] = []
trim_end (c ∷ s) =
    let rest = trim_end s in if is_empty_text rest && is_space c then [] else c ∷ rest

unfoldable pub trim : Text → Text
trim text = trim_end (trim_start text)

unfoldable pub split_lines : Text → List Text
split_lines out = filter (λ l. not (is_empty_text l)) (map trim (split_at (λ c. c == 10) out))

abbrev pub is_hex : ℕ → Bool
is_hex c = is_digit c || leb b'a' c && leb c b'f'

-- `SHA_RE`
unfoldable pub is_sha : Text → Bool
is_sha text = all is_hex text && (length text == 40 || length text == 64)

pub data RefError : Type 0 where
  option_like unresolved git_failed : RefError

-- `new Set(paths)`
unfoldable pub set_of : List Text → List Text → List Text
set_of seen [] = seen
set_of seen (p ∷ ps) = set_of (if any (same_text p) seen then seen else seen ++ p ∷ []) ps

abbrev pub rev_parse : Text → List Text
rev_parse ref =
    codes "rev-parse" ∷ codes "--verify" ∷ codes "--quiet" ∷ (ref ++ codes "^{commit}") ∷ []

abbrev pub diff : Text → List Text
diff sha = codes "diff" ∷ codes "--name-only" ∷ sha ∷ codes "--" ∷ []

abbrev pub ls_files : List Text
ls_files = codes "ls-files" ∷ codes "--others" ∷ codes "--exclude-standard" ∷ codes "--" ∷ []

unfoldable pub resolved_ref : Option Text → Result RefError Text
resolved_ref none = err unresolved
resolved_ref (some out) = if is_sha (trim out) then ok (trim out) else err unresolved

unfoldable pub lines_of : Option Text → Result RefError (List Text)
lines_of none = err git_failed
lines_of (some out) = ok (split_lines out)

module _ (git : List Text → Option Text) where
  unfoldable pub resolve_ref : Text → Result RefError Text
  resolve_ref ref =
      if starts_with (codes "-") ref then err option_like else resolved_ref (git (rev_parse ref))

  unfoldable pub collect_changed_paths : Text → Result RefError (List Text)
  collect_changed_paths ref = resolve_ref ref >>= λ sha. lines_of (git (diff sha)) >>= λ changed.
      lines_of (git ls_files) >>= λ untracked. ok (set_of [] (map to_slash (changed ++ untracked)))
