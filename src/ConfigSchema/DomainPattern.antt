-- ===== src/ConfigSchema/DomainPattern.antt =====
-- `domainPatternError` and `resolveServiceDomain` of packages/shared/src/config.ts, on texts. An
-- environment's name is a label, so the `$` of a replacement text has no part in it.
pub mod Tokens
pub mod Environments
use launch_pad.Prelude.{
  ℕ, zero, suc, Bool, not, Option, none, some, List, [], ◌∷◌, ◌++◌, ◌==◌, if◌then◌else◌, all, any,
  Result, ok, err,
}
use launch_pad.Prelude.Text.{Text, codes, same_text, starts_with}
use launch_pad.ConfigSchema.Formats.{is_hostname}

-- `[...pattern.matchAll(/\{([^}]*)\}/g)].map((m) => m[1])`: behind the part of a token that is read,
-- or outside of one.
unfoldable pub tokens_from : Option Text → Text → List Text
tokens_from token [] = []
tokens_from none (c ∷ s) = if c == b'{' then tokens_from (some []) s else tokens_from none s
tokens_from (some seen) (c ∷ s) =
    if c == b'}' then seen ∷ tokens_from none s else tokens_from (some (seen ++ c ∷ [])) s

abbrev pub tokens_of : Text → List Text
tokens_of pattern = tokens_from none pattern

unfoldable pub is_token : Text → Bool
is_token t = any (same_text t) (codes "env" ∷ codes "service" ∷ [])

abbrev pub env_token : Text
env_token = codes "{env}"

abbrev pub service_token : Text
service_token = codes "{service}"

-- `pattern.replace(/\{(env|service)\}/g, …)`, behind a token of which `skip` characters are left.
unfoldable pub replace_tokens : Text → Text → ℕ → Text → Text
replace_tokens env service skip [] = []
replace_tokens env service (suc skip) (c ∷ s) = replace_tokens env service skip s
replace_tokens env service zero (c ∷ s) =
    if starts_with env_token (c ∷ s)
    then env ++ replace_tokens env service 4 s
    else if starts_with service_token (c ∷ s)
    then service ++ replace_tokens env service 8 s
    else c ∷ replace_tokens env service 0 s

pub data PatternError : Type 0 where
  unknown_tokens no_env_token not_a_hostname : PatternError

unfoldable pub domain_pattern_error : Text → Option PatternError
domain_pattern_error pattern =
    if not (all is_token (tokens_of pattern))
    then some unknown_tokens
    else if not (any (same_text (codes "env")) (tokens_of pattern))
    then some no_env_token
    else if not (is_hostname (replace_tokens (codes "a") (codes "a") 0 pattern))
    then some not_a_hostname
    else none

pub record ServiceDomainInput : Type 0 where
  pub domain : Option Text
  pub domain_pattern : Option Text
  pub service : Text

-- `.replace(/^([^.]+)/, …)`: the environment joins the first label, if there is one.
unfoldable pub behind_label : Text → Text → Text
behind_label env [] = b'-' ∷ env
behind_label env (c ∷ s) = if c == b'.' then b'-' ∷ env ++ c ∷ s else c ∷ behind_label env s

unfoldable pub with_env : Text → Text → Text
with_env env [] = []
with_env env (c ∷ s) = if c == b'.' then c ∷ s else c ∷ behind_label env s

-- An empty pattern counts as none.
unfoldable pub projected_domain : Text → Option Text → Text → Text → Text
projected_domain domain none service env = with_env env domain
projected_domain domain (some []) service env = with_env env domain
projected_domain domain (some (c ∷ s)) service env = replace_tokens env service 0 (c ∷ s)

pub data DomainError : Type 0 where
  projected_not_a_hostname : (projected service env : Text) → DomainError

unfoldable pub if_hostname : Text → Text → Text → Result DomainError (Option Text)
if_hostname projected service env =
    if is_hostname projected
    then ok (some projected)
    else err (projected_not_a_hostname projected service env)

unfoldable pub resolve_for : ServiceDomainInput → Text → Text → Result DomainError (Option Text)
resolve_for input domain env =
    if_hostname (projected_domain domain input.domain_pattern input.service env) input.service env

unfoldable pub resolve_service_domain :
    ServiceDomainInput → Option Text → Result DomainError (Option Text)
resolve_service_domain input none = ok input.domain
resolve_service_domain input (some env) = elim input.domain [
  | none ↦ ok none
  | some domain ↦ resolve_for input domain env
]
