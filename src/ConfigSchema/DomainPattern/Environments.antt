-- ===== src/ConfigSchema/DomainPattern/Environments.antt =====
-- Two environments of a service never share a domain.
use launch_pad.Prelude.{
  ok, ◌==◌, ℕ, true, Option, none, some, [], ◌∷◌, ◌≡◌, refl, sym, ◌∙◌, inl, inr, arith, Bool-cases,
  Option-cases,
}
use mathlib.Core.List.{append_cancel_right}
use launch_pad.Prelude.Text.{Text, includes, split_at}
use launch_pad.ConfigSchema.Formats.{is_hostname, is_dns_label, is_between}
use launch_pad.ConfigSchema.DomainPattern.Tokens.{env_outside, replace_tokens-injective}
use launch_pad.ConfigSchema.DomainPattern.{
  env_token, domain_pattern_error, ServiceDomainInput, behind_label, with_env, projected_domain,
  if_hostname, resolve_for, resolve_service_domain,
}

accepted_env : (p : Text) → domain_pattern_error p ≡ none → includes env_token p ≡ true
unfolding domain_pattern_error
accepted_env p h = env_outside p (ground arith)

behind_label-injective : (e f s : Text) → behind_label e s ≡ behind_label f s → e ≡ f
unfolding behind_label
behind_label-injective e f [] h = cc
behind_label-injective e f (c ∷ s) h = elim (Bool-cases (c == b'.')) [
  | inl i ↦ append_cancel_right e f (c ∷ s) (let k = rw i at h in cc)
  | inr i ↦ behind_label-injective e f s (let k = rw i at h in cc)
]

empty_name : is_hostname [] ≡ true → ⊥
unfolding is_hostname split_at
empty_name h = ground arith

dotted_name : (c : ℕ) (s : Text) → (c == b'.') ≡ true → is_hostname (c ∷ s) ≡ true → ⊥
unfolding is_hostname split_at is_dns_label is_between
dotted_name c s i h = let k = rw i at h in ground arith

with_env-injective :
    (e f domain : Text) → is_hostname domain ≡ true → with_env e domain ≡ with_env f domain → e ≡ f
unfolding with_env
with_env-injective e f [] name h = absurd (empty_name name)
with_env-injective e f (c ∷ s) name h = elim (Bool-cases (c == b'.')) [
  | inl i ↦ absurd (dotted_name c s i name)
  | inr i ↦ behind_label-injective e f s (let k = rw i at h in cc)
]

projected_domain-injective :
    (domain : Text) (pattern : Option Text) (service e f : Text)
    → is_hostname domain ≡ true
    → ((p : Text) → pattern ≡ some p → domain_pattern_error p ≡ none)
    → projected_domain domain pattern service e ≡ projected_domain domain pattern service f
    → e ≡ f
unfolding projected_domain
projected_domain-injective domain none service e f name valid h =
    with_env-injective e f domain name h
projected_domain-injective domain (some []) service e f name valid h =
    with_env-injective e f domain name h
projected_domain-injective domain (some (c ∷ p)) service e f name valid h =
    replace_tokens-injective e f service (c ∷ p) (accepted_env (c ∷ p) (valid (c ∷ p) refl)) h

if_hostname-eq :
    (projected service env : Text) {x : Text}
    → if_hostname projected service env ≡ ok (some x)
    → (projected ≡ x) × (is_hostname x ≡ true)
unfolding if_hostname
if_hostname-eq projected service env {x} h = elim (Bool-cases (is_hostname projected)) [
  | inl e ↦ let same : projected ≡ x = let k = rw e at h in cc in (same, rw (sym same) e)
  | inr e ↦ absurd (let k = rw e at h in cc)
]

-- Two environments never share a service's domain: the domain that an environment's name is put
-- into is a hostname, and no other environment's name makes the same one. The service's own domain is
-- a hostname, and its pattern, if it has one, is one that `domainPatternError` accepts.
pub resolve_service_domain-injective :
    (input : ServiceDomainInput) (e f x : Text)
    → ((d : Text) → input.domain ≡ some d → is_hostname d ≡ true)
    → ((p : Text) → input.domain_pattern ≡ some p → domain_pattern_error p ≡ none)
    → resolve_service_domain input (some e) ≡ ok (some x)
    → resolve_service_domain input (some f) ≡ ok (some x)
    → (is_hostname x ≡ true) × (e ≡ f)
unfolding resolve_service_domain resolve_for
resolve_service_domain-injective input e f x named valid h k = elim (Option-cases input.domain) [
  | inl i ↦ absurd (let h' = rw i at h in cc)
  | inr (d, i) ↦
      let (pe, name) = if_hostname-eq _ _ _ (rw i at h) in
      let (pf, _) = if_hostname-eq _ _ _ (rw i at k) in
      (
        name,
        projected_domain-injective d input.domain_pattern input.service e f (named d i) valid
            (pe ∙ sym pf),
      )
]
