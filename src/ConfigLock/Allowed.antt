-- ===== src/ConfigLock/Allowed.antt =====
-- What the config lock lets through.
use launch_pad.Prelude.{
  String, Bool, true, false, Option, none, some, List, [], ◌∷◌, ◌++◌, ◌≡◌, refl, ap, ◌↔◌, ◌⊎◌, inl,
  inr, arith, eq_iff, Bool-cases, Option-cases, Dict, get, keys, contains, str_eq, All,
}
use mathlib.Core.Path.{subst}
use text.Mathlib.TextEquality.{eq_iff}
use launch_pad.ConfigLock.StableJson.{Json}
use launch_pad.ConfigLock.Identity.{SameIdentity, identity_changed_iff}
use launch_pad.ConfigLock.{
  BaselineService, ConfigBaseline, ConfigLockCompareOptions, identity_changed, by_name,
  removed_services, added_services, changed_services, outcomes_of, project_violations,
  component_violations, same_component, find_config_lock_violations,
}

project_violations_iff :
    (baseline current : ConfigBaseline)
    → (project_violations baseline current ≡ []) ↔ (baseline.project ≡ current.project)
unfolding project_violations
project_violations_iff baseline current =
    elim (Bool-cases (str_eq baseline.project current.project)) [
      | inl e ↦ rw e (λ _. ground (arith, eq_iff baseline.project current.project), λ _. refl)
      | inr e ↦
          rw e (
            λ h. absurd (cc),
            λ h. absurd (ground (arith, eq_iff baseline.project current.project)),
          )
    ]

same_component_iff : (a b : Option String) → (same_component a b ≡ true) ↔ (a ≡ b)
same_component_iff none none = (λ _. refl, λ _. refl)
same_component_iff none (some b) = (λ h. absurd (cc), λ h. absurd (cc))
same_component_iff (some a) none = (λ h. absurd (cc), λ h. absurd (cc))
same_component_iff (some a) (some b) = (
  λ h. ap some (ground (arith, eq_iff a b)),
  λ h. let e : a ≡ b = cc in ground (arith, eq_iff a b),
)

component_violations_iff :
    (baseline current : ConfigBaseline)
    → (component_violations baseline current ≡ []) ↔ (baseline.component ≡ current.component)
unfolding component_violations
component_violations_iff baseline current =
    let same = same_component_iff baseline.component current.component in
    elim (Bool-cases (same_component baseline.component current.component)) [
      | inl e ↦ rw e (λ _. same.0 e, λ _. refl)
      | inr e ↦ rw e (λ h. absurd (cc), λ h. absurd (let k = same.1 h in cc))
    ]

-- Every name of the first list is in the second.
abbrev pub AreAmong : List String → List String → Type 0
AreAmong xs ys = All (λ n. contains n ys ≡ true) xs

removed_services_iff :
    (base cur : Dict BaselineService)
    → (removed_services base cur ≡ []) ↔ AreAmong (keys base) (keys cur)
unfolding removed_services
removed_services_iff [] cur = (λ _. tt, λ _. refl)
removed_services_iff ((n, b) ∷ rest) cur =
    let (l, r) = removed_services_iff rest cur in
    elim (Bool-cases (contains n (keys cur))) [
      | inl e ↦ rw e (λ h. (refl, l h), λ p. r p.1)
      | inr e ↦ rw e (λ h. absurd (cc), λ p. absurd (let k = p.0 in cc))
    ]

added_services_iff :
    (allow : Bool) (cur base : Dict BaselineService)
    → (added_services allow cur base ≡ []) ↔ ((allow ≡ true) ⊎ AreAmong (keys cur) (keys base))
unfolding added_services
added_services_iff true [] base = (λ _. inl refl, λ _. refl)
added_services_iff true ((n, c) ∷ rest) base =
    let (l, r) = added_services_iff true rest base in
    elim (Bool-cases (contains n (keys base))) [
      | inl e ↦ rw e (λ _. inl refl, λ _. r (inl refl))
      | inr e ↦ rw e (λ _. inl refl, λ _. r (inl refl))
    ]
added_services_iff false [] base = (λ _. inr tt, λ _. refl)
added_services_iff false ((n, c) ∷ rest) base =
    let (l, r) = added_services_iff false rest base in
    elim (Bool-cases (contains n (keys base))) [
      | inl e ↦ rw e (
        λ h. elim (l h) [ inl k ↦ absurd (cc) | inr k ↦ inr (refl, k) ],
        λ p. elim p [ inl k ↦ absurd (cc) | inr k ↦ r (inr k.1) ],
      )
      | inr e ↦ rw e (
        λ h. absurd (cc),
        λ p. elim p [ inl k ↦ absurd (cc) | inr k ↦ absurd (let x = k.0 in cc) ],
      )
    ]

all_empty :
    {A : Type 0} (a b c d e : List A)
    → (a ++ b ++ c ++ d ++ e ≡ []) ↔ ((a ≡ []) × (b ≡ []) × (c ≡ []) × (d ≡ []) × (e ≡ []))
all_empty [] [] [] [] e = (λ h. (refl, refl, refl, refl, h), λ p. p.4)
all_empty [] [] [] (x ∷ d) e = (λ h. absurd (cc), λ p. absurd (let e = p.3 in cc))
all_empty [] [] (x ∷ c) d e = (λ h. absurd (cc), λ p. absurd (let e = p.2 in cc))
all_empty [] (x ∷ b) c d e = (λ h. absurd (cc), λ p. absurd (let e = p.1 in cc))
all_empty (x ∷ a) b c d e = (λ h. absurd (cc), λ p. absurd (let e = p.0 in cc))

-- What the lock asks for: the same project and component, no service removed, none added unless that
-- is allowed, and the locked fields of each service unchanged.
pub record IsAllowed (baseline current : ConfigBaseline) (opts : ConfigLockCompareOptions)
    : Type 0 where
  pub project : baseline.project ≡ current.project
  pub component : baseline.component ≡ current.component
  pub none_removed : AreAmong (keys (by_name baseline.services)) (keys (by_name current.services))
  pub none_added :
      (opts.allow_new_services ≡ true)
      ⊎ AreAmong (keys (by_name current.services)) (keys (by_name baseline.services))
  pub same_services :
      All
        (λ (e : String × BaselineService).
          (c : BaselineService)
          → get e.0 (by_name current.services) ≡ some c
          → SameIdentity opts.baseline_from_desired e.1 c)
        (by_name baseline.services)

module _ (locale_before : String → String → Bool) {Written : Type 0}
    (stringify : Dict Json → Written) (same : Discrete Written)
    (stringify-injective : (x y : Dict Json) → stringify x ≡ stringify y → x ≡ y) where
  changed_services_iff :
      (from_desired : Bool) (base cur : Dict BaselineService)
      → (changed_services (outcomes_of locale_before stringify same from_desired base cur) ≡ [])
        ↔ All
            (λ (e : String × BaselineService).
              (c : BaselineService) → get e.0 cur ≡ some c → SameIdentity from_desired e.1 c)
            base
  unfolding changed_services outcomes_of
  changed_services_iff from_desired [] cur = (λ _. tt, λ _. refl)
  changed_services_iff from_desired ((n, b) ∷ rest) cur =
      let (l, r) = changed_services_iff from_desired rest cur in
      elim (Option-cases (get n cur)) [
        | inl e ↦ rw (e, outcomes_of) (λ h. (λ c k. absurd (cc), l h), λ p. r p.1)
        | inr (c, e) ↦
            let (to, from) =
              identity_changed_iff locale_before stringify same stringify-injective from_desired b
                c in
            elim (Bool-cases (identity_changed locale_before stringify same from_desired b c)) [
              | inl changed ↦
                  rw (e, outcomes_of)
                    (rw changed (λ h. absurd (cc), λ p. absurd (let k = from (p.0 c refl) in cc)))
              | inr kept ↦
                  rw (e, outcomes_of)
                    (rw kept (
                      λ h. (
                        λ d k.
                            let x : c ≡ d = cc in
                            subst (λ d. SameIdentity from_desired b d) x (to kept),
                        l h,
                      ),
                      λ p. r p.1,
                    ))
            ]
      ]

  -- The lock reports no violation exactly where the project and the component are the same, no
  -- service is removed, none is added (unless that is allowed), and every service has the locked
  -- fields that it had: all but cpu, memory, replicas, env, secrets, domain and domainPattern,
  -- and without dockerfile and context where the baseline is made of desired.json.
  -- `JSON.stringify` is assumed to write different values differently.
  pub find_config_lock_violations_iff :
      (baseline current : ConfigBaseline) (opts : ConfigLockCompareOptions)
      → (find_config_lock_violations locale_before stringify same baseline current opts ≡ [])
        ↔ IsAllowed baseline current opts
  unfolding find_config_lock_violations
  find_config_lock_violations_iff baseline current opts =
      let base = by_name baseline.services in
      let cur = by_name current.services in
      let p = project_violations_iff baseline current in
      let c = component_violations_iff baseline current in
      let r = removed_services_iff base cur in
      let a = added_services_iff opts.allow_new_services cur base in
      let s = changed_services_iff opts.baseline_from_desired base cur in
      let every =
        all_empty (project_violations baseline current) (component_violations baseline current)
          (removed_services base cur) (added_services opts.allow_new_services cur base)
          (changed_services
            (outcomes_of locale_before stringify same opts.baseline_from_desired base cur)) in
      (
        λ h.
            let (h0, h1, h2, h3, h4) = every.0 h in
            record {
              project = p.0 h0;
              component = c.0 h1;
              none_removed = r.0 h2;
              none_added = a.0 h3;
              same_services = s.0 h4;
            },
        λ i. every.1 (
          p.1 i.project,
          c.1 i.component,
          r.1 i.none_removed,
          a.1 i.none_added,
          s.1 i.same_services,
        ),
      )
