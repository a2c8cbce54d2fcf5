-- ===== src/Deploy/RoundTrip.antt =====
-- An unchanged config passes the config lock, also where the baseline is made of desired.json.
use launch_pad.Prelude.{
  String, Bool, true, false, some, List, [], ◌∷◌, map, ◌≡◌, refl, sym, ap, ◌∙◌, inl, inr, arith,
  eq_iff, Dict, get, keys, contains, Distinct, str_eq, any, All, All-weaken,
}
use mathlib.Core.Path.{subst}
use launch_pad.Prelude.Occurs.{Occurs, All-Occurs}
use launch_pad.Prelude.Entries.{AllEntries, AllEntries-get, All-sort, All-map, any-sort, any-map}
use launch_pad.Prelude.Sort.{sort}
use launch_pad.Service.{ServiceConfig}
use launch_pad.Undeploy.{NodeServices}
use launch_pad.Config.{ServiceDecl, LaunchPadConfig}
use launch_pad.ConfigLock.{
  BaselineService, ConfigBaseline, DeployedFootprint, ConfigLockCompareOptions, by_name,
  service_snapshot, snapshot_config_baseline, find_config_lock_violations,
}
use launch_pad.ConfigLock.StableJson.{Json}
use launch_pad.ConfigLock.Identity.{SameIdentity}
use launch_pad.ConfigLock.Allowed.{IsAllowed, find_config_lock_violations_iff}
use launch_pad.ConfigLock.ByName.{IsNamed, by_name-IsNamed, contains-by_name}
use launch_pad.Footprint.{
  PlacementMaps, sort_node_ids, footprint_baseline, placement_maps, values,
  build_placement_snapshot, baseline_from_deployed_footprints,
}
use launch_pad.Footprint.Snapshot.{
  is_deployed, contains-placement_maps, placement_maps-entries, values-All, any-values,
}
use launch_pad.Deploy.{AwsEnv}
use launch_pad.Deploy.Made.{
  IsValid, IsMadeOf, IsOf, new_footprint-IsOf, grown-IsOf, sorted-IsOf, IsOf-SameIdentity,
}

Occurs-name :
    (n : String) (ds : List ServiceDecl) (d : ServiceDecl)
    → Occurs d ds
    → d.name ≡ n
    → any (λ d. str_eq d.name n) ds ≡ true
Occurs-name n [] d o e = absurd o
Occurs-name n (x ∷ ds) d (inl same) e =
    let named : x.name ≡ n = ap (λ d. d.name) (sym same) ∙ e in ground (arith, eq_iff x.name n)
Occurs-name n (x ∷ ds) d (inr o) e = ground (arith, Occurs-name n ds d o e)

contains-names :
    (ds : List ServiceDecl) (d : ServiceDecl)
    → Occurs d ds
    → contains d.name (map (λ d. d.name) ds) ≡ true
contains-names [] d o = absurd o
contains-names (x ∷ ds) d (inl same) =
    let named : x.name ≡ d.name = ap (λ d. d.name) (sym same) in
    ground (arith, eq_iff x.name d.name)
contains-names (x ∷ ds) d (inr o) = ground (arith, contains-names ds d o)

-- A name of the config belongs to one declaration.
same_decl :
    (ds : List ServiceDecl) (a b : ServiceDecl)
    → Distinct (map (λ d. d.name) ds)
    → Occurs a ds
    → Occurs b ds
    → a.name ≡ b.name
    → a ≡ b
same_decl [] a b d o p e = absurd o
same_decl (x ∷ ds) a b (new, d) (inl i) (inl j) e = i ∙ sym j
same_decl (x ∷ ds) a b (new, d) (inr o) (inr p) e = same_decl ds a b d o p e
same_decl (x ∷ ds) a b (new, d) (inl i) (inr p) e = absurd (
    let there = contains-names ds b p in
    let n : x.name ≡ b.name = ap (λ d. d.name) (sym i) ∙ e in
    let new' : contains b.name (map (λ d. d.name) ds) ≡ false = rw (sym n) new in cc)
same_decl (x ∷ ds) a b (new, d) (inr o) (inl j) e = absurd (
    let there = contains-names ds a o in
    let n : x.name ≡ a.name = ap (λ d. d.name) (sym j) ∙ sym e in
    let new' : contains a.name (map (λ d. d.name) ds) ≡ false = rw (sym n) new in cc)

keys-All :
    {V : Type 0} (P : String → V → Type 0) (R : String → Type 0) (m : Dict V)
    → ((k : String) (v : V) → P k v → R k)
    → AllEntries P m
    → All R (keys m)
keys-All P R [] f h = tt
keys-All P R ((k, v) ∷ m) f (p, h) = (f k v p, keys-All P R m f h)

-- Every service that a node runs for the owner is made of a declaration of the config, and every
-- declaration has one.
pub record IsDeployment (aws : AwsEnv) (owner : String) (config : LaunchPadConfig)
    (states : List NodeServices) : Type 0 where
  pub made :
      All
        (λ (st : NodeServices).
          All
            (λ (s : ServiceConfig).
              str_eq s.project owner ≡ true
              → (decl : ServiceDecl) × Occurs decl config.service × IsMadeOf aws owner decl s)
            st.services)
        states
  pub deployed : All (λ (d : ServiceDecl). is_deployed owner d.name states ≡ true) config.service

module _ (locale_before : String → String → Bool) (aws : AwsEnv) (owner : String)
    (config : LaunchPadConfig) (states : List NodeServices) (valid : All IsValid config.service)
    (distinct : Distinct (map (λ d. d.name) config.service))
    (deployment : IsDeployment aws owner config states) where
  abbrev HasDecl : DeployedFootprint → Type 0
  HasDecl fp = (decl : ServiceDecl) × Occurs decl config.service × IsOf decl fp

  abbrev maps : PlacementMaps
  maps = placement_maps owner states (record { by_service = []; by_node = [] })

  maps-entries : AllEntries (λ k fp. (k ≡ fp.service) × HasDecl fp) maps.by_service
  maps-entries =
      placement_maps-entries owner
        (λ s. (decl : ServiceDecl) × Occurs decl config.service × IsMadeOf aws owner decl s) HasDecl
        (λ node s (decl, o, made). (
          decl,
          o,
          new_footprint-IsOf aws owner decl node s (All-Occurs IsValid config.service valid o) made,
        ))
        (λ fp node r (decl, o, h). (decl, o, grown-IsOf decl fp node r h)) states
        (record { by_service = []; by_node = [] }) deployment.made tt

  abbrev baseline : String → ConfigBaseline
  baseline locked_at =
      baseline_from_deployed_footprints locale_before config.project config.component
        (build_placement_snapshot locale_before states owner).footprints locked_at

  abbrev current : String → ConfigBaseline
  current locked_at = snapshot_config_baseline locale_before config locked_at

  -- A service of the reconstructed baseline has the identity of a declaration.
  abbrev IsKept : BaselineService → Type 0
  IsKept b =
      (decl : ServiceDecl) × Occurs decl config.service
      × SameIdentity true b (service_snapshot decl)

  baseline-IsKept : (t : String) → All IsKept (baseline t).services
  unfolding baseline_from_deployed_footprints build_placement_snapshot
  baseline-IsKept t = All-sort _ IsKept _ (
      All-map footprint_baseline IsKept _ (
        All-sort _ (λ fp. IsKept (footprint_baseline fp)) _
          (All-weaken {P = HasDecl} (λ fp (decl, o, h). (decl, o, IsOf-SameIdentity decl fp h)) _
            (values-All HasDecl (λ fp (decl, o, h). (decl, o, sorted-IsOf decl fp h))
              maps.by_service maps-entries))))

  baseline_names :
      (t n : String) → any (λ b. str_eq b.name n) (baseline t).services ≡ is_deployed owner n states
  unfolding baseline_from_deployed_footprints build_placement_snapshot footprint_baseline
  baseline_names t n =
      let fps : List DeployedFootprint = map sort_node_ids (values maps.by_service) in
      any-sort _ _ _
      ∙ any-map footprint_baseline (λ b. str_eq b.name n)
          (sort (λ a b. locale_before a.service b.service) fps)
      ∙ any-sort (λ a b. locale_before a.service b.service) (λ fp. str_eq fp.service n) fps
      ∙ any-values HasDecl (λ fp (decl, o, h). (decl, o, sorted-IsOf decl fp h)) n maps.by_service
          maps-entries
      ∙ contains-placement_maps owner n states (record { by_service = []; by_node = [] })

  abbrev IsSnapshot : BaselineService → Type 0
  IsSnapshot c = (decl : ServiceDecl) × Occurs decl config.service × (c ≡ service_snapshot decl)

  All-self : (ds : List ServiceDecl) → All (λ d. Occurs d ds) ds
  All-self [] = tt
  All-self (d ∷ ds) = (inl refl, All-weaken (λ x o. inr o) ds (All-self ds))

  current-IsSnapshot : (t : String) → All IsSnapshot (current t).services
  unfolding snapshot_config_baseline
  current-IsSnapshot t = All-sort _ IsSnapshot _ (
      All-map service_snapshot IsSnapshot config.service
        (All-weaken (λ d o. (d, o, refl)) config.service (All-self config.service)))

  current_names :
      (t n : String)
      → any (λ c. str_eq c.name n) (current t).services ≡ any (λ d. str_eq d.name n) config.service
  unfolding snapshot_config_baseline service_snapshot
  current_names t n = any-sort _ _ _ ∙ any-map service_snapshot _ config.service

  base-IsNamed : (t : String) → AllEntries (IsNamed IsKept) (by_name (baseline t).services)
  base-IsNamed t = by_name-IsNamed IsKept (baseline t).services (baseline-IsKept t)

  cur-IsNamed : (t : String) → AllEntries (IsNamed IsSnapshot) (by_name (current t).services)
  cur-IsNamed t = by_name-IsNamed IsSnapshot (current t).services (current-IsSnapshot t)

  baseline-IsAllowed :
      (locked_at now : String) (opts : ConfigLockCompareOptions)
      → opts.baseline_from_desired ≡ true
      → IsAllowed (baseline locked_at) (current now) opts
  unfolding baseline_from_deployed_footprints snapshot_config_baseline service_snapshot
  baseline-IsAllowed locked_at now opts from_desired = record {
    project = refl;
    component = refl;
    none_removed =
        keys-All (IsNamed IsKept) _ _
          (λ k b (e, (decl, o, same)).
            contains-by_name k (current now).services
            ∙ current_names now k
            ∙ Occurs-name k config.service decl o (sym same.name ∙ sym e))
          (base-IsNamed locked_at);
    none_added = inr (
        keys-All (IsNamed IsSnapshot) _ _
          (λ k c (e, (decl, o, same)).
            contains-by_name k (baseline locked_at).services
            ∙ baseline_names locked_at k
            ∙ (let named : decl.name ≡ k = sym (ap (λ s. s.name) same) ∙ sym e in
                rw (sym named) (
                  All-Occurs (λ d. is_deployed owner d.name states ≡ true) config.service
                    deployment.deployed o)))
          (cur-IsNamed now));
    same_services =
        All-weaken {P = λ e. IsNamed IsKept e.0 e.1}
          {Q = λ e.
            (c : BaselineService)
            → get e.0 (by_name (current now).services) ≡ some c
            → SameIdentity opts.baseline_from_desired e.1 c}
          (λ (e : String × BaselineService) (i, (decl, o, same)) c found.
            let (j, (decl', o', same')) =
              AllEntries-get (IsNamed IsSnapshot) e.0 (by_name (current now).services)
                (cur-IsNamed now) found in
            let one : decl ≡ decl' =
              same_decl config.service decl decl' distinct o o'
                (sym same.name ∙ sym i ∙ j ∙ ap (λ s. s.name) same') in
            let whole : service_snapshot decl ≡ c = ap service_snapshot one ∙ sym same' in
            rw from_desired (subst (λ c. SameIdentity true e.1 c) whole same))
          (by_name (baseline locked_at).services) (base-IsNamed locked_at);
  }

  module _ {Written : Type 0} (stringify : Dict Json → Written) (same : Discrete Written)
      (stringify-injective : (x y : Dict Json) → stringify x ≡ stringify y → x ≡ y) where
    -- An unchanged config passes the lock where its baseline is lost: the nodes run, for its owner,
    -- services that deploys made of its declarations, each of them somewhere; what is rebuilt of
    -- their desired.json files is then no violation, whatever images, replica counts, nodes, edges
    -- and environments those deploys chose.
    -- The config is valid (a domain and a port or neither, ports from 1 on, no name twice), and
    -- `JSON.stringify` writes different values differently.
    pub find_config_lock_violations-unchanged :
        (locked_at now : String) (allow_new_services : Bool)
        → find_config_lock_violations locale_before stringify same
            (baseline_from_deployed_footprints locale_before config.project config.component
              (build_placement_snapshot locale_before states owner).footprints
              locked_at)
            (snapshot_config_baseline locale_before config now)
            (record { baseline_from_desired = true; allow_new_services = allow_new_services })
          ≡ []
    find_config_lock_violations-unchanged locked_at now allow_new_services =
        let opts : ConfigLockCompareOptions = record {
          baseline_from_desired = true;
          allow_new_services = allow_new_services;
        } in
        (find_config_lock_violations_iff locale_before stringify same stringify-injective
            (baseline locked_at) (current now) opts).1
          (baseline-IsAllowed locked_at now opts refl)
