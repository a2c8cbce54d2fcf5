-- ===== src/Undeploy/Domains.antt =====
-- Which domains an undeploy takes out of edge.json.
use launch_pad.Prelude.{
  String, Bool, false, not, ◌&&◌, ◌||◌, ◌≡◌, refl, ◌∙◌, ap, inl, inr, Option, none, some, List, [],
  ◌∷◌, str_eq, filter, any, arith, Bool-cases, eq_iff, contains, contains-add, keys,
  contains-keys-put, Option-cases, or_else, get, str_lt,
}
use launch_pad.Prelude.Sort.{contains-sort}
use launch_pad.Service.{ServiceConfig}
use launch_pad.Undeploy.{
  should_remove, is_removed, owned_by, domain_of, surviving_from, Candidates, add_candidate,
  candidates_from, Progress, NodeServices, visit, visit_all, start, gone_domains, plan_undeploy,
  add_edge, add_survivor,
}

-- Does the service front the domain?
abbrev pub fronts : String → ServiceConfig → Bool
fronts d s = elim (domain_of s) [ none ↦ false | some x ↦ str_eq x d ]

or_assoc : (a b c : Bool) → ((a || b) || c) ≡ (a || (b || c))
or_assoc a b c = ground arith

module _ (owner : String) (names : Option (List String)) (d : String) where
  abbrev pub removed_here : ServiceConfig → Bool
  removed_here s = is_removed owner names s && fronts d s

  abbrev pub kept_here : ServiceConfig → Bool
  kept_here s = not (is_removed owner names s) && fronts d s

  contains-add_survivor :
      (s : ServiceConfig) (acc : List String)
      → contains d (add_survivor owner names s acc) ≡ (contains d acc || kept_here s)
  unfolding add_survivor
  contains-add_survivor s acc = elim (Option-cases (domain_of s)) [
    | inl n ↦ ground arith
    | inr (x, n) ↦ ground (arith, contains-add d x acc)
  ]

  contains-surviving_from :
      (acc : List String) (ss : List ServiceConfig)
      → contains d (surviving_from owner names acc ss) ≡ (contains d acc || any kept_here ss)
  unfolding surviving_from
  contains-surviving_from acc [] = ground arith
  contains-surviving_from acc (s ∷ ss) =
      contains-surviving_from (add_survivor owner names s acc) ss
      ∙ ap (λ b. b || any kept_here ss) (contains-add_survivor s acc)
      ∙ or_assoc (contains d acc) (kept_here s) (any kept_here ss)

  contains-add_candidate :
      (s : ServiceConfig) (m : Candidates)
      → contains d (keys (add_candidate s m)) ≡ (contains d (keys m) || fronts d s)
  unfolding add_candidate
  contains-add_candidate s m = elim (Option-cases (domain_of s)) [
    | inl n ↦ ground arith
    | inr (x, n) ↦ ground (arith, contains-keys-put x d (add_edge s (or_else (get x m) [])) m)
  ]

  contains-candidates_from :
      (m : Candidates) (ss : List ServiceConfig)
      → contains d (keys (candidates_from m ss)) ≡ (contains d (keys m) || any (fronts d) ss)
  unfolding candidates_from
  contains-candidates_from m [] = ground arith
  contains-candidates_from m (s ∷ ss) =
      contains-candidates_from (add_candidate s m) ss
      ∙ ap (λ b. b || any (fronts d) ss) (contains-add_candidate s m)
      ∙ or_assoc (contains d (keys m)) (fronts d s) (any (fronts d) ss)

  any-removed :
      (ss : List ServiceConfig)
      → any (fronts d) (filter (λ s. should_remove names s.service) (owned_by owner ss))
        ≡ any removed_here ss
  any-removed [] = refl
  any-removed (s ∷ ss) = elim (Bool-cases (str_eq s.project owner)) [
    | inl e ↦ elim (Bool-cases (should_remove names s.service)) [
      | inl f ↦ rw (e, f) (ap (λ b. fronts d s || b) (any-removed ss))
      | inr f ↦ rw (e, f) (any-removed ss)
    ]
    | inr e ↦ rw e (any-removed ss)
  ]

  contains-gone_domains :
      (surviving : List String) (m : Candidates)
      → contains d (gone_domains surviving m) ≡ (contains d (keys m) && not (contains d surviving))
  unfolding gone_domains
  contains-gone_domains surviving [] = refl
  contains-gone_domains surviving ((x, es) ∷ m) =
      ground (arith, contains-gone_domains surviving m, eq_iff x d)

  surviving-visit :
      (st : NodeServices) (p : Progress)
      → (visit owner names st p).surviving ≡ surviving_from owner names p.surviving st.services
  unfolding visit
  surviving-visit st p = ground arith

  keys-visit :
      (st : NodeServices) (p : Progress)
      → contains d (keys (visit owner names st p).candidates)
        ≡ (contains d (keys p.candidates) || any removed_here st.services)
  unfolding visit
  keys-visit st p = go removed refl
    where
      removed : List ServiceConfig
      removed = filter (λ s. should_remove names s.service) (owned_by owner st.services)

      go :
          (r : List ServiceConfig)
          → removed ≡ r
          → contains d (keys (visit owner names st p).candidates)
            ≡ (contains d (keys p.candidates) || any removed_here st.services)
      go [] e = rw (← any-removed st.services, e) (ground arith)
      go (s ∷ ss) e =
          rw (← any-removed st.services) (rw e (contains-candidates_from p.candidates (s ∷ ss)))

  -- Is the domain fronted by a service that the undeploy removes, and by one that it leaves?
  abbrev pub removed_front : List NodeServices → Bool
  removed_front states = any (λ st. any removed_here st.services) states

  abbrev pub kept_front : List NodeServices → Bool
  kept_front states = any (λ st. any kept_here st.services) states

  visit_all-fronts :
      (states : List NodeServices) (p : Progress)
      → (contains d (keys (visit_all owner names states p).candidates)
          ≡ (contains d (keys p.candidates) || removed_front states))
        × (contains d (visit_all owner names states p).surviving
            ≡ (contains d p.surviving || kept_front states))
  unfolding visit_all
  visit_all-fronts [] p = (ground arith, ground arith)
  visit_all-fronts (st ∷ states) p =
      let (a, b) = visit_all-fronts states (visit owner names st p) in
      (
        a
            ∙ ap (λ x. x || removed_front states) (keys-visit st p)
            ∙ or_assoc (contains d (keys p.candidates)) (any removed_here st.services)
                (removed_front states),
        b
            ∙ ap (λ x. x || kept_front states)
                (ap (contains d) (surviving-visit st p)
                  ∙ contains-surviving_from p.surviving st.services)
            ∙ or_assoc (contains d p.surviving) (any kept_here st.services) (kept_front states),
      )

  -- A domain is reported as removed exactly where a removed service fronts it on some node and no
  -- service that stays, of any project on any node, fronts it.
  pub removed_domains-plan_undeploy :
      (locale_before : String → String → Bool) (states : List NodeServices)
      → contains d (plan_undeploy locale_before states owner names).removed_domains
        ≡ (removed_front states && not (kept_front states))
  unfolding plan_undeploy
  removed_domains-plan_undeploy locale_before states =
      let p = visit_all owner names states start in
      let (a, b) = visit_all-fronts states start in
      contains-sort str_lt d (gone_domains p.surviving p.candidates)
      ∙ contains-gone_domains p.surviving p.candidates
      ∙ ground (arith, a, b)
