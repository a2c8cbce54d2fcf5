-- ===== src/Evacuation/Gates.antt =====
-- Which nodes the gates of a destroy hold back.
use launch_pad.Prelude.{
  String, Bool, true, false, not, ◌&&◌, ◌||◌, Option, none, some, List, [], ◌∷◌, map, ◌≡◌, refl, ap,
  ◌∙◌, inl, inr, arith, Bool-cases, contains, str_eq, filter, any, sym, eq_iff, eq_refl, ◌↔◌,
}
use launch_pad.Prelude.Occurs.{Occurs, any-Occurs, Occurs-any, contains_iff}
use launch_pad.Service.{DesiredState}
use launch_pad.Prelude.Entries.{any-map}
use launch_pad.Evacuation.{
  ScheduledService, Target, is_none_left, volume_bearing_targets, is_movable, assess,
  assess_evacuation, has_volumes, scheduled_service, scheduled_services_from_desired,
  list_scheduled_services,
}

abbrev pub names : String → List Target → Bool
names n ts = any (λ (t : Target). str_eq t.name n) ts

is_none_left-filter :
    (p : ScheduledService → Bool) (ss : List ScheduledService)
    → not (is_none_left (filter p ss)) ≡ any p ss
is_none_left-filter p [] = refl
is_none_left-filter p (s ∷ ss) = elim (Bool-cases (p s)) [
  | inl e ↦ rw e refl
  | inr e ↦ rw e (is_none_left-filter p ss)
]

-- What a node's document says of its data: an unreadable one may hold some.
abbrev pub state_may_hold_data : Option DesiredState → Bool
state_may_hold_data none = true
state_may_hold_data (some state) = any (λ s. has_volumes s.volumes) state.services

abbrev pub may_hold_data : {Body : Type 0} → (Body → Option DesiredState) → Option Body → Bool
may_hold_data parse none = false
may_hold_data parse (some body) = state_may_hold_data (parse body)

any-scheduled_services_from_desired :
    (state : Option DesiredState)
    → any (λ (s : ScheduledService). s.has_volume) (scheduled_services_from_desired state)
      ≡ state_may_hold_data state
unfolding scheduled_services_from_desired scheduled_service
any-scheduled_services_from_desired none = refl
any-scheduled_services_from_desired (some state) =
    any-map scheduled_service (λ (s : ScheduledService). s.has_volume) state.services

any-volume :
    (n : String) (ts : List Target)
    → names n (volume_bearing_targets ts)
      ≡ any
          (λ (t : Target).
            str_eq t.name n && any (λ (s : ScheduledService). s.has_volume) t.services)
          ts
unfolding volume_bearing_targets
any-volume n [] = refl
any-volume n (t ∷ ts) =
    let here = is_none_left-filter (λ (s : ScheduledService). s.has_volume) t.services in
    let rest = any-volume n ts in ground (arith, here, rest)

-- A node and its document.
module _ {Body : Type 0} (parse : Body → Option DesiredState) where
  abbrev pub target_of : String × Option Body → Target
  target_of d = record { name = d.0; services = list_scheduled_services parse d.1 }

  any-list_scheduled_services :
      (document : Option Body)
      → any (λ (s : ScheduledService). s.has_volume) (list_scheduled_services parse document)
        ≡ may_hold_data parse document
  unfolding list_scheduled_services
  any-list_scheduled_services none = refl
  any-list_scheduled_services (some body) = any-scheduled_services_from_desired (parse body)

  -- The data-loss gate fails closed: it holds back a node exactly where the node's desired.json lists
  -- a service with a volume or does not parse; a node without the document is let through.
  pub volume_bearing_targets-may_hold_data :
      (n : String) (documents : List (String × Option Body))
      → names n (volume_bearing_targets (map target_of documents))
        ≡ any (λ d. str_eq d.0 n && may_hold_data parse d.1) documents
  volume_bearing_targets-may_hold_data n documents =
      any-volume n (map target_of documents) ∙ at_each documents
    where
      at_each :
          (ds : List (String × Option Body))
          → any
              (λ (t : Target).
                str_eq t.name n && any (λ (s : ScheduledService). s.has_volume) t.services)
              (map target_of ds)
            ≡ any (λ d. str_eq d.0 n && may_hold_data parse d.1) ds
      at_each [] = refl
      at_each (d ∷ ds) =
          rw (any-list_scheduled_services d.1)
            (ap (λ b. (str_eq d.0 n && may_hold_data parse d.1) || b) (at_each ds))

-- A service that an evacuation may take along: one of the project, of a listed name.
pub record IsTakenAlong (owner : String) (movable : List String) (s : ScheduledService)
    : Type 0 where
  pub of_project : s.project ≡ owner
  pub listed : Occurs s.service movable

-- A target of this name with a service of that kind.
abbrev pub HasService : (ScheduledService → Type 0) → String → List Target → Type 0
HasService Is n targets =
    (t : Target) × Occurs t targets
    × (t.name ≡ n)
    × ((s : ScheduledService) × Occurs s t.services × Is s)

module _ (p : ScheduledService → Bool) (n : String) where
  any_service : List Target → Bool
  any_service targets = any (λ (t : Target). str_eq t.name n && any p t.services) targets

  HasService-any :
      (targets : List Target) → any_service targets ≡ true → HasService (λ s. p s ≡ true) n targets
  unfolding any_service
  HasService-any targets h =
      let (t, o, k) = any-Occurs (λ (t : Target). str_eq t.name n && any p t.services) targets h in
      let named : str_eq t.name n ≡ true = ground (arith, k) in
      let serves : any p t.services ≡ true = ground (arith, k) in
      (t, o, (eq_iff t.name n).0 named, any-Occurs p t.services serves)

  any-HasService :
      (targets : List Target) → HasService (λ s. p s ≡ true) n targets → any_service targets ≡ true
  unfolding any_service
  any-HasService targets (t, o, same, (s, there, k)) =
      let named : str_eq t.name n ≡ true = rw same (eq_refl n) in
      let serves = Occurs-any p t.services s there k in
      Occurs-any (λ (t : Target). str_eq t.name n && any p t.services) targets t o
        (ground (arith, named, serves))

module _ (owner_project : String) (movable_names : List String) where
  taken : ScheduledService → Bool
  taken s = is_movable owner_project movable_names s

  taken_sound : (s : ScheduledService) → taken s ≡ true → IsTakenAlong owner_project movable_names s
  unfolding taken
  taken_sound s h = record {
    of_project = (eq_iff s.project owner_project).0 (ground (arith, h));
    listed = (contains_iff s.service movable_names).0 (ground (arith, h));
  }

  taken_complete :
      (s : ScheduledService) → IsTakenAlong owner_project movable_names s → taken s ≡ true
  unfolding taken
  taken_complete s t =
      let named = (eq_iff s.project owner_project).1 t.of_project in
      let listed = (contains_iff s.service movable_names).1 t.listed in
      ground (arith, named, listed)

  drain_nodes-any :
      (n : String) (targets : List Target)
      → contains n (assess_evacuation targets owner_project movable_names).drain_nodes
        ≡ any_service taken n targets
  unfolding assess_evacuation assess any_service taken
  drain_nodes-any n [] = refl
  drain_nodes-any n (t ∷ ts) = ground (arith, drain_nodes-any n ts)

  unmovable-any :
      (n : String) (targets : List Target)
      → names n (assess_evacuation targets owner_project movable_names).unmovable
        ≡ any_service (λ s. not (taken s)) n targets
  unfolding assess_evacuation assess any_service taken
  unmovable-any n [] = refl
  unmovable-any n (t ∷ ts) =
      let stuck =
        is_none_left-filter (λ s. not (is_movable owner_project movable_names s)) t.services in
      ground (arith, unmovable-any n ts, stuck)

  -- An evacuation drains exactly the targets with a service that it may move (one of the project, of
  -- a movable name), and holds back exactly those with a service that it may not.
  pub assess_evacuation-exact :
      (n : String) (targets : List Target)
      → (Occurs n (assess_evacuation targets owner_project movable_names).drain_nodes
          ↔ HasService (IsTakenAlong owner_project movable_names) n targets)
        × ((names n (assess_evacuation targets owner_project movable_names).unmovable ≡ true)
            ↔ HasService (λ s. ¬ IsTakenAlong owner_project movable_names s) n targets)
  assess_evacuation-exact n targets =
      let drain = (assess_evacuation targets owner_project movable_names).drain_nodes in
      (
        (
          λ o.
              let (t, here, same, (s, there, k)) =
                HasService-any taken n targets
                  (sym (drain_nodes-any n targets) ∙ (contains_iff n drain).1 o) in
              (t, here, same, (s, there, taken_sound s k)),
          λ (t, here, same, (s, there, k)). (contains_iff n drain).0 (
              drain_nodes-any n targets
              ∙ any-HasService taken n targets (t, here, same, (s, there, taken_complete s k))),
        ),
        (
          λ h.
              let (t, here, same, (s, there, k)) =
                HasService-any (λ s. not (taken s)) n targets (sym (unmovable-any n targets) ∙ h) in
              (
                t,
                here,
                same,
                (s, there, λ yes. let e = taken_complete s yes in ground (arith, e, k)),
              ),
          λ (t, here, same, (s, there, k)).
              unmovable-any n targets
              ∙ any-HasService (λ s. not (taken s)) n targets
                  (
                    t,
                    here,
                    same,
                    (
                      s,
                      there,
                      elim (Bool-cases (taken s)) [
                        | inl e ↦ absurd (k (taken_sound s e))
                        | inr e ↦ rw e refl
                      ],
                    ),
                  ),
        ),
      )
