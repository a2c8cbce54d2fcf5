-- ===== src/Provision/Sizing.antt =====
-- The nodes that a plan creates are large enough.
use mathlib.Core.Path.{subst}
use launch_pad.Prelude.{
  ℕ, ◌+◌, ◌≤◌, String, Bool, true, ◌≡◌, refl, sym, ◌∙◌, if_true, inl, inr, Option, none, some, List,
  [], ◌∷◌, ok, >>=-eq-ok, or_else, arith, All, Bool-cases, ◌||◌, not, false,
}
use launch_pad.Prelude.Occurs.{All-Occurs, find?-Occurs, Occurs-filter, Occurs-sort}
use launch_pad.Capacity.{
  NodeArchitecture, InstanceCapacity, SizedType, lookup_instance_capacity,
  smallest_instance_type_for, fits_demand, is_candidate, same_architecture, cheaper, to_candidates,
  instance_capacity_table, target_architecture, default_reserved_cpu, default_reserved_memory,
}
use launch_pad.Capacity.Check.{surge}
use launch_pad.Candidates.{is_external}
use launch_pad.Registry.{NodeRegistryEntry}
use launch_pad.Provision.{
  NodeDemand, Creation, NodeAction, use_ready, resume, create, action_of, create_app, plan_demand,
  build_provision_plan, peak_cpu, peak_memory, sizing, is_stopped,
}

-- A tabled type that holds the demand and the surge beside what the host reserves, of the demand's
-- architecture.
pub record IsSized (d : NodeDemand) (c : Creation) : Type 0 where
  pub named : c.node_id ≡ d.node_id
  pub architecture : same_architecture c.architecture d.architecture ≡ true
  pub typed : lookup_instance_capacity c.instance_type ≡ some c.capacity
  pub cpu : d.cpu + surge d.surge_cpu + 256 ≤ c.capacity.total_cpu
  pub memory : d.memory + surge d.surge_memory + 512 ≤ c.capacity.total_memory

-- What one action stands on.
abbrev pub IsPlanned : (String → Option NodeRegistryEntry) → NodeDemand → NodeAction → Type 0
IsPlanned load d (use_ready id entry) =
    (id ≡ d.node_id)
    × (load id ≡ some entry)
    × ((is_external entry.provisioning || not (is_stopped entry.state)) ≡ true)
IsPlanned load d (resume id entry) =
    (id ≡ d.node_id)
    × (load id ≡ some entry)
    × ((is_external entry.provisioning || not (is_stopped entry.state)) ≡ false)
IsPlanned load d (create c) = (load d.node_id ≡ none) × IsSized d c

abbrev pub ArePlanned :
    (String → Option NodeRegistryEntry) → List NodeDemand → List NodeAction → Type 0
ArePlanned load [] [] = Unit
ArePlanned load [] (_ ∷ _) = ⊥
ArePlanned load (_ ∷ _) [] = ⊥
ArePlanned load (d ∷ ds) (a ∷ as') = IsPlanned load d a × ArePlanned load ds as'

fits_demand-le :
    (rc rm cpu memory : ℕ) (c : SizedType)
    → fits_demand rc rm cpu memory c ≡ true
    → (cpu + rc ≤ c.capacity.total_cpu) × (memory + rm ≤ c.capacity.total_memory)
unfolding fits_demand
fits_demand-le rc rm cpu memory c h = (ground arith, ground arith)

is_candidate-same :
    (a : NodeArchitecture) (f : Option InstanceCapacity) (c : SizedType)
    → is_candidate (some a) f c ≡ true
    → same_architecture c.capacity.architecture a ≡ true
unfolding is_candidate
is_candidate-same a f c h = ground arith

-- Looking the type up gives the capacity that stands beside it.
abbrev IsTabled : SizedType → Type 0
IsTabled c = lookup_instance_capacity c.instance_type ≡ some c.capacity

tabled : All IsTabled (to_candidates instance_capacity_table)
unfolding lookup_instance_capacity to_candidates
tabled = (
  refl,
  (
    refl,
    (
      refl,
      (
        refl,
        (
          refl,
          (
            refl,
            (
              refl,
              (
                refl,
                (
                  refl,
                  (
                    refl,
                    (
                      refl,
                      (
                        refl,
                        (
                          refl,
                          (
                            refl,
                            (
                              refl,
                              (
                                refl,
                                (
                                  refl,
                                  (
                                    refl,
                                    (refl, (refl, (refl, (refl, (refl, (refl, (refl, tt))))))),
                                  ),
                                ),
                              ),
                            ),
                          ),
                        ),
                      ),
                    ),
                  ),
                ),
              ),
            ),
          ),
        ),
      ),
    ),
  ),
)

surge-or_else : (o : Option ℕ) → or_else o 0 ≡ surge o
surge-or_else none = refl
surge-or_else (some extra) = refl

action_of-IsPlanned :
    (load : String → Option NodeRegistryEntry) (d : NodeDemand) (entry : NodeRegistryEntry)
    → load d.node_id ≡ some entry
    → IsPlanned load d (action_of d.node_id entry)
unfolding action_of
action_of-IsPlanned load d entry h = ground arith

module _ (locale_before : String → String → Bool) where
  smallest_instance_type_for-IsSized :
      (edge : String) (floor : Option String) (d : NodeDemand) (s : SizedType)
      → smallest_instance_type_for locale_before
          (peak_cpu d)
          (peak_memory d)
          (sizing floor d.architecture)
        ≡ some s
      → IsSized d (record {
        node_id = d.node_id;
        role = launch_pad.Registry.NodeRole.app;
        edge_node_id = some edge;
        instance_type = s.instance_type;
        architecture = s.capacity.architecture;
        capacity = s.capacity;
      })
  unfolding smallest_instance_type_for target_architecture
  smallest_instance_type_for-IsSized edge floor d s h =
      let (fit, o) =
        find?-Occurs
          (fits_demand default_reserved_cpu default_reserved_memory (peak_cpu d) (peak_memory d)) _
          h in
      let floor_cap = lookup_instance_capacity (or_else floor "t4g.micro") in
      let (candidate, listed) =
        Occurs-filter (is_candidate (some d.architecture) floor_cap)
          (to_candidates instance_capacity_table) {x = s}
          (Occurs-sort (cheaper locale_before) s _ o) in
      let (cpu, memory) = fits_demand-le default_reserved_cpu default_reserved_memory _ _ s fit in
      record {
        named = refl;
        architecture = is_candidate-same d.architecture floor_cap s candidate;
        typed = All-Occurs IsTabled (to_candidates instance_capacity_table) tabled listed;
        cpu = omega (arith, cpu, surge-or_else d.surge_cpu);
        memory = omega (arith, memory, surge-or_else d.surge_memory);
      }

  module _ (edge : String) (load : String → Option NodeRegistryEntry) (allow_create : Bool)
      (floor : Option String) where
    create_app-IsPlanned :
        (d : NodeDemand) (sized : Option SizedType) {a : NodeAction}
        → smallest_instance_type_for locale_before
            (peak_cpu d)
            (peak_memory d)
            (sizing floor d.architecture)
          ≡ sized
        → load d.node_id ≡ none
        → create_app edge d sized ≡ ok a
        → IsPlanned load d a
    unfolding create_app
    create_app-IsPlanned d none e missing h = cc
    create_app-IsPlanned d (some s) {a} e missing h =
        let same : create (record {
          node_id = d.node_id;
          role = launch_pad.Registry.NodeRole.app;
          edge_node_id = some edge;
          instance_type = s.instance_type;
          architecture = s.capacity.architecture;
          capacity = s.capacity;
        })
            ≡ a =
          cc in
        subst (IsPlanned load d) same (missing, smallest_instance_type_for-IsSized edge floor d s e)

    plan_demand-IsPlanned :
        (d : NodeDemand) (entry : Option NodeRegistryEntry) {a : NodeAction}
        → load d.node_id ≡ entry
        → plan_demand locale_before edge load allow_create floor d entry ≡ ok a
        → IsPlanned load d a
    unfolding plan_demand
    plan_demand-IsPlanned d (some entry) {a} e h =
        let same : action_of d.node_id entry ≡ a = cc in
        subst (IsPlanned load d) same (action_of-IsPlanned load d entry e)
    plan_demand-IsPlanned d none e h = elim (Bool-cases allow_create) [
      | inl allowed ↦ create_app-IsPlanned d _ refl e (sym (if_true _ _ allowed) ∙ h)
      | inr refused ↦ cc
    ]

    -- A plan has one action for each demand, in order: a node that exists is resumed if it is stopped
    -- and not external and otherwise used, and a node that does not is created of the demand's
    -- architecture and of a type whose tabled capacity has room for the steady demand, the surge and
    -- the 256 CPU shares and 512 MB that the host reserves.
    pub build_provision_plan-ArePlanned :
        (ds : List NodeDemand) {actions : List NodeAction}
        → build_provision_plan locale_before edge load allow_create floor ds ≡ ok actions
        → ArePlanned load ds actions
    unfolding build_provision_plan
    build_provision_plan-ArePlanned [] {actions = []} h = tt
    build_provision_plan-ArePlanned [] {actions = a ∷ as'} h = cc
    build_provision_plan-ArePlanned (d ∷ ds) {actions} h =
        let (a, first, h1) = >>=-eq-ok _ _ h in
        let (rest, second, h2) = >>=-eq-ok _ _ h1 in
        let same : a ∷ rest ≡ actions = cc in
        subst (ArePlanned load (d ∷ ds)) same (
          plan_demand-IsPlanned d (load d.node_id) refl first,
          build_provision_plan-ArePlanned ds second,
        )
