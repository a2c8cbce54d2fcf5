-- ===== src/Undeploy.antt =====
-- packages/shared/src/undeploy.ts: what an undeploy removes from each node, and which domains no
-- service fronts afterwards. `localeCompare` on node ids is a parameter.
pub mod Laws
pub mod Domains
use launch_pad.Prelude.{
  String, Bool, true, false, not, ◌&&◌, Option, none, some, List, [], ◌∷◌, ◌++◌, map, Dict, get,
  put, or_else, contains, add, str_eq, str_lt, filter, if◌then◌else◌,
}
use launch_pad.Prelude.Sort.{sort}
use launch_pad.Service.{ServiceConfig}

pub record NodeUndeployPlan : Type 0 where
  pub node_id : String
  pub removed : List String
  pub kept : List ServiceConfig

pub record UndeployPlan : Type 0 where
  pub nodes : List NodeUndeployPlan
  pub removed_services : List String
  pub removed_domains : List String
  pub affected_edges : List String

pub record NodeServices : Type 0 where
  pub node_id : String
  pub services : List ServiceConfig

-- `servicesToRemove`: none removes the whole footprint.
unfoldable pub should_remove : Option (List String) → String → Bool
should_remove none service = true
should_remove (some names) service = contains service names

abbrev pub is_removed : String → Option (List String) → ServiceConfig → Bool
is_removed owner names s = str_eq s.project owner && should_remove names s.service

-- `s.ingress?.domain`, where the empty text is falsy
unfoldable pub domain_of : ServiceConfig → Option String
domain_of s = elim s.ingress [
  | none ↦ none
  | some i ↦ if str_eq i.domain "" then none else some i.domain
]

-- `if (s.ingress.edge) edges.add(s.ingress.edge)`
unfoldable pub add_edge : ServiceConfig → List String → List String
add_edge s edges = elim s.ingress [
  | none ↦ edges
  | some i ↦ if str_eq i.edge "" then edges else add i.edge edges
]

-- The loop that collects the domains of services that stay.
unfoldable pub add_survivor :
    String → Option (List String) → ServiceConfig → List String → List String
add_survivor owner names s acc =
    if is_removed owner names s then acc else elim (domain_of s) [ none ↦ acc | some d ↦ add d acc ]

unfoldable pub surviving_from :
    String → Option (List String) → List String → List ServiceConfig → List String
surviving_from owner names acc [] = acc
surviving_from owner names acc (s ∷ ss) =
    surviving_from owner names (add_survivor owner names s acc) ss

abbrev pub Candidates : Type 0
Candidates = Dict (List String)

unfoldable pub add_candidate : ServiceConfig → Candidates → Candidates
add_candidate s m = elim (domain_of s) [
  | none ↦ m
  | some d ↦ put d (add_edge s (or_else (get d m) [])) m
]

unfoldable pub candidates_from : Candidates → List ServiceConfig → Candidates
candidates_from m [] = m
candidates_from m (s ∷ ss) = candidates_from (add_candidate s m) ss

unfoldable pub add_names : List String → List ServiceConfig → List String
add_names acc [] = acc
add_names acc (s ∷ ss) = add_names (add s.service acc) ss

pub record Progress : Type 0 where
  pub nodes : List NodeUndeployPlan
  pub removed_services : List String
  pub candidates : Candidates
  pub surviving : List String

abbrev pub owned_by : String → List ServiceConfig → List ServiceConfig
owned_by owner services = filter (λ s. str_eq s.project owner) services

abbrev pub is_empty {ℓ} : {A : Type ℓ} → List A → Bool
is_empty [] = true
is_empty (_ ∷ _) = false

-- One round of the loop over the nodes.
unfoldable pub visit : String → Option (List String) → NodeServices → Progress → Progress
visit owner names st p =
    let owned = owned_by owner st.services in
    let removed = filter (λ s. should_remove names s.service) owned in
    let kept = filter (λ s. not (should_remove names s.service)) owned in
    let surviving = surviving_from owner names p.surviving st.services in
    if is_empty removed then record p { surviving = surviving } else record {
      nodes =
          p.nodes
          ++ record {
            node_id = st.node_id;
            removed = sort str_lt (map (λ (s : ServiceConfig). s.service) removed);
            kept = kept;
          }
            ∷ [];
      removed_services = add_names p.removed_services removed;
      candidates = candidates_from p.candidates removed;
      surviving = surviving;
    }

unfoldable pub visit_all : String → Option (List String) → List NodeServices → Progress → Progress
visit_all owner names [] p = p
visit_all owner names (st ∷ states) p = visit_all owner names states (visit owner names st p)

abbrev pub start : Progress
start = record { nodes = []; removed_services = []; candidates = []; surviving = [] }

unfoldable pub add_all : List String → List String → List String
add_all acc [] = acc
add_all acc (e ∷ es) = add_all (add e acc) es

-- The last loop: the candidates that no survivor fronts, and the edges that fronted them.
unfoldable pub gone_domains : List String → Candidates → List String
gone_domains surviving [] = []
gone_domains surviving ((d, _) ∷ m) =
    let rest = gone_domains surviving m in if contains d surviving then rest else d ∷ rest

unfoldable pub gone_edges : List String → List String → Candidates → List String
gone_edges surviving acc [] = acc
gone_edges surviving acc ((d, edges) ∷ m) =
    gone_edges surviving (if contains d surviving then acc else add_all acc edges) m

unfoldable pub plan_undeploy :
    (String → String → Bool) → List NodeServices → String → Option (List String) → UndeployPlan
plan_undeploy locale_before states owner names =
    let p = visit_all owner names states start in
    record {
      nodes = sort (λ a b. locale_before a.node_id b.node_id) p.nodes;
      removed_services = sort str_lt p.removed_services;
      removed_domains = sort str_lt (gone_domains p.surviving p.candidates);
      affected_edges = sort str_lt (gone_edges p.surviving [] p.candidates);
    }

unfoldable pub services_after_removal :
    List ServiceConfig → String → Option (List String) → List ServiceConfig
services_after_removal existing owner names = filter (λ s. not (is_removed owner names s)) existing
