-- ===== src/Edge.antt =====
-- packages/shared/src/edge.ts: the routing table of an edge node, from the shards that app nodes
-- publish under its prefix.
use launch_pad.Prelude.{
  ℕ, String, ◌≡◌, refl, ◌∙◌, sym, Option, none, some, List, [], ◌∷◌, ◌++◌, map, Dict, get, put,
  or_else, str_eq, filter, if◌then◌else◌, ◌&&◌, not, inl, inr, get-put, eq_iff, Bool-cases,
}
use mathlib.Core.List.{append_assoc, append-nil}

pub record EdgeBackend : Type 0 where
  pub domain : String
  pub private_ip : String
  pub host_port : ℕ

pub record UpstreamBackend : Type 0 where
  pub domain : String
  pub host_port : ℕ
  pub health_path : Option String

pub record UpstreamShard : Type 0 where
  pub node_id : String
  pub private_ip : String
  pub updated_at : String
  pub backends : List UpstreamBackend

unfoldable pub backend_of : String → UpstreamBackend → EdgeBackend
backend_of private_ip b = record {
  domain = b.domain;
  private_ip = private_ip;
  host_port = b.host_port;
}

-- `result.get(domain) ?? []`, pushed to and set again.
unfoldable pub push_backend : EdgeBackend → Dict (List EdgeBackend) → Dict (List EdgeBackend)
push_backend b result = put b.domain (or_else (get b.domain result) [] ++ b ∷ []) result

unfoldable pub add_backends :
    String → List UpstreamBackend → Dict (List EdgeBackend) → Dict (List EdgeBackend)
add_backends private_ip [] result = result
add_backends private_ip (b ∷ bs) result =
    add_backends private_ip bs (push_backend (backend_of private_ip b) result)

unfoldable pub add_shards : List UpstreamShard → Dict (List EdgeBackend) → Dict (List EdgeBackend)
add_shards [] result = result
add_shards (s ∷ ss) result = add_shards ss (add_backends s.private_ip s.backends result)

unfoldable pub build_edge_backends_from_shards : List UpstreamShard → Dict (List EdgeBackend)
build_edge_backends_from_shards shards = add_shards shards []

-- The inner loop of `edgeHealthPathForDomain`; an empty path does not count.
unfoldable pub health_path_in : String → List UpstreamBackend → Option String
health_path_in domain [] = none
health_path_in domain (b ∷ bs) =
    let rest = health_path_in domain bs in
    elim b.health_path [
      | none ↦ rest
      | some path ↦ if str_eq b.domain domain && not (str_eq path "") then some path else rest
    ]

unfoldable pub edge_health_path_for_domain : List UpstreamShard → String → Option String
edge_health_path_for_domain [] domain = none
edge_health_path_for_domain (s ∷ ss) domain =
    let rest = edge_health_path_for_domain ss domain in
    elim (health_path_in domain s.backends) [ none ↦ rest | some path ↦ some path ]

-- What a shard, and all shards in their order, publish for a domain.
abbrev pub served : String → String → List UpstreamBackend → List EdgeBackend
served domain private_ip bs = map (backend_of private_ip) (filter (λ b. str_eq b.domain domain) bs)

abbrev pub routes : String → List UpstreamShard → List EdgeBackend
routes domain [] = []
routes domain (s ∷ ss) = served domain s.private_ip s.backends ++ routes domain ss

abbrev listed : String → Dict (List EdgeBackend) → List EdgeBackend
listed domain result = or_else (get domain result) []

listed-push_backend :
    (domain : String) (b : EdgeBackend) (result : Dict (List EdgeBackend))
    → listed domain (push_backend b result)
      ≡ (if str_eq b.domain domain then listed domain result ++ b ∷ [] else listed domain result)
unfolding push_backend
listed-push_backend domain b result = elim (Bool-cases (str_eq b.domain domain)) [
  | inl e ↦
      let same : b.domain ≡ domain = (eq_iff b.domain domain).0 e in
      rw (get-put b.domain domain (listed b.domain result ++ b ∷ []) result, e, same) refl
  | inr e ↦ rw (get-put b.domain domain (listed b.domain result ++ b ∷ []) result, e) refl
]

listed-add_backends :
    (domain private_ip : String) (bs : List UpstreamBackend) (result : Dict (List EdgeBackend))
    → listed domain (add_backends private_ip bs result)
      ≡ listed domain result ++ served domain private_ip bs
unfolding add_backends backend_of
listed-add_backends domain private_ip [] result = sym (append-nil (listed domain result))
listed-add_backends domain private_ip (b ∷ bs) result =
    let step = listed-push_backend domain (backend_of private_ip b) result in
    let rest =
      listed-add_backends domain private_ip bs (push_backend (backend_of private_ip b) result) in
    elim (Bool-cases (str_eq b.domain domain)) [
      | inl e ↦
          rest
          ∙ rw (step, e)
              (append_assoc (listed domain result) (backend_of private_ip b ∷ [])
                (served domain private_ip bs))
      | inr e ↦ rest ∙ rw (step, e) refl
    ]

listed-add_shards :
    (domain : String) (shards : List UpstreamShard) (result : Dict (List EdgeBackend))
    → listed domain (add_shards shards result) ≡ listed domain result ++ routes domain shards
unfolding add_shards
listed-add_shards domain [] result = sym (append-nil (listed domain result))
listed-add_shards domain (s ∷ ss) result =
    listed-add_shards domain ss (add_backends s.private_ip s.backends result)
    ∙ rw (listed-add_backends domain s.private_ip s.backends result) (
        append_assoc (listed domain result) (served domain s.private_ip s.backends)
          (routes domain ss))

-- The table lists for a domain exactly the backends that the shards publish for it, with the shard's
-- address, in the order of the shards.
pub build_edge_backends_from_shards-routes :
    (shards : List UpstreamShard) (domain : String)
    → or_else (get domain (build_edge_backends_from_shards shards)) [] ≡ routes domain shards
unfolding build_edge_backends_from_shards
build_edge_backends_from_shards-routes shards domain = listed-add_shards domain shards []
