-- ===== src/IdleNodes/Exact.antt =====
-- Which nodes are recommended, and in which order.
use launch_pad.Prelude.{
  ◌-◌, ◌*◌, ◌/◌, ◌==◌, leb, ltb, ℕ, String, Bool, true, false, not, ◌&&◌, ◌||◌, Option, none, some,
  List, [], ◌∷◌, ◌≡◌, refl, ap, ◌∙◌, inl, inr, arith, Bool-cases, if◌then◌else◌, or_else, str_eq,
  any,
}
use launch_pad.Prelude.Entries.{any-sort}
use launch_pad.Registry.{NodeRole, edge, NodeState, stopped, ready}
use launch_pad.IdleNodes.Order.{AreDescending, before, sort-AreDescending}
use launch_pad.IdleNodes.{
  IdleNodeInput, IdleRecommendation, is_zero, is_empty_node, idle_days_since, recommendation,
  visit_paused, visit_ready, visit_idle, idle_from, recommend_idle_nodes,
}

-- Since when a node is idle: from its last heartbeat where it is stopped, from its creation where it
-- is ready with nothing to run or to route, and never otherwise.
abbrev idle_since : IdleNodeInput → Option String
idle_since n = elim n.state [
  | stopped ↦ some (or_else n.last_seen n.created_at)
  | ready ↦ if is_empty_node n then some n.created_at else none
  | _ ↦ none
]

-- No service, or for an edge no domain, where its routes are known.
abbrev pub serves_nothing : IdleNodeInput → Bool
serves_nothing n = elim n.role [
  | edge ↦ elim n.edge_routes [ none ↦ false | some routes ↦ routes == 0 ]
  | _ ↦ n.desired_services == 0
]

is_empty-serves_nothing : (n : IdleNodeInput) → is_empty_node n ≡ serves_nothing n
is_empty-serves_nothing n = at_role n.role n.edge_routes
  where
    at_role :
        (role : NodeRole) (routes : Option ℕ)
        → elim role [ edge ↦ is_zero routes | _ ↦ n.desired_services == 0 ] ≡ elim role [
          | edge ↦ elim routes [ none ↦ false | some k ↦ k == 0 ]
          | _ ↦ n.desired_services == 0
        ]
    at_role edge none = refl
    at_role edge (some k) = refl
    at_role NodeRole.app routes = refl
    at_role NodeRole.both routes = refl

module _ (parse_date : String → Option ℕ) {Usd : Type 0}
    (estimate_ec2_monthly : String → Option Usd) (now_ms min_idle_days : ℕ) where
  -- Idle for the days that are asked for, by the description above.
  abbrev is_listed : IdleNodeInput → Bool
  is_listed n = elim (idle_since n) [
    | none ↦ false
    | some moment ↦ not (ltb (idle_days_since parse_date moment now_ms) min_idle_days)
  ]

  abbrev long_since : Option String → Bool
  long_since moment = elim moment [
    | none ↦ false
    | some m ↦ not (ltb (idle_days_since parse_date m now_ms) min_idle_days)
  ]

  -- As long ago as the days that are asked for, of 86,400,000 ms each; an unreadable moment is no
  -- day ago.
  abbrev pub is_days_ago : String → Bool
  is_days_ago moment = elim (parse_date moment) [
    | none ↦ min_idle_days == 0
    | some t ↦ leb (min_idle_days * 86400000) (now_ms - t)
  ]

  -- A node that costs money for nothing.
  abbrev pub is_wasteful : IdleNodeInput → Bool
  is_wasteful n = elim n.state [
    | stopped ↦ is_days_ago (elim n.last_seen [ none ↦ n.created_at | some seen ↦ seen ])
    | ready ↦ serves_nothing n && is_days_ago n.created_at
    | _ ↦ false
  ]

  is_listed_days :
      (t : Option ℕ)
      → not (ltb (elim t [ none ↦ 0 | some m ↦ (now_ms - m) / 86400000 ]) min_idle_days) ≡ elim t [
        | none ↦ min_idle_days == 0
        | some m ↦ leb (min_idle_days * 86400000) (now_ms - m)
      ]
  is_listed_days none = ground arith
  is_listed_days (some m) = ground arith

  is_listed_moment :
      (moment : String)
      → not (ltb (idle_days_since parse_date moment now_ms) min_idle_days) ≡ is_days_ago moment
  unfolding idle_days_since
  is_listed_moment moment = is_listed_days (parse_date moment)

  is_listed_stopped :
      (n : IdleNodeInput) (seen : Option String)
      → not (ltb (idle_days_since parse_date (or_else seen n.created_at) now_ms) min_idle_days)
        ≡ is_days_ago (elim seen [ none ↦ n.created_at | some moment ↦ moment ])
  is_listed_stopped n none = is_listed_moment n.created_at
  is_listed_stopped n (some moment) = is_listed_moment moment

  is_listed_ready :
      (n : IdleNodeInput) (idle : Bool)
      → long_since (if idle then some n.created_at else none) ≡ (idle && is_days_ago n.created_at)
  is_listed_ready n true = is_listed_moment n.created_at
  is_listed_ready n false = refl

  is_listed_at :
      (n : IdleNodeInput) (state : NodeState)
      → long_since (elim state [
        | stopped ↦ some (or_else n.last_seen n.created_at)
        | ready ↦ if is_empty_node n then some n.created_at else none
        | _ ↦ none
      ])
        ≡ elim state [
          | stopped ↦ is_days_ago (elim n.last_seen [ none ↦ n.created_at | some seen ↦ seen ])
          | ready ↦ serves_nothing n && is_days_ago n.created_at
          | _ ↦ false
        ]
  is_listed_at n NodeState.provisioning = refl
  is_listed_at n ready =
      is_listed_ready n (is_empty_node n)
      ∙ ap (λ b. b && is_days_ago n.created_at) (is_empty-serves_nothing n)
  is_listed_at n stopped = is_listed_stopped n n.last_seen
  is_listed_at n NodeState.terminating = refl
  is_listed_at n NodeState.terminated = refl

  is_listed-is_wasteful : (n : IdleNodeInput) → is_listed n ≡ is_wasteful n
  is_listed-is_wasteful n = is_listed_at n n.state

  any-is_listed :
      (id : String) (ns : List IdleNodeInput)
      → any (λ n. str_eq n.node_id id && is_listed n) ns
        ≡ any (λ n. str_eq n.node_id id && is_wasteful n) ns
  any-is_listed id [] = refl
  any-is_listed id (n ∷ ns) = ground (arith, is_listed-is_wasteful n, any-is_listed id ns)

  abbrev names : String → List (IdleRecommendation Usd) → Bool
  names id rs = any (λ (r : IdleRecommendation Usd). str_eq r.node_id id) rs

  names-visit_paused :
      (id : String) (n : IdleNodeInput) (rs : List (IdleRecommendation Usd))
      → names id (visit_paused parse_date estimate_ec2_monthly now_ms min_idle_days n rs) ≡ (
          (str_eq n.node_id id
            && not (
                ltb
                  (idle_days_since parse_date (or_else n.last_seen n.created_at) now_ms)
                  min_idle_days))
          || names id rs)
  unfolding visit_paused recommendation
  names-visit_paused id n rs =
      elim (Bool-cases (
        ltb (idle_days_since parse_date (or_else n.last_seen n.created_at) now_ms) min_idle_days)) [
          | inl e ↦ rw e (ground arith)
          | inr e ↦ rw e (ground arith)
        ]

  names-visit_ready :
      (id : String) (n : IdleNodeInput) (rs : List (IdleRecommendation Usd))
      → names id (visit_ready parse_date estimate_ec2_monthly now_ms min_idle_days n rs) ≡ (
          (str_eq n.node_id id
            && (is_empty_node n
                && not (ltb (idle_days_since parse_date n.created_at now_ms) min_idle_days)))
          || names id rs)
  unfolding visit_ready recommendation
  names-visit_ready id n rs = elim (Bool-cases (is_empty_node n)) [
    | inl e ↦
        elim (Bool-cases (ltb (idle_days_since parse_date n.created_at now_ms) min_idle_days)) [
          | inl f ↦ rw e (rw f (ground arith))
          | inr f ↦ rw e (rw f (ground arith))
        ]
    | inr e ↦ rw e (ground arith)
  ]

  names-at_state :
      (id : String) (n : IdleNodeInput) (rs : List (IdleRecommendation Usd)) (state : NodeState)
      → names id (elim state [
        | stopped ↦ visit_paused parse_date estimate_ec2_monthly now_ms min_idle_days n rs
        | ready ↦ visit_ready parse_date estimate_ec2_monthly now_ms min_idle_days n rs
        | _ ↦ rs
      ])
        ≡ ((str_eq n.node_id id
              && long_since (elim state [
                | stopped ↦ some (or_else n.last_seen n.created_at)
                | ready ↦ if is_empty_node n then some n.created_at else none
                | _ ↦ none
              ]))
            || names id rs)
  names-at_state id n rs NodeState.provisioning = ground arith
  names-at_state id n rs ready =
      names-visit_ready id n rs
      ∙ elim (Bool-cases (is_empty_node n)) [ inl e ↦ rw e refl | inr e ↦ rw e refl ]
  names-at_state id n rs stopped = names-visit_paused id n rs
  names-at_state id n rs NodeState.terminating = ground arith
  names-at_state id n rs NodeState.terminated = ground arith

  names-idle_from :
      (id : String) (ns : List IdleNodeInput)
      → names id (idle_from parse_date estimate_ec2_monthly now_ms min_idle_days ns)
        ≡ any (λ n. str_eq n.node_id id && is_listed n) ns
  unfolding idle_from visit_idle
  names-idle_from id [] = refl
  names-idle_from id (n ∷ ns) =
      names-at_state id n (idle_from parse_date estimate_ec2_monthly now_ms min_idle_days ns)
        n.state
      ∙ ap (λ b. (str_eq n.node_id id && is_listed n) || b) (names-idle_from id ns)

  module _ (locale_before : String → String → Bool) where
    -- A node is recommended exactly where it has been idle for the days that are asked for: a stopped
    -- one since its last heartbeat (or its creation, if there was none), a ready one with no service,
    -- or no domain if it is an edge whose routes are known, since its creation; a day is 24 hours,
    -- and an unreadable moment is no day ago. The most idle come first.
    pub recommend_idle_nodes-exact :
        (nodes : List IdleNodeInput)
        → ((id : String)
            → any
                (λ (r : IdleRecommendation Usd). str_eq r.node_id id)
                (recommend_idle_nodes parse_date estimate_ec2_monthly now_ms min_idle_days
                  locale_before nodes)
              ≡ any (λ n. str_eq n.node_id id && is_wasteful n) nodes)
          × AreDescending (
              recommend_idle_nodes parse_date estimate_ec2_monthly now_ms min_idle_days
                locale_before nodes)
    unfolding recommend_idle_nodes
    recommend_idle_nodes-exact nodes = (
      λ id.
          any-sort (before parse_date estimate_ec2_monthly now_ms min_idle_days locale_before)
            (λ r. str_eq r.node_id id)
            (idle_from parse_date estimate_ec2_monthly now_ms min_idle_days nodes)
          ∙ names-idle_from id nodes
          ∙ any-is_listed id nodes,
      sort-AreDescending parse_date estimate_ec2_monthly now_ms min_idle_days locale_before
          (idle_from parse_date estimate_ec2_monthly now_ms min_idle_days nodes),
    )
