-- ===== src/Autoscale/Laws.antt =====
-- What `planAutoscale` decides, and on what grounds.
use launch_pad.Prelude.{
  All-zip, Option-cases, contains, ◌*◌, ◌⊎◌, ◌≢◌, ◌≤◌, ◌<◌, String, Bool, true, false, ◌≡◌, refl,
  ◌∙◌, inl, inr, Option, none, some, List, [], ◌∷◌, length, filter, find?, all, All, arith,
  Bool-cases, ltb, leb, ltb→lt, ◌&&◌, if_true, if_false, ap,
}
use launch_pad.Prelude.Int.{pos, ◌≤ℤ◌, ◌-ℤ◌, ℤ}
use launch_pad.Prelude.Sort.{sort}
use launch_pad.Prelude.Occurs.{Occurs, find?-Occurs, Occurs-filter, Occurs-sort}
use launch_pad.Registry.{node_hosts_containers, Provisioning}
use launch_pad.Autoscale.Absorb.{AreReserved, IsAbsorbed, absorb-IsAbsorbed}
use launch_pad.Autoscale.{
  average, in_pool, AutoscaleNodeReservation, Percents, AutoscalePolicy, AutoscaleNodeObservation,
  AutoscaleDecision, stay, scale_out, scale_in, below_min_nodes, hot, pool_of, is_cooling, is_fresh,
  is_hot, is_cold, is_drainable, survivors_can_absorb, drains_first, drain, every_node_cold,
  by_metrics, plan_autoscale, chosen,
}

length-filter-le {ℓ} : {A : Type ℓ} (p : A → Bool) (xs : List A) → length (filter p xs) ≤ length xs
length-filter-le p [] = omega arith
length-filter-le p (x ∷ xs) = ground (arith, length-filter-le p xs)

-- A filter that drops nothing holds of all.
All-filter_all {ℓ} :
    {A : Type ℓ} (p : A → Bool) (xs : List A)
    → length (filter p xs) ≡ length xs
    → All (λ x. p x ≡ true) xs
All-filter_all p [] h = tt
All-filter_all p (x ∷ xs) h =
    let bound = length-filter-le p xs in
    elim (Bool-cases (p x)) [
      | inl e ↦ (
        e,
        All-filter_all p xs
            (omega (arith, h, ap length (if_true (x ∷ filter p xs) (filter p xs) e))),
      )
      | inr e ↦
          absurd (omega (arith, h, bound, ap length (if_false (x ∷ filter p xs) (filter p xs) e)))
    ]

All-all {ℓ} : {A : Type ℓ} (p : A → Bool) (xs : List A) → all p xs ≡ true → All (λ x. p x ≡ true) xs
All-all p [] h = tt
All-all p (x ∷ xs) h = (ground arith, All-all p xs (ground arith))

module _ (p : Percents) (parse_date : String → Option ℤ) (locale_before : String → String → Bool)
    (policy : AutoscalePolicy p) (nodes : List (AutoscaleNodeObservation p)) (now_ms : ℤ) where
  open p use {Num, reaches, is_below}

  abbrev pub pool_nodes : List (AutoscaleNodeObservation p)
  unfolding pool_of
  pool_nodes = pool_of p parse_date locale_before policy nodes now_ms

  -- The cooldown after the last action, where its moment is known and readable, is over.
  abbrev pub IsSettled : Type 0
  IsSettled =
      (at : String) (last : ℤ)
      → policy.last_scale_at ≡ some at
      → parse_date at ≡ some last
      → pos (policy.cooldown_seconds * 1000) ≤ℤ (now_ms -ℤ last)

  settled-IsSettled : is_cooling p parse_date locale_before policy nodes now_ms ≡ false → IsSettled
  unfolding is_cooling
  settled-IsSettled h at last e f = let k = rw (e, is_cooling, f) at h in ground (arith, k)

  -- Both percents are known and below the bound.
  pub record IsSeenCold (n : AutoscaleNodeObservation p) : Type 0 where
    pub cpu : Num
    pub memory : Num
    pub cpu_known : n.cpu_percent ≡ some cpu
    pub memory_known : n.memory_percent ≡ some memory
    pub cpu_cold : is_below cpu policy.scale_in_percent ≡ true
    pub memory_cold : is_below memory policy.scale_in_percent ≡ true

  cold-IsSeenCold :
      (n : AutoscaleNodeObservation p)
      → is_fresh p n ≡ true
      → is_cold p policy.scale_in_percent n ≡ true
      → IsSeenCold n
  unfolding is_fresh is_cold
  cold-IsSeenCold n h k = elim (Option-cases n.cpu_percent) [
    | inl e ↦ absurd (let x = rw e at h in cc)
    | inr (cpu, e) ↦ elim (Option-cases n.memory_percent) [
      | inl f ↦ absurd (let x = rw (e, f) at h in cc)
      | inr (memory, f) ↦
          let x = rw (e, f) at k in
          record {
            cpu = cpu;
            memory = memory;
            cpu_known = e;
            memory_known = f;
            cpu_cold = ground (arith, x);
            memory_cold = ground (arith, x);
          }
    ]
  ]

  -- The average of the known percents reaches the bound, of CPU or of memory.
  abbrev pub IsHot : Type 0
  IsHot =
      let seen = filter (is_fresh p) pool_nodes in
      (reaches (average p (λ n. n.cpu_percent) seen) policy.scale_out_percent ≡ true)
      ⊎ (reaches (average p (λ n. n.memory_percent) seen) policy.scale_out_percent ≡ true)

  hot-IsHot :
      is_hot p parse_date locale_before policy nodes now_ms (filter (is_fresh p) pool_nodes) ≡ true
      → IsHot
  unfolding is_hot
  hot-IsHot h =
      let seen = filter (is_fresh p) pool_nodes in
      elim (Bool-cases (reaches (average p (λ n. n.cpu_percent) seen) policy.scale_out_percent)) [
        | inl e ↦ inl e
        | inr e ↦ inr (ground (arith, e, h))
      ]

  in_pool_sound :
      (n : AutoscaleNodeObservation p)
      → Occurs n pool_nodes
      → Occurs n nodes
        × (node_hosts_containers n.role ≡ true)
        × (contains n.state ("stopped" ∷ "terminating" ∷ "terminated" ∷ []) ≡ false)
  unfolding pool_of in_pool
  in_pool_sound n o =
      let (h, there) = Occurs-filter (in_pool p) nodes o in
      (there, ground (arith, h), ground (arith, h))

  -- The grounds of a scale-in: the pool keeps its minimum, no node is unseen or warm, the last action
  -- is past its cooldown, and the victim is a node that may go; where its reservation and those of all
  -- others are known, the others can absorb it.
  pub record IsDrain (victim : String) : Type 0 where
    pub above_min : policy.min_nodes < length pool_nodes
    pub settled : IsSettled
    pub cold : All IsSeenCold pool_nodes
    pub node : AutoscaleNodeObservation p
    pub named : node.node_id ≡ victim
    pub listed : Occurs node nodes
    pub hosts : node_hosts_containers node.role ≡ true
    pub up : contains node.state ("stopped" ∷ "terminating" ∷ "terminated" ∷ []) ≡ false
    pub unprotected : node.protected ≡ false
    pub created : node.provisioning ≢ some Provisioning.external
    pub absorbed :
        (v : AutoscaleNodeReservation) (rs : List AutoscaleNodeReservation)
        → node.reserved ≡ some v
        → AreReserved p node.node_id pool_nodes rs
        → IsAbsorbed v rs

  -- The grounds of each decision.
  abbrev pub Outcome : AutoscaleDecision → Type 0
  Outcome (stay reason) = policy.min_nodes ≤ length pool_nodes
  Outcome (scale_out below_min_nodes) = length pool_nodes < policy.min_nodes
  Outcome (scale_out hot) =
      (policy.min_nodes ≤ length pool_nodes)
      × (length pool_nodes < policy.max_nodes)
      × IsSettled
      × IsHot
  Outcome (scale_in victim) = IsDrain victim

  is_drainable-unprotected :
      (node : AutoscaleNodeObservation p) → is_drainable p node ≡ true → node.protected ≡ false
  unfolding is_drainable
  is_drainable-unprotected node h = ground arith

  is_drainable-created :
      (node : AutoscaleNodeObservation p)
      → is_drainable p node ≡ true
      → node.provisioning ≢ some Provisioning.external
  unfolding is_drainable
  is_drainable-created node h e = absurd (let k = rw e at h in ground (arith, k))

  cold-IsDrain :
      (fresh : List (AutoscaleNodeObservation p))
      → filter (is_fresh p) pool_nodes ≡ fresh
      → is_cooling p parse_date locale_before policy nodes now_ms ≡ false
      → (ltb policy.min_nodes (length pool_nodes)
          && every_node_cold p parse_date locale_before policy nodes now_ms pool_nodes fresh)
        ≡ true
      → (node : AutoscaleNodeObservation p) → Occurs node (filter (is_drainable p) pool_nodes)
      → survivors_can_absorb p node pool_nodes ≡ true
      → IsDrain node.node_id
  unfolding every_node_cold
  cold-IsDrain fresh same settled h node o absorbed =
      let (drainable, occurs) = Occurs-filter (is_drainable p) pool_nodes o in
      let (listed, hosts, up) = in_pool_sound node occurs in
      let counted : length fresh ≡ length pool_nodes = ground arith in
      record {
        above_min = ground arith;
        settled = settled-IsSettled settled;
        cold =
            All-zip cold-IsSeenCold pool_nodes
              (All-filter_all (is_fresh p) pool_nodes (ap length same ∙ counted))
              (All-all (is_cold p policy.scale_in_percent) pool_nodes (ground arith));
        node = node;
        named = refl;
        listed = listed;
        hosts = hosts;
        up = up;
        unprotected = is_drainable-unprotected node drainable;
        created = is_drainable-created node drainable;
        absorbed = λ v rs e k. absorb-IsAbsorbed p node pool_nodes v rs absorbed e k;
      }

  chosen-Outcome :
      (found : Option (AutoscaleNodeObservation p))
      → policy.min_nodes ≤ length pool_nodes
      → ((v : AutoscaleNodeObservation p) → found ≡ some v → IsDrain v.node_id)
      → Outcome (chosen p found)
  unfolding chosen
  chosen-Outcome none floor f = floor
  chosen-Outcome (some v) floor f = f v refl

  drain-Outcome :
      (pool candidates : List (AutoscaleNodeObservation p))
      → policy.min_nodes ≤ length pool_nodes
      → ((node : AutoscaleNodeObservation p)
          → Occurs node candidates
          → survivors_can_absorb p node pool ≡ true
          → IsDrain node.node_id)
      → Outcome (drain p parse_date locale_before policy nodes now_ms pool candidates)
  unfolding drain
  drain-Outcome pool [] floor f = floor
  drain-Outcome pool (c ∷ cs) floor f =
      let before = drains_first p parse_date locale_before policy nodes now_ms in
      let ordered = sort before (c ∷ cs) in
      chosen-Outcome (find? (λ v. survivors_can_absorb p v pool) ordered) floor (λ victim e.
        let (absorbed, o) = find?-Occurs (λ v. survivors_can_absorb p v pool) ordered e in
        f victim (Occurs-sort before victim (c ∷ cs) o) absorbed)

  by_metrics-Outcome :
      (fresh : List (AutoscaleNodeObservation p))
      → filter (is_fresh p) pool_nodes ≡ fresh
      → policy.min_nodes ≤ length pool_nodes
      → is_cooling p parse_date locale_before policy nodes now_ms ≡ false
      → Outcome (by_metrics p parse_date locale_before policy nodes now_ms pool_nodes fresh)
  unfolding by_metrics
  by_metrics-Outcome [] same floor settled = floor
  by_metrics-Outcome (f ∷ fs) same floor settled =
      elim (Bool-cases (is_hot p parse_date locale_before policy nodes now_ms (f ∷ fs))) [
        | inl h ↦ elim (Bool-cases (leb policy.max_nodes (length pool_nodes))) [
          | inl full ↦ rw (h, full) floor
          | inr room ↦
              rw (h, room) (floor, ground arith, settled-IsSettled settled, hot-IsHot (rw same h))
        ]
        | inr h ↦
            let cold =
              ltb policy.min_nodes (length pool_nodes)
              && every_node_cold p parse_date locale_before policy nodes now_ms pool_nodes
                  (f ∷ fs) in
            elim (Bool-cases cold) [
              | inl c ↦
                  rw (h, c)
                    (drain-Outcome pool_nodes (filter (is_drainable p) pool_nodes) floor
                      (cold-IsDrain (f ∷ fs) same settled c))
              | inr c ↦ rw (h, c) floor
            ]
      ]

  -- The grounds of the decision: a pool below its minimum grows; a pool of at least that grows only
  -- after its cooldown, below its maximum and where the average of the known percents reaches the
  -- bound, of CPU or memory; a node is drained only after the cooldown, from a pool above its minimum
  -- in which both percents of every node are known and below their bound. It is a node that hosts
  -- containers, is not down, unprotected and not external, and, where all reservations are known, the
  -- others' allocatable amounts cover what they and the node hold and the largest surge of any of them.
  pub plan_autoscale-Outcome :
      Outcome (plan_autoscale p parse_date locale_before policy nodes now_ms)
  unfolding plan_autoscale pool_of
  plan_autoscale-Outcome = elim (Bool-cases (ltb (length pool_nodes) policy.min_nodes)) [
    | inl low ↦ rw low (ltb→lt _ _ low)
    | inr enough ↦ elim (Bool-cases (is_cooling p parse_date locale_before policy nodes now_ms)) [
      | inl cooling ↦ rw (enough, cooling) (ground arith)
      | inr settled ↦
          rw (enough, settled)
            (by_metrics-Outcome (filter (is_fresh p) pool_nodes) refl (ground arith) settled)
    ]
  ]
