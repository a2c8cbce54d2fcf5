-- ===== src/Autoscale.antt =====
-- packages/shared/src/autoscale.ts: the next action of a pool of nodes. Utilization is in
-- floating-point percents, whose operations are a parameter, as are the parser of a time stamp and
-- the locale's order of texts. A decision keeps the kind of its reason, without the text.
pub mod Absorb
pub mod Laws
pub mod ScaleOut
use launch_pad.Prelude.{
  ℕ, ◌+◌, ◌*◌, String, Bool, true, false, not, ◌&&◌, ◌||◌, Option, none, some, List, [], ◌∷◌,
  length, filter, find?, all, sum_from, max_from, contains, str_eq, ltb, leb, ◌==◌, if◌then◌else◌,
  or_else,
}
use launch_pad.Prelude.Int.{ℤ, pos, ◌+ℤ◌, ◌-ℤ◌, ltb_ℤ, leb_ℤ}
use launch_pad.Prelude.Sort.{sort}
use launch_pad.Registry.{NodeRole, Provisioning, node_hosts_containers}
use launch_pad.Candidates.{is_external}

pub record Percents : Type 1 where
  pub Num : Type 0
  pub nothing : Num
  -- `x + y`
  pub plus : Num → Num → Num
  -- `x / n`
  pub share : Num → ℕ → Num
  -- `x >= y`
  pub reaches : Num → Num → Bool
  -- `x < y`
  pub is_below : Num → Num → Bool
  -- `Math.max(x, y)`
  pub greatest : Num → Num → Num
  -- The sign of `x - y`: negative, and zero.
  pub is_less : Num → Num → Bool
  pub is_same : Num → Num → Bool

pub record AutoscaleNodeReservation : Type 0 where
  pub steady_cpu : ℕ
  pub steady_memory : ℕ
  pub surge_cpu : ℕ
  pub surge_memory : ℕ
  pub allocatable_cpu : ℤ
  pub allocatable_memory : ℤ

pub data NoneReason : Type 0 where
  in_cooldown no_metrics at_max_nodes all_protected cannot_absorb in_range : NoneReason

pub data ScaleOutReason : Type 0 where
  below_min_nodes hot : ScaleOutReason

pub data AutoscaleDecision : Type 0 where
  stay : NoneReason → AutoscaleDecision
  scale_out : ScaleOutReason → AutoscaleDecision
  scale_in : (victim : String) → AutoscaleDecision

abbrev pub down_states : List String
down_states = "stopped" ∷ "terminating" ∷ "terminated" ∷ []

-- The greatest of `victim`'s and the survivors' values.
abbrev pub sum_of : (AutoscaleNodeReservation → ℕ) → List AutoscaleNodeReservation → ℕ
sum_of f survivors = sum_from f 0 survivors

abbrev pub max_surge :
    (AutoscaleNodeReservation → ℕ) → AutoscaleNodeReservation → List AutoscaleNodeReservation → ℕ
max_surge f victim survivors = max_from f (f victim) survivors

-- `survivors.reduce(…)` of the allocatable amounts, which may be negative.
unfoldable pub sum_ℤ : (AutoscaleNodeReservation → ℤ) → ℤ → List AutoscaleNodeReservation → ℤ
sum_ℤ f acc [] = acc
sum_ℤ f acc (r ∷ rs) = sum_ℤ f (acc +ℤ f r) rs

unfoldable pub can_hold : AutoscaleNodeReservation → List AutoscaleNodeReservation → Bool
can_hold victim survivors =
    leb_ℤ
      (pos (
        sum_of (λ r. r.steady_cpu) survivors
        + victim.steady_cpu
        + max_surge (λ r. r.surge_cpu) victim survivors))
      (sum_ℤ (λ r. r.allocatable_cpu) (pos 0) survivors)
    && leb_ℤ
        (pos (
          sum_of (λ r. r.steady_memory) survivors
          + victim.steady_memory
          + max_surge (λ r. r.surge_memory) victim survivors))
        (sum_ℤ (λ r. r.allocatable_memory) (pos 0) survivors)

module _ (p : Percents) where
  open p use {Num, nothing, plus, share, reaches, is_below, greatest, is_less, is_same}

  pub record AutoscalePolicy : Type 0 where
    pub min_nodes : ℕ
    pub max_nodes : ℕ
    pub scale_out_percent : Num
    pub scale_in_percent : Num
    pub cooldown_seconds : ℕ
    pub last_scale_at : Option String

  pub record AutoscaleNodeObservation : Type 0 where
    pub node_id : String
    pub role : NodeRole
    pub state : String
    pub protected : Bool
    pub provisioning : Option Provisioning
    pub cpu_percent : Option Num
    pub memory_percent : Option Num
    pub reserved : Option AutoscaleNodeReservation

  unfoldable pub in_pool : AutoscaleNodeObservation → Bool
  in_pool n = node_hosts_containers n.role && not (contains n.state down_states)

  unfoldable pub is_fresh : AutoscaleNodeObservation → Bool
  is_fresh n = elim n.cpu_percent [
    | none ↦ false
    | some _ ↦ elim n.memory_percent [ none ↦ false | some _ ↦ true ]
  ]

  -- `nodes.reduce((s, n) => s + f(n), 0) / nodes.length`; a value that is null counts as 0.
  unfoldable pub total_percent :
      (AutoscaleNodeObservation → Option Num) → Num → List AutoscaleNodeObservation → Num
  total_percent f acc [] = acc
  total_percent f acc (n ∷ ns) = total_percent f (plus acc (or_else (f n) nothing)) ns

  unfoldable pub average :
      (AutoscaleNodeObservation → Option Num) → List AutoscaleNodeObservation → Num
  average f nodes = share (total_percent f nothing nodes) (length nodes)

  unfoldable pub is_cold : Num → AutoscaleNodeObservation → Bool
  is_cold bound n =
      is_below (or_else n.cpu_percent nothing) bound
      && is_below (or_else n.memory_percent nothing) bound

  unfoldable pub is_drainable : AutoscaleNodeObservation → Bool
  is_drainable n = not n.protected && not (is_external (or_else n.provisioning Provisioning.ec2))

  unfoldable pub load : AutoscaleNodeObservation → Num
  load n = greatest (or_else n.cpu_percent nothing) (or_else n.memory_percent nothing)

  -- The reservations of all nodes, where none is missing.
  unfoldable pub reservations :
      List AutoscaleNodeObservation → Option (List AutoscaleNodeReservation)
  reservations [] = some []
  reservations (n ∷ ns) =
      let rest = reservations ns in
      elim n.reserved [ none ↦ none | some r ↦ elim rest [ none ↦ none | some rs ↦ some (r ∷ rs) ] ]

  unfoldable pub survivors_of :
      AutoscaleNodeObservation → List AutoscaleNodeObservation → List AutoscaleNodeObservation
  survivors_of victim pool = filter (λ n. not (str_eq n.node_id victim.node_id)) pool

  unfoldable pub survivors_can_absorb :
      AutoscaleNodeObservation → List AutoscaleNodeObservation → Bool
  survivors_can_absorb victim pool = elim victim.reserved [
    | none ↦ true
    | some v ↦ elim (reservations (survivors_of victim pool)) [
      | none ↦ true
      | some survivors ↦ can_hold v survivors
    ]
  ]

  -- The end of the scale-in branch, at the victim that was found.
  unfoldable pub chosen : Option AutoscaleNodeObservation → AutoscaleDecision
  chosen none = stay cannot_absorb
  chosen (some victim) = scale_in victim.node_id

  module _ (parse_date : String → Option ℤ) (locale_before : String → String → Bool)
      (policy : AutoscalePolicy) (nodes : List AutoscaleNodeObservation) (now_ms : ℤ) where
    unfoldable pub pool_of : List AutoscaleNodeObservation
    pool_of = filter in_pool nodes

    unfoldable pub is_cooling : Bool
    is_cooling = elim policy.last_scale_at [
      | none ↦ false
      | some at ↦ elim (parse_date at) [
        | none ↦ false
        | some last ↦ ltb_ℤ (now_ms -ℤ last) (pos (policy.cooldown_seconds * 1000))
      ]
    ]

    -- The comparator of `sort`: is its value negative?
    unfoldable pub drains_first : AutoscaleNodeObservation → AutoscaleNodeObservation → Bool
    drains_first a b =
        if is_same (load a) (load b)
        then locale_before b.node_id a.node_id
        else is_less (load a) (load b)

    unfoldable pub drain :
        List AutoscaleNodeObservation → List AutoscaleNodeObservation → AutoscaleDecision
    drain pool [] = stay all_protected
    drain pool (c ∷ cs) =
        chosen (find? (λ v. survivors_can_absorb v pool) (sort drains_first (c ∷ cs)))

    unfoldable pub is_hot : List AutoscaleNodeObservation → Bool
    is_hot fresh =
        reaches (average (λ n. n.cpu_percent) fresh) policy.scale_out_percent
        || reaches (average (λ n. n.memory_percent) fresh) policy.scale_out_percent

    unfoldable pub every_node_cold :
        List AutoscaleNodeObservation → List AutoscaleNodeObservation → Bool
    every_node_cold pool fresh =
        length fresh == length pool && all (is_cold policy.scale_in_percent) pool

    -- From the metrics on: `fresh` is not empty.
    unfoldable pub by_metrics :
        List AutoscaleNodeObservation → List AutoscaleNodeObservation → AutoscaleDecision
    by_metrics pool [] = stay no_metrics
    by_metrics pool (f ∷ fs) =
        if is_hot (f ∷ fs)
        then if leb policy.max_nodes (length pool) then stay at_max_nodes else scale_out hot
        else if ltb policy.min_nodes (length pool) && every_node_cold pool (f ∷ fs)
        then drain pool (filter is_drainable pool)
        else stay in_range

    unfoldable pub plan_autoscale : AutoscaleDecision
    plan_autoscale =
        if ltb (length pool_of) policy.min_nodes
        then scale_out below_min_nodes
        else if is_cooling
        then stay in_cooldown
        else by_metrics pool_of (filter is_fresh pool_of)
