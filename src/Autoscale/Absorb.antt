-- ===== src/Autoscale/Absorb.antt =====
-- When the other nodes of a pool can absorb a drained one.
use launch_pad.Prelude.{
  ◌+◌, ◌≢◌, ℕ, max, sum_from, max_from, le-max_from, str_eq, eq_iff, ◌≤◌, String, true, false, ◌≡◌,
  refl, ◌∙◌, inl, inr, some, List, [], ◌∷◌, arith, Bool-cases,
}
use launch_pad.Prelude.Int.{ℤ, pos, ◌+ℤ◌, ◌≤ℤ◌, +ℤ_parts, eq_of_parts}
use launch_pad.Prelude.Occurs.{Occurs}
use launch_pad.Autoscale.{
  AutoscaleNodeReservation, can_hold, sum_ℤ, reservations, survivors_of, Percents,
  AutoscaleNodeObservation, survivors_can_absorb,
}

-- What the nodes hold and have together.
module _ (f : AutoscaleNodeReservation → ℕ) where
  abbrev pub held : List AutoscaleNodeReservation → ℕ
  held [] = 0
  held (r ∷ rs) = f r + held rs

  sum_from-held : (acc : ℕ) (rs : List AutoscaleNodeReservation) → sum_from f acc rs ≡ acc + held rs
  sum_from-held acc [] = omega arith
  sum_from-held acc (r ∷ rs) = omega (arith, sum_from-held (acc + f r) rs)

  Occurs-max_from :
      (acc : ℕ) (rs : List AutoscaleNodeReservation) (r : AutoscaleNodeReservation)
      → Occurs r rs
      → f r ≤ max_from f acc rs
  Occurs-max_from acc [] r o = absurd o
  Occurs-max_from acc (x ∷ rs) r (inl e) = rw e (omega (arith, le-max_from f (max acc (f x)) rs))
  Occurs-max_from acc (x ∷ rs) r (inr o) = Occurs-max_from (max acc (f x)) rs r o

module _ (f : AutoscaleNodeReservation → ℤ) where
  abbrev pub available : List AutoscaleNodeReservation → ℤ
  available [] = pos 0
  available (r ∷ rs) = f r +ℤ available rs

  sum_ℤ-available :
      (acc : ℤ) (rs : List AutoscaleNodeReservation) → sum_ℤ f acc rs ≡ acc +ℤ available rs
  unfolding sum_ℤ
  sum_ℤ-available acc [] = eq_of_parts _ _ (omega (arith, +ℤ_parts acc (pos 0)))
  sum_ℤ-available acc (r ∷ rs) =
      let rest = available rs in
      sum_ℤ-available (acc +ℤ f r) rs
      ∙ eq_of_parts _ _ (
          omega (
            arith,
            +ℤ_parts (acc +ℤ f r) rest,
            +ℤ_parts acc (f r),
            +ℤ_parts acc (f r +ℤ rest),
            +ℤ_parts (f r) rest,
          ))

-- The others' room takes in what the victim holds, and then the rollout of any one node's services.
pub record IsAbsorbed (v : AutoscaleNodeReservation) (rs : List AutoscaleNodeReservation)
    : Type 0 where
  pub cpu :
      (r : AutoscaleNodeReservation)
      → Occurs r (v ∷ rs)
      → pos (held (λ x. x.steady_cpu) rs + v.steady_cpu + r.surge_cpu)
        ≤ℤ available (λ x. x.allocatable_cpu) rs
  pub memory :
      (r : AutoscaleNodeReservation)
      → Occurs r (v ∷ rs)
      → pos (held (λ x. x.steady_memory) rs + v.steady_memory + r.surge_memory)
        ≤ℤ available (λ x. x.allocatable_memory) rs

Occurs-max_surge :
    (f : AutoscaleNodeReservation → ℕ) (v : AutoscaleNodeReservation)
    (rs : List AutoscaleNodeReservation) (r : AutoscaleNodeReservation)
    → Occurs r (v ∷ rs)
    → f r ≤ max_from f (f v) rs
Occurs-max_surge f v rs r (inl e) = rw e (le-max_from f (f v) rs)
Occurs-max_surge f v rs r (inr o) = Occurs-max_from f (f v) rs r o

can_hold-IsAbsorbed :
    (v : AutoscaleNodeReservation) (rs : List AutoscaleNodeReservation)
    → can_hold v rs ≡ true
    → IsAbsorbed v rs
unfolding can_hold
can_hold-IsAbsorbed v rs h =
    let cpu_room = sum_ℤ-available (λ x. x.allocatable_cpu) (pos 0) rs in
    let memory_room = sum_ℤ-available (λ x. x.allocatable_memory) (pos 0) rs in
    let cpu_bound : pos (
          sum_from (λ x. x.steady_cpu) 0 rs
          + v.steady_cpu
          + max_from (λ x. x.surge_cpu) v.surge_cpu rs)
        ≤ℤ sum_ℤ (λ x. x.allocatable_cpu) (pos 0) rs =
      ground arith in
    let memory_bound : pos (
          sum_from (λ x. x.steady_memory) 0 rs
          + v.steady_memory
          + max_from (λ x. x.surge_memory) v.surge_memory rs)
        ≤ℤ sum_ℤ (λ x. x.allocatable_memory) (pos 0) rs =
      ground arith in
    record {
      cpu = λ r o. omega (
        arith,
        rw cpu_room at cpu_bound,
        +ℤ_parts (pos 0) (available (λ x. x.allocatable_cpu) rs),
        sum_from-held (λ x. x.steady_cpu) 0 rs,
        Occurs-max_surge (λ x. x.surge_cpu) v rs r o,
      );
      memory = λ r o. omega (
        arith,
        rw memory_room at memory_bound,
        +ℤ_parts (pos 0) (available (λ x. x.allocatable_memory) rs),
        sum_from-held (λ x. x.steady_memory) 0 rs,
        Occurs-max_surge (λ x. x.surge_memory) v rs r o,
      );
    }

module _ (p : Percents) where
  -- The reservations of the nodes other than `victim`, where all of them are known.
  pub data AreReserved (victim : String)
      : List (AutoscaleNodeObservation p) → List AutoscaleNodeReservation → Type 0 where
    done : AreReserved victim [] []
    itself :
        {n : AutoscaleNodeObservation p} {ns : List (AutoscaleNodeObservation p)}
        {rs : List AutoscaleNodeReservation}
        → n.node_id ≡ victim
        → AreReserved victim ns rs
        → AreReserved victim (n ∷ ns) rs
    another :
        {n : AutoscaleNodeObservation p} {ns : List (AutoscaleNodeObservation p)}
        {r : AutoscaleNodeReservation} {rs : List AutoscaleNodeReservation}
        → n.node_id ≢ victim
        → n.reserved ≡ some r
        → AreReserved victim ns rs
        → AreReserved victim (n ∷ ns) (r ∷ rs)

  AreReserved-reservations :
      (victim : AutoscaleNodeObservation p) (ns : List (AutoscaleNodeObservation p))
      (rs : List AutoscaleNodeReservation)
      → AreReserved victim.node_id ns rs
      → reservations p (survivors_of p victim ns) ≡ some rs
  unfolding reservations survivors_of
  AreReserved-reservations victim [] [] done = refl
  AreReserved-reservations victim [] (r ∷ rs) k = elim k [ ]
  AreReserved-reservations victim (n ∷ ns) rs (itself same k) =
      rw ((eq_iff n.node_id victim.node_id).1 same) (AreReserved-reservations victim ns rs k)
  AreReserved-reservations victim (n ∷ ns) (r ∷ rs) (another other e k) =
      let apart : str_eq n.node_id victim.node_id ≡ false =
        elim (Bool-cases (str_eq n.node_id victim.node_id)) [
          | inl h ↦ absurd (other ((eq_iff n.node_id victim.node_id).0 h))
          | inr h ↦ h
        ] in
      rw (apart, e, AreReserved-reservations victim ns rs k) refl

  pub absorb-IsAbsorbed :
      (victim : AutoscaleNodeObservation p) (pool : List (AutoscaleNodeObservation p))
      (v : AutoscaleNodeReservation) (rs : List AutoscaleNodeReservation)
      → survivors_can_absorb p victim pool ≡ true
      → victim.reserved ≡ some v
      → AreReserved victim.node_id pool rs
      → IsAbsorbed v rs
  unfolding survivors_can_absorb
  absorb-IsAbsorbed victim pool v rs h e k =
      can_hold-IsAbsorbed v rs
        (rw (e, AreReserved-reservations victim pool rs k, survivors_can_absorb) at h)
