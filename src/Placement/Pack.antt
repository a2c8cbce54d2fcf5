-- ===== src/Placement/Pack.antt =====
-- `packByCapacity`: no round overfills a node, and every replica is counted once.
use mathlib.Core.Path.{subst}
use launch_pad.Prelude.{
  ℕ, zero, suc, ◌+◌, String, true, false, ◌≡◌, refl, ◌⊎◌, inl, inr, some, List, [], ◌∷◌, All, arith,
  Bool-cases, if◌then◌else◌, str_eq, eq_iff, contains, Distinct, str_eq-sym, Dict, put, get-put, ok,
  Option-cases, All-weaken, All-zip,
}
use launch_pad.Prelude.Doubles.{Doubles}
use launch_pad.Placement.{
  Placement, NodeTally, ClusterServiceInput, fits, count_at, find_tally, pack_rounds, best_node,
  err, placements_of, capacity_placement, ltb, PlacementError,
}
use launch_pad.Placement.Best.{HasRoom, OfSome, best_node-OfSome, best_node-eq-none_iff}
use launch_pad.Placement.Tallies.{
  node_ids, Distinct-IsIndexed, replicas_on, placed_ids, replicas_on-eq-zero,
}

-- A node got nothing, or its load with all that it got fits.
abbrev pub IsSafe : ClusterServiceInput → Dict ℕ → NodeTally → Type 0
IsSafe s counts t =
    (count_at counts t.node.node_id ≡ 0) ⊎ (fits t s (count_at counts t.node.node_id) ≡ true)

abbrev pub one_more : NodeTally → Dict ℕ → Dict ℕ
one_more b counts = put b.node.node_id (count_at counts b.node.node_id + 1) counts

-- The replicas counted on the nodes of a pool.
abbrev pub total : Dict ℕ → List NodeTally → ℕ
total counts [] = 0
total counts (t ∷ ts) = count_at counts t.node.node_id + total counts ts

abbrev pub total_replicas : List Placement → ℕ
total_replicas [] = 0
total_replicas (p ∷ ps) = p.replicas + total_replicas ps

count_at-put :
    (k j : String) (n : ℕ) (counts : Dict ℕ)
    → count_at (put k n counts) j ≡ (if str_eq k j then n else count_at counts j)
count_at-put k j n counts = ground (arith, get-put k j n counts)

module _ (s : ClusterServiceInput) (pool : List NodeTally) where
  IsSafe-one_more :
      (counts : Dict ℕ) (b t : NodeTally)
      → HasRoom s counts 1 b
      → find_tally b.node.node_id pool ≡ some b
      → find_tally t.node.node_id pool ≡ some t
      → IsSafe s counts t
      → IsSafe s (one_more b counts) t
  IsSafe-one_more counts b t room fb ft h =
      elim (Bool-cases (str_eq b.node.node_id t.node.node_id)) [
        | inl e ↦
            let same : b ≡ t = cc (fb, ft, (eq_iff b.node.node_id t.node.node_id).0 e) in
            rw (count_at-put, e)
              (inr (subst (λ x. fits x s (count_at counts b.node.node_id + 1) ≡ true) same room))
        | inr e ↦ rw (count_at-put, e) h
      ]

total-put_other :
    (k : String) (n : ℕ) (counts : Dict ℕ) (ts : List NodeTally)
    → contains k (node_ids ts) ≡ false
    → total (put k n counts) ts ≡ total counts ts
total-put_other k n counts [] h = refl
total-put_other k n counts (t ∷ ts) h = ground (
  arith,
  total-put_other k n counts ts,
  count_at-put k t.node.node_id n counts,
  str_eq-sym k t.node.node_id,
)

total-put :
    (k : String) (counts : Dict ℕ) (ts : List NodeTally) (b : NodeTally)
    → Distinct (node_ids ts)
    → find_tally k ts ≡ some b
    → total (put k (count_at counts k + 1) counts) ts ≡ total counts ts + 1
unfolding find_tally
total-put k counts [] b d f = cc
total-put k counts (t ∷ ts) b (new, d) f = elim (Bool-cases (str_eq t.node.node_id k)) [
  | inl e ↦
      let n = count_at counts k + 1 in
      let same : t.node.node_id ≡ k = (eq_iff t.node.node_id k).0 e in
      let gone : contains k (node_ids ts) ≡ false =
        subst (λ x. contains x (node_ids ts) ≡ false) same new in
      rw (total-put_other k n counts ts gone, count_at-put, str_eq-sym k t.node.node_id, e, same)
        (omega arith)
  | inr e ↦
      rw (count_at-put, str_eq-sym k t.node.node_id, e, total-put k counts ts b d (rw (e) at f))
        (omega arith)
]

module _ (d : Doubles) (s : ClusterServiceInput) (pool : List NodeTally) where
  picked :
      (counts : Dict ℕ)
      → Distinct (node_ids pool)
      → (b : NodeTally) → best_node d pool s counts 1 ≡ some b
      → HasRoom s counts 1 b × (find_tally b.node.node_id pool ≡ some b)
  picked counts nd b e =
      subst (OfSome (λ b. HasRoom s counts 1 b × (find_tally b.node.node_id pool ≡ some b))) e (
        best_node-OfSome d s counts 1 _ pool
          (All-weaken (λ t f room. (room, f)) pool (Distinct-IsIndexed pool nd)))

  -- Each round keeps every node safe and counts one replica.
  pub pack_rounds-IsSafe :
      (left i : ℕ) (counts : Dict ℕ) {counts' : Dict ℕ}
      → Distinct (node_ids pool)
      → All (IsSafe s counts) pool
      → pack_rounds d pool s left i counts ≡ ok counts'
      → All (IsSafe s counts') pool × (total counts' pool ≡ total counts pool + left)
  unfolding pack_rounds
  pack_rounds-IsSafe zero i counts {counts'} nd safe h =
      let same : counts ≡ counts' = cc in
      (subst (λ c. All (IsSafe s c) pool) same safe, rw same (omega arith))
  pack_rounds-IsSafe (suc left) i counts {counts'} nd safe h =
      elim (Option-cases (best_node d pool s counts 1)) [
        | inl e ↦
            let k : err (capacity_placement s.name i s.replicas) ≡ ok counts' =
              rw (e, pack_rounds) at h in
            cc
        | inr (b, e) ↦
            let (room, found) = picked counts nd b e in
            let (safe', count) =
              pack_rounds-IsSafe left (i + 1) (one_more b counts) nd
                (All-zip (λ t. IsSafe-one_more s pool counts b t room found) pool
                  (Distinct-IsIndexed pool nd) safe)
                (rw (e, pack_rounds) at h) in
            (safe', omega (arith, count, total-put b.node.node_id counts pool b nd found))
      ]

  -- The loop throws only where the nodes are safe with the replicas placed so far, and no node
  -- has room for one more; the error names that replica.
  pub record IsStuck (placed_before : ℕ) (e : PlacementError) : Type 0 where
    pub counts : Dict ℕ
    pub placed : ℕ
    pub counted : total counts pool ≡ placed_before + placed
    pub safe : All (IsSafe s counts) pool
    pub no_room : All (λ t. fits t s (count_at counts t.node.node_id + 1) ≡ false) pool
    pub which : e ≡ capacity_placement s.name (placed + 1) s.replicas

  pub pack_rounds-IsStuck :
      (left placed : ℕ) (counts : Dict ℕ) {e : PlacementError}
      → Distinct (node_ids pool)
      → All (IsSafe s counts) pool
      → (before : ℕ) → total counts pool ≡ before + placed
      → pack_rounds d pool s left (placed + 1) counts ≡ err e
      → IsStuck before e
  unfolding pack_rounds
  pack_rounds-IsStuck zero placed counts nd safe before t h = cc
  pack_rounds-IsStuck (suc left) placed counts {e} nd safe before t h =
      elim (Option-cases (best_node d pool s counts 1)) [
        | inl n ↦
            let k : err (capacity_placement s.name (placed + 1) s.replicas) ≡ err e =
              rw (n, pack_rounds) at h in
            record {
              counts = counts;
              placed = placed;
              counted = t;
              safe = safe;
              no_room = (best_node-eq-none_iff d s counts 1 pool).0 n;
              which = cc;
            }
        | inr (b, n) ↦
            let (room, found) = picked counts nd b n in
            pack_rounds-IsStuck left (placed + 1) (one_more b counts) nd
              (All-zip (λ t. IsSafe-one_more s pool counts b t room found) pool
                (Distinct-IsIndexed pool nd) safe)
              before (omega (arith, total-put b.node.node_id counts pool b nd found))
              (rw (n, pack_rounds) at h)
      ]

-- What `placements_of` reports of the counts.
module _ (counts : Dict ℕ) where
  contains-placements_of :
      (id : String) (pool : List NodeTally)
      → contains id (node_ids pool) ≡ false
      → contains id (placed_ids (placements_of counts pool)) ≡ false
  unfolding placements_of
  contains-placements_of id [] h = refl
  contains-placements_of id (t ∷ ts) h = ground (arith, contains-placements_of id ts)

  pub placements_of-Distinct :
      (pool : List NodeTally)
      → Distinct (node_ids pool)
      → Distinct (placed_ids (placements_of counts pool))
  unfolding placements_of
  placements_of-Distinct [] h = tt
  placements_of-Distinct (t ∷ ts) (new, h) =
      elim (Bool-cases (ltb 0 (count_at counts t.node.node_id))) [
        | inl e ↦ rw e (contains-placements_of t.node.node_id ts new, placements_of-Distinct ts h)
        | inr e ↦ rw e (placements_of-Distinct ts h)
      ]

  pub replicas_on-placements_of :
      (id : String) (pool : List NodeTally) {t : NodeTally}
      → Distinct (node_ids pool)
      → find_tally id pool ≡ some t
      → replicas_on id (placements_of counts pool) ≡ count_at counts id
  unfolding placements_of find_tally
  replicas_on-placements_of id [] nd h = cc
  replicas_on-placements_of id (t ∷ ts) {t = u} (new, nd) h =
      elim (Bool-cases (str_eq t.node.node_id id)) [
        | inl e ↦
            let same : t.node.node_id ≡ id = (eq_iff t.node.node_id id).0 e in
            let gone : contains id (placed_ids (placements_of counts ts)) ≡ false =
              contains-placements_of id ts
                (subst (λ x. contains x (node_ids ts) ≡ false) same new) in
            ground (arith, replicas_on-eq-zero id (placements_of counts ts) gone)
        | inr e ↦ ground (arith, replicas_on-placements_of id ts {t = u} nd)
      ]

  pub total_replicas-placements_of :
      (pool : List NodeTally) → total_replicas (placements_of counts pool) ≡ total counts pool
  unfolding placements_of
  total_replicas-placements_of [] = refl
  total_replicas-placements_of (t ∷ ts) = ground (arith, total_replicas-placements_of ts)
