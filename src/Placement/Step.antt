-- ===== src/Placement/Step.antt =====
-- Placing one service: what `packByCapacity` and `placeVolumeService` return, on every branch.
use mathlib.Core.Path.{subst}
use native.Mathlib.Nat.{zero-add}
use launch_pad.Prelude.{
  String, true, ◌≡◌, refl, sym, ◌∙◌, ◌⊎◌, inl, inr, Option, none, some, List, [], ◌∷◌, All,
  All-weaken, arith, Bool-cases, Option-cases, str_eq, eq_iff, Distinct, ok, err, >>=-eq-ok, sym,
  if_true, if_false,
}
use launch_pad.Prelude.Doubles.{Doubles}
use launch_pad.Placement.{
  Placement, NodeTally, ClusterServiceInput, fits, count_at, find_tally, best_node, pack_rounds,
  placements_of, pack_by_capacity, place_fresh, place_sticky, place_volume_service, place,
  capacity_placement, sticky_full, place_at,
}
use launch_pad.Placement.Best.{HasRoom, OfSome, best_node-OfSome}
use launch_pad.Placement.Tallies.{node_ids, Distinct-IsIndexed, replicas_on, placed_ids}
use launch_pad.Placement.Pack.{
  IsSafe, total, total_replicas, pack_rounds-IsSafe, placements_of-Distinct,
  replicas_on-placements_of, total_replicas-placements_of,
}

-- The placements of one service on a list of tallies.
pub record IsPlaced (ts : List NodeTally) (s : ClusterServiceInput) (ps : List Placement)
    : Type 0 where
  -- a node is named once
  pub distinct : Distinct (placed_ids ps)
  -- every replica is placed
  pub complete : total_replicas ps ≡ s.replicas
  -- on each node the service fits with the node's load
  pub room :
      (id : String) (t : NodeTally)
      → find_tally id ts ≡ some t
      → (replicas_on id ps ≡ 0) ⊎ (fits t s (replicas_on id ps) ≡ true)

pub All-find_tally :
    (P : NodeTally → Type 0) (id : String) (ts : List NodeTally) {t : NodeTally}
    → All P ts
    → find_tally id ts ≡ some t
    → P t × (t.node.node_id ≡ id)
unfolding find_tally
All-find_tally P id [] h f = cc
All-find_tally P id (u ∷ ts) {t} (p, h) f = elim (Bool-cases (str_eq u.node.node_id id)) [
  | inl e ↦
      let same : u ≡ t = ground arith in
      (subst P same p, subst (λ (x : NodeTally). x.node.node_id ≡ id) same ((eq_iff _ _).0 e))
  | inr e ↦ All-find_tally P id ts h (ground arith)
]

module _ (d : Doubles) (ts : List NodeTally) (s : ClusterServiceInput)
    (nd : Distinct (node_ids ts)) where
  pub All-zero : (us : List NodeTally) → All (IsSafe s []) us
  All-zero [] = tt
  All-zero (u ∷ us) = (inl refl, All-zero us)

  pub total-nil : (us : List NodeTally) → total [] us ≡ 0
  total-nil [] = refl
  total-nil (u ∷ us) = omega (arith, total-nil us)

  pack_by_capacity-IsPlaced :
      {ps : List Placement} → pack_by_capacity d ts s ≡ ok ps → IsPlaced ts s ps
  unfolding pack_by_capacity
  pack_by_capacity-IsPlaced {ps} h =
      let (counts, packed, e) = >>=-eq-ok (pack_rounds d ts s s.replicas 1 []) _ h in
      let same : placements_of counts ts ≡ ps = cc in
      let (safe, count) = pack_rounds-IsSafe d s ts s.replicas 1 [] nd (All-zero ts) packed in
      subst (IsPlaced ts s) same (record {
        distinct = placements_of-Distinct counts ts nd;
        complete = omega (arith, total_replicas-placements_of counts ts, count, total-nil ts);
        room = λ id t f. rw (replicas_on-placements_of counts id ts nd f) (
            let (ok', same') = All-find_tally (IsSafe s counts) id ts safe f in
            subst (λ x. (count_at counts x ≡ 0) ⊎ (fits t s (count_at counts x) ≡ true)) same' ok');
      })

  single-IsPlaced :
      (b : NodeTally)
      → find_tally b.node.node_id ts ≡ some b
      → fits b s s.replicas ≡ true
      → IsPlaced ts s (record { node_id = b.node.node_id; replicas = s.replicas } ∷ [])
  single-IsPlaced b f room = record {
    distinct = (refl, tt);
    complete = omega arith;
    room = λ id t g. elim (Bool-cases (str_eq b.node.node_id id)) [
      | inl e ↦
          let same : b ≡ t = cc (f, g, (eq_iff b.node.node_id id).0 e) in
          rw e (inr (subst (λ x. fits x s s.replicas ≡ true) same room))
      | inr e ↦ rw e (inl refl)
    ];
  }

  place_fresh-IsPlaced : {ps : List Placement} → place_fresh d ts s ≡ ok ps → IsPlaced ts s ps
  unfolding place_fresh
  place_fresh-IsPlaced {ps} h = elim (Option-cases (best_node d ts s [] s.replicas)) [
    | inl n ↦
        let k : err (capacity_placement s.name 1 s.replicas) ≡ ok ps = rw (n, place_fresh) at h in
        cc
    | inr (b, n) ↦
        let (room, found) =
          subst (OfSome (λ b. HasRoom s [] s.replicas b × (find_tally b.node.node_id ts ≡ some b)))
            n
            (best_node-OfSome d s [] s.replicas _ ts
              (All-weaken (λ t f room. (room, f)) ts (Distinct-IsIndexed ts nd))) in
        let fit : fits b s s.replicas ≡ true = rw (zero-add s.replicas) at room in
        let same : ok (record { node_id = b.node.node_id; replicas = s.replicas } ∷ []) ≡ ok ps =
          rw (n, place_fresh) at h in
        subst (IsPlaced ts s) (cc same) (single-IsPlaced b found fit)
  ]

  place_sticky-IsPlaced :
      (id : String) {ps : List Placement} → place_sticky d ts s id ≡ ok ps → IsPlaced ts s ps
  unfolding place_sticky
  place_sticky-IsPlaced id {ps} h = elim (Option-cases (find_tally id ts)) [
    | inl n ↦ place_fresh-IsPlaced (rw (n, place_sticky) at h)
    | inr (b, n) ↦ elim (Bool-cases (fits b s s.replicas)) [
      | inl room ↦
          let same : ok (record { node_id = b.node.node_id; replicas = s.replicas } ∷ []) ≡ ok ps =
            rw (n, room, place_sticky) at h in
          let (found, _) =
            All-find_tally (λ t. find_tally t.node.node_id ts ≡ some t) id ts
              (Distinct-IsIndexed ts nd) n in
          subst (IsPlaced ts s) (cc same) (single-IsPlaced b found room)
      | inr full ↦
          let k : err (sticky_full s.name id) ≡ ok ps = rw (n, full, place_sticky) at h in cc
    ]
  ]

  place_at-IsPlaced :
      (o : Option String) {ps : List Placement} → place_at d ts s o ≡ ok ps → IsPlaced ts s ps
  unfolding place_at
  place_at-IsPlaced none h = place_fresh-IsPlaced h
  place_at-IsPlaced (some id) h = place_sticky-IsPlaced id h

  -- On distinct nodes, whatever is returned places every replica, each node once, and within the
  -- capacity of each node.
  pub place-IsPlaced : {ps : List Placement} → place d ts s ≡ ok ps → IsPlaced ts s ps
  unfolding place place_volume_service
  place-IsPlaced {ps} h = elim (Bool-cases s.has_volumes) [
    | inl v ↦ place_at-IsPlaced s.sticky_node_id (sym (if_true _ _ v) ∙ h)
    | inr v ↦ pack_by_capacity-IsPlaced (sym (if_false _ _ v) ∙ h)
  ]
