-- ===== src/Placement/Best.antt =====
-- `bestNode`: what it returns fits, and it returns null only where nothing fits.
use launch_pad.Prelude.{
  ℕ, ◌+◌, true, false, ◌≡◌, refl, inl, inr, ◌↔◌, Option, none, some, List, [], ◌∷◌, Dict, All,
  Bool-cases,
}
use launch_pad.Prelude.Doubles.{Doubles}
use launch_pad.Placement.{
  NodeTally, ClusterServiceInput, fits, count_at, replaces, consider, best_from, best_node,
}

-- `t` has room for the replicas that it has in `counts` and `more` of them.
abbrev pub HasRoom : ClusterServiceInput → Dict ℕ → ℕ → NodeTally → Type 0
HasRoom s counts more t = fits t s (count_at counts t.node.node_id + more) ≡ true

abbrev pub OfSome {ℓ κ} : {A : Type ℓ} → (A → Type κ) → Option A → Type κ
OfSome P none = Unit
OfSome P (some a) = P a

module _ (d : Doubles) (s : ClusterServiceInput) (counts : Dict ℕ) (more : ℕ) where
  consider-OfSome :
      (Q : NodeTally → Type 0) (t : NodeTally) (best : Option NodeTally)
      → (HasRoom s counts more t → Q t)
      → OfSome Q best
      → OfSome Q (consider d s counts more t best)
  unfolding consider
  consider-OfSome Q t none q h =
      elim (Bool-cases (fits t s (count_at counts t.node.node_id + more))) [
        | inl e ↦ rw e (q e)
        | inr e ↦ rw e tt
      ]
  consider-OfSome Q t (some b) q h =
      elim (Bool-cases (fits t s (count_at counts t.node.node_id + more))) [
        | inl e ↦
            rw e
              (elim (Bool-cases (
                replaces d s t (count_at counts t.node.node_id + more) b
                  (count_at counts b.node.node_id + more))) [ inl r ↦ rw r (q e) | inr r ↦ rw r h ])
        | inr e ↦ rw e h
      ]

  best_from-OfSome :
      (Q : NodeTally → Type 0) (ts : List NodeTally) (best : Option NodeTally)
      → All (λ t. HasRoom s counts more t → Q t) ts
      → OfSome Q best
      → OfSome Q (best_from d s counts more ts best)
  unfolding best_from
  best_from-OfSome Q [] best hs h = h
  best_from-OfSome Q (t ∷ ts) best (q, hs) h =
      best_from-OfSome Q ts (consider d s counts more t best) hs (consider-OfSome Q t best q h)

  -- What holds of every node with room holds of the node that is returned.
  pub best_node-OfSome :
      (Q : NodeTally → Type 0) (ts : List NodeTally)
      → All (λ t. HasRoom s counts more t → Q t) ts
      → OfSome Q (best_node d ts s counts more)
  unfolding best_node
  best_node-OfSome Q ts hs = best_from-OfSome Q ts none hs tt

  consider-ne-none :
      (t b : NodeTally) → (b' : NodeTally) × (consider d s counts more t (some b) ≡ some b')
  unfolding consider
  consider-ne-none t b = elim (Bool-cases (fits t s (count_at counts t.node.node_id + more))) [
    | inl e ↦
        (elim (Bool-cases (
          replaces d s t (count_at counts t.node.node_id + more) b
            (count_at counts b.node.node_id + more))) [
              | inl r ↦ (t, rw (e, r))
              | inr r ↦ (b, rw (e, r))
            ])
    | inr e ↦ (b, rw e)
  ]

  best_from-some :
      (ts : List NodeTally) (b : NodeTally)
      → (b' : NodeTally) × (best_from d s counts more ts (some b) ≡ some b')
  unfolding best_from
  best_from-some [] b = (b, refl)
  best_from-some (t ∷ ts) b =
      let (b', e) = consider-ne-none t b in let (c, f) = best_from-some ts b' in (c, rw e f)

  consider_room :
      (t : NodeTally) → HasRoom s counts more t → consider d s counts more t none ≡ some t
  unfolding consider
  consider_room t e = rw e

  consider_full :
      (t : NodeTally) (best : Option NodeTally)
      → fits t s (count_at counts t.node.node_id + more) ≡ false
      → consider d s counts more t best ≡ best
  unfolding consider
  consider_full t best e = rw e

  -- Null is returned exactly where no node has room.
  pub best_node-eq-none_iff :
      (ts : List NodeTally)
      → (best_node d ts s counts more ≡ none)
        ↔ All (λ t. fits t s (count_at counts t.node.node_id + more) ≡ false) ts
  unfolding best_node best_from
  best_node-eq-none_iff [] = (λ _. tt, λ _. refl)
  best_node-eq-none_iff (t ∷ ts) =
      elim (Bool-cases (fits t s (count_at counts t.node.node_id + more))) [
        | inl e ↦
            let (b, f) = best_from-some ts t in
            (λ h. cc (f, h, consider_room t e), λ (h, hs). cc (e, h))
        | inr e ↦ (
          λ h. (e, (best_node-eq-none_iff ts).0 (rw (consider_full t none e) at h)),
          λ (h, hs). rw (consider_full t none e) ((best_node-eq-none_iff ts).1 hs),
        )
      ]
