-- ===== src/IdleNodes/Order.antt =====
-- The order of the recommendations.
use launch_pad.Prelude.{
  ℕ, ◌≤◌, String, Bool, true, false, Option, List, [], ◌∷◌, ◌≡◌, inl, inr, arith, Bool-cases, All,
  All-weaken,
}
use launch_pad.Prelude.Sort.{sort, insert_sorted}
use launch_pad.IdleNodes.{IdleRecommendation, more_idle}

module _ {Usd : Type 0} where
  -- The most idle first.
  abbrev pub AreDescending : List (IdleRecommendation Usd) → Type 0
  AreDescending [] = Unit
  AreDescending (r ∷ rs) =
      All (λ (s : IdleRecommendation Usd). s.idle_days ≤ r.idle_days) rs × AreDescending rs

module _ (parse_date : String → Option ℕ) {Usd : Type 0}
    (estimate_ec2_monthly : String → Option Usd) (now_ms min_idle_days : ℕ)
    (locale_before : String → String → Bool) where
  abbrev pub before : IdleRecommendation Usd → IdleRecommendation Usd → Bool
  before = more_idle parse_date estimate_ec2_monthly now_ms min_idle_days locale_before

  before_days : (a b : IdleRecommendation Usd) → before a b ≡ true → b.idle_days ≤ a.idle_days
  unfolding more_idle
  before_days a b h = ground arith

  not_before_days : (a b : IdleRecommendation Usd) → before a b ≡ false → a.idle_days ≤ b.idle_days
  unfolding more_idle
  not_before_days a b h = ground arith

  All-days-insert :
      (d : ℕ) (a : IdleRecommendation Usd) (bs : List (IdleRecommendation Usd))
      → a.idle_days ≤ d
      → All (λ (s : IdleRecommendation Usd). s.idle_days ≤ d) bs
      → All (λ (s : IdleRecommendation Usd). s.idle_days ≤ d) (insert_sorted before a bs)
  unfolding insert_sorted
  All-days-insert d a [] l h = (l, tt)
  All-days-insert d a (b ∷ bs) l (m, h) = elim (Bool-cases (before b a)) [
    | inl e ↦ rw e (m, All-days-insert d a bs l h)
    | inr e ↦ rw e (l, (m, h))
  ]

  insert-AreDescending :
      (a : IdleRecommendation Usd) (bs : List (IdleRecommendation Usd))
      → AreDescending bs
      → AreDescending (insert_sorted before a bs)
  unfolding insert_sorted
  insert-AreDescending a [] h = (tt, tt)
  insert-AreDescending a (b ∷ bs) (m, h) = elim (Bool-cases (before b a)) [
    | inl e ↦
        rw e (All-days-insert b.idle_days a bs (before_days b a e) m, insert-AreDescending a bs h)
    | inr e ↦
        let l : b.idle_days ≤ a.idle_days = not_before_days b a e in
        rw e ((l, All-weaken (λ s k. omega (arith, k, l)) bs m), (m, h))
  ]

  pub sort-AreDescending : (rs : List (IdleRecommendation Usd)) → AreDescending (sort before rs)
  unfolding sort
  sort-AreDescending [] = tt
  sort-AreDescending (r ∷ rs) = insert-AreDescending r (sort before rs) (sort-AreDescending rs)
