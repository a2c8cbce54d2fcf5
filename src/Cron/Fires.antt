-- ===== src/Cron/Fires.antt =====
-- The minutes at which a schedule fires: the scans forward and backward.
use launch_pad.Prelude.{
  ◌≡◌, ◌<◌, ◌≤◌, ◌*◌, arith, ◌+◌, Bool-cases, zero, none, inl, inr, ◌⊎◌, ltb→lt,
}
use launch_pad.Cron.{
  CronSchedule, UtcFields, cron_matches_minute, next_from, due_from, minute_ms, ℕ, Option, some,
  false, true, suc, ltb,
}

at_most_suc : (i k : ℕ) → i ≤ suc k → (i ≤ k) ⊎ (i ≡ suc k)
at_most_suc i k h = ground arith

module _ (utc : ℕ → UtcFields) (s : CronSchedule) where
  -- No minute of the `left` from `t` on matches.
  abbrev pub Silent : ℕ → ℕ → Type 0
  Silent t left = (i : ℕ) → i < left → cron_matches_minute utc s (t + i * minute_ms) ≡ false

  -- What a forward scan returns: the first match, or none where nothing matches.
  abbrev pub IsFirst : ℕ → ℕ → Option ℕ → Type 0
  IsFirst t left none = Silent t left
  IsFirst t left (some f) =
      (i : ℕ) × (i < left)
      × (f ≡ t + i * minute_ms)
      × (cron_matches_minute utc s f ≡ true)
      × Silent t i

  Silent-suc :
      (t left : ℕ)
      → cron_matches_minute utc s t ≡ false
      → Silent (t + minute_ms) left
      → Silent t (suc left)
  Silent-suc t left e h zero l = let same : t + 0 * minute_ms ≡ t = omega arith in rw same e
  Silent-suc t left e h (suc i) l =
      let same : t + suc i * minute_ms ≡ t + minute_ms + i * minute_ms = omega arith in
      rw same (h i (omega arith))

  IsFirst-suc :
      (t left : ℕ) (found : Option ℕ)
      → cron_matches_minute utc s t ≡ false
      → IsFirst (t + minute_ms) left found
      → IsFirst t (suc left) found
  IsFirst-suc t left none e h = Silent-suc t left e h
  IsFirst-suc t left (some f) e (i, l, at, m, before) =
      (suc i, omega arith, omega arith, m, Silent-suc t i e before)

  pub next_from-IsFirst : (left t : ℕ) → IsFirst t left (next_from utc s left t)
  unfolding next_from
  next_from-IsFirst zero t = λ i l. absurd (omega arith)
  next_from-IsFirst (suc left) t = elim (Bool-cases (cron_matches_minute utc s t)) [
    | inl e ↦ rw e (zero, omega arith, omega arith, e, λ i l. absurd (omega arith))
    | inr e ↦ rw e (
        IsFirst-suc t left (next_from utc s left (t + minute_ms)) e
          (next_from-IsFirst left (t + minute_ms)))
  ]

  -- No minute above `floor` among the first `k` matches.
  abbrev pub SilentAbove : ℕ → ℕ → Type 0
  SilentAbove floor k =
      (i : ℕ) → i ≤ k → floor < i * minute_ms → cron_matches_minute utc s (i * minute_ms) ≡ false

  -- What a backward scan returns: the last match above `floor`, or none where nothing matches.
  abbrev pub IsLast : ℕ → ℕ → Option ℕ → Type 0
  IsLast floor k none = SilentAbove floor k
  IsLast floor k (some f) =
      (i : ℕ) × (i ≤ k)
      × (f ≡ i * minute_ms)
      × (floor < f)
      × (cron_matches_minute utc s f ≡ true)
      × ((j : ℕ) → i < j → j ≤ k → cron_matches_minute utc s (j * minute_ms) ≡ false)

  IsLast-suc :
      (floor k : ℕ) (found : Option ℕ)
      → cron_matches_minute utc s (suc k * minute_ms) ≡ false
      → IsLast floor k found
      → IsLast floor (suc k) found
  IsLast-suc floor k none e h =
      λ i l above. elim (at_most_suc i k l) [ inl below ↦ h i below above | inr same ↦ rw same e ]
  IsLast-suc floor k (some f) e (i, l, at, above, m, after) = (
    i,
    omega arith,
    at,
    above,
    m,
    λ j past h. elim (at_most_suc j k h) [ inl below ↦ after j past below | inr same ↦ rw same e ],
  )

  pub due_from-IsLast : (floor k : ℕ) → IsLast floor k (due_from utc s floor k)
  unfolding due_from
  due_from-IsLast floor zero = λ i l above. absurd (omega arith)
  due_from-IsLast floor (suc k) = elim (Bool-cases (ltb floor (suc k * minute_ms))) [
    | inl above ↦ elim (Bool-cases (cron_matches_minute utc s (suc k * minute_ms))) [
      | inl e ↦ rw above (
          rw e
            (suc k, omega arith, omega arith, ltb→lt _ _ above, e, λ j l h. absurd (omega arith)))
      | inr e ↦
          rw above (rw e (IsLast-suc floor k (due_from utc s floor k) e (due_from-IsLast floor k)))
    ]
    | inr below ↦ rw below (λ i l above. absurd (ground arith))
  ]
