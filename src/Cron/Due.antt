-- ===== src/Cron/Due.antt =====
-- The next and the due fire of a schedule, and how the two agree.
use native.Mathlib.Decide.{dec_lt}
use launch_pad.Prelude.{◌*◌, ◌+◌, ◌≡◌, ◌-◌, ◌<◌, ◌≤◌, ◌/◌, arith, none}
use launch_pad.Cron.{
  CronSchedule, UtcFields, cron_matches_minute, next_cron_fire, due_cron_fire, minute_ms,
  scan_horizon_minutes, floor_to_minute, ℕ, Option, ◌+◌, max, ◌*◌, false, true, some,
}
use launch_pad.Cron.Fires.{IsFirst, IsLast, next_from-IsFirst, due_from-IsLast}

module _ (utc : ℕ → UtcFields) (s : CronSchedule) where
  abbrev pub Fires : ℕ → Type 0
  Fires minutes = cron_matches_minute utc s (minutes * minute_ms) ≡ true

  abbrev pub IsQuiet : ℕ → Type 0
  IsQuiet minutes = cron_matches_minute utc s (minutes * minute_ms) ≡ false

  -- The first fire after a moment, as a number of minutes from the epoch.
  pub record IsNext (after_ms fire : ℕ) : Type 0 where
    pub minutes : ℕ
    pub whole : fire ≡ minutes * minute_ms
    pub later : after_ms < fire
    pub near : fire ≤ after_ms + scan_horizon_minutes * minute_ms
    pub fires : Fires minutes
    pub first : (j : ℕ) → after_ms < j * minute_ms → j < minutes → IsQuiet j

  abbrev pub NextOutcome : ℕ → Option ℕ → Type 0
  NextOutcome after_ms none =
      (j : ℕ)
      → after_ms < j * minute_ms
      → j * minute_ms ≤ after_ms + scan_horizon_minutes * minute_ms
      → IsQuiet j
  NextOutcome after_ms (some fire) = IsNext after_ms fire

  IsFirst-NextOutcome :
      (after_ms : ℕ) (found : Option ℕ)
      → IsFirst utc s (floor_to_minute after_ms + minute_ms) scan_horizon_minutes found
      → NextOutcome after_ms found
  unfolding floor_to_minute
  IsFirst-NextOutcome after_ms none h = λ j later near.
      let i : ℕ = j - (after_ms / minute_ms + 1) in
      let same : j * minute_ms ≡ after_ms / minute_ms * minute_ms + minute_ms + i * minute_ms =
        omega arith in
      rw same (h i (omega arith))
  IsFirst-NextOutcome after_ms (some f) (i, l, at, m, before) =
      let k : ℕ = after_ms / minute_ms + 1 + i in
      let same : f ≡ k * minute_ms = omega arith in
      record {
        minutes = k;
        whole = same;
        later = omega arith;
        near = omega arith;
        fires = cc;
        first = λ j later sooner.
            let n : ℕ = j - (after_ms / minute_ms + 1) in
            let at_j : j * minute_ms
                ≡ after_ms / minute_ms * minute_ms + minute_ms + n * minute_ms =
              omega arith in
            rw at_j (before n (omega arith));
      }

  -- The next fire is a whole minute after the given moment, at most 366 days later, that matches,
  -- and no earlier one does; there is none only if no minute of those 366 days matches.
  pub next_cron_fire-NextOutcome :
      (after_ms : ℕ) → NextOutcome after_ms (next_cron_fire utc s after_ms)
  unfolding next_cron_fire
  next_cron_fire-NextOutcome after_ms =
      IsFirst-NextOutcome after_ms _
        (next_from-IsFirst utc s scan_horizon_minutes (floor_to_minute after_ms + minute_ms))

  pub record IsDue (last_fire_ms now_ms fire : ℕ) : Type 0 where
    pub minutes : ℕ
    pub whole : fire ≡ minutes * minute_ms
    pub later : last_fire_ms < fire
    pub past : fire ≤ now_ms
    pub fires : Fires minutes
    pub latest : (j : ℕ) → minutes < j → j * minute_ms ≤ now_ms → IsQuiet j

  abbrev pub DueOutcome : ℕ → ℕ → Option ℕ → Type 0
  DueOutcome last_fire_ms now_ms none =
      (j : ℕ)
      → last_fire_ms < j * minute_ms
      → now_ms < j * minute_ms + scan_horizon_minutes * minute_ms
      → j * minute_ms ≤ now_ms
      → IsQuiet j
  DueOutcome last_fire_ms now_ms (some fire) = IsDue last_fire_ms now_ms fire

  IsLast-DueOutcome :
      (last_fire_ms now_ms : ℕ) (found : Option ℕ)
      → IsLast utc s
          (max last_fire_ms (now_ms - scan_horizon_minutes * minute_ms))
          (now_ms / minute_ms)
          found
      → DueOutcome last_fire_ms now_ms found
  IsLast-DueOutcome last_fire_ms now_ms none h =
      λ j later near past. h j (omega arith) (omega arith)
  IsLast-DueOutcome last_fire_ms now_ms (some f) (i, l, at, above, m, after) = record {
    minutes = i;
    whole = at;
    later = omega arith;
    past = omega arith;
    fires = cc;
    latest = λ j more past. after j more (omega arith);
  }

  -- The due fire is the latest minute that matches among those after the last run and up to now;
  -- there is none only if no minute since the last run, or in the last 366 days, matches.
  pub due_cron_fire-DueOutcome :
      (last_fire_ms now_ms : ℕ)
      → DueOutcome last_fire_ms now_ms (due_cron_fire utc s last_fire_ms now_ms)
  unfolding due_cron_fire
  due_cron_fire-DueOutcome last_fire_ms now_ms = IsLast-DueOutcome last_fire_ms now_ms _ (
      due_from-IsLast utc s (max last_fire_ms (now_ms - scan_horizon_minutes * minute_ms))
        (now_ms / minute_ms))

  -- A due fire that is none or some, against a next fire that is none or some.
  abbrev pub Agree : ℕ → Option ℕ → Option ℕ → Type 0
  Agree now_ms none none = Unit
  Agree now_ms none (some next) = now_ms < next
  Agree now_ms (some due) none = ⊥
  Agree now_ms (some due) (some next) = next ≤ due

  outcomes-Agree :
      (last_fire_ms now_ms : ℕ) (due next : Option ℕ)
      → now_ms ≤ last_fire_ms + scan_horizon_minutes * minute_ms
      → DueOutcome last_fire_ms now_ms due
      → NextOutcome last_fire_ms next
      → Agree now_ms due next
  outcomes-Agree last now none none h d n = tt
  outcomes-Agree last now none (some next) h d n = elim (dec_lt now next) [
    | yes later ↦ later
    | no past ↦
        let quiet =
          d n.minutes (omega (arith, n.whole, n.later)) (omega (arith, n.whole, n.later))
            (omega (arith, n.whole, past)) in
        let fires = n.fires in absurd (cc)
  ]
  outcomes-Agree last now (some due) none h d n =
      let quiet =
        n d.minutes (omega (arith, d.whole, d.later)) (omega (arith, d.whole, d.past, h)) in
      let fires = d.fires in absurd (cc)
  outcomes-Agree last now (some due) (some next) h d n = elim (dec_lt due next) [
    | yes sooner ↦
        let quiet =
          n.first d.minutes (omega (arith, d.whole, d.later))
            (omega (arith, d.whole, n.whole, sooner)) in
        let fires = d.fires in absurd (cc)
    | no far ↦ omega (arith, far)
  ]

  -- Up to 366 days after the last run, the two scans agree: no run is due exactly while the first
  -- fire after the last run has not come, and a run that is due is that fire or a later one.
  pub due_cron_fire-Agree :
      (last_fire_ms now_ms : ℕ)
      → now_ms ≤ last_fire_ms + scan_horizon_minutes * minute_ms
      → Agree now_ms (due_cron_fire utc s last_fire_ms now_ms) (next_cron_fire utc s last_fire_ms)
  due_cron_fire-Agree last now h =
      outcomes-Agree last now (due_cron_fire utc s last now) (next_cron_fire utc s last) h
        (due_cron_fire-DueOutcome last now) (next_cron_fire-NextOutcome last)
