-- ===== src/Cron.antt =====
-- packages/shared/src/cron.ts: five-field cron expressions and the minutes at which they fire.
-- The fields of a moment in UTC are JavaScript's `Date`, a parameter. Times are in milliseconds from
-- the epoch on; a value beyond 2^53, where parseInt rounds, is out of every field's range anyway.
pub mod Accepted
pub mod Bounds
pub mod Due
pub mod Fires
pub mod Shapes
use launch_pad.Prelude.{
  ℕ, zero, suc, ◌+◌, ◌-◌, ◌*◌, ◌/◌, max, String, Bool, true, false, not, ◌&&◌, ◌||◌, Option, none,
  some, List, [], ◌∷◌, ◌++◌, ltb, leb, ◌==◌, if◌then◌else◌, filter, any, Result, ok, err, ◌>>=◌,
  ◌>>◌,
}
use launch_pad.Prelude.Text.{Text, split_at, is_number, value_from, is_empty_text}

pub record CronSchedule : Type 0 where
  pub minutes : List ℕ
  pub hours : List ℕ
  pub dom : List ℕ
  pub months : List ℕ
  pub dow : List ℕ
  pub dom_restricted : Bool
  pub dow_restricted : Bool

abbrev pub minute_ms : ℕ
minute_ms = 60000

abbrev pub scan_horizon_minutes : ℕ
scan_horizon_minutes = 366 * 24 * 60

pub record FieldSpec : Type 0 where
  pub name : String
  pub min : ℕ
  pub max : ℕ

abbrev pub minute_field : FieldSpec
minute_field = record { name = "minute"; min = 0; max = 59 }

abbrev pub hour_field : FieldSpec
hour_field = record { name = "hour"; min = 0; max = 23 }

abbrev pub dom_field : FieldSpec
dom_field = record { name = "day of month"; min = 1; max = 31 }

abbrev pub month_field : FieldSpec
month_field = record { name = "month"; min = 1; max = 12 }

abbrev pub dow_field : FieldSpec
dow_field = record { name = "day of week"; min = 0; max = 7 }

pub data CronError : Type 0 where
  invalid_value out_of_range invalid_step empty_value invalid_range inverted_range :
      (field : String) → CronError
  not_five_fields : CronError

-- `set.has(n)`, `set.add(n)`
abbrev pub has : ℕ → List ℕ → Bool
has n set = any (λ v. v == n) set

abbrev pub add_value : ℕ → List ℕ → List ℕ
add_value n set = if has n set then set else set ++ n ∷ []

unfoldable pub add_values : List ℕ → List ℕ → List ℕ
add_values set [] = set
add_values set (v ∷ vs) = add_values (add_value v set) vs

unfoldable pub parse_number : Text → FieldSpec → Result CronError ℕ
parse_number token spec =
    if is_number token
    then (let n = value_from 0 token in
        if ltb n spec.min || ltb spec.max n then err (out_of_range spec.name) else ok n)
    else err (invalid_value spec.name)

-- `for (let v = lo; v <= hi; v += step)`, on as many rounds as there are numbers up to `hi`.
unfoldable pub steps_from : ℕ → ℕ → ℕ → ℕ → List ℕ
steps_from zero v hi step = []
steps_from (suc rounds) v hi step =
    let rest = steps_from rounds (v + step) hi step in if leb v hi then v ∷ rest else []

-- The step of an item, from the parts round its slashes.
unfoldable pub step_of : FieldSpec → List Text → Result CronError (Option ℕ)
step_of spec (range ∷ step ∷ []) =
    if is_number step && not (value_from 0 step == 0)
    then ok (some (value_from 0 step))
    else err (invalid_step spec.name)
step_of spec (range ∷ []) = ok none
step_of spec _ = err (invalid_step spec.name)

-- `N-M`, from the parts round its dashes.
unfoldable pub bounds_of : FieldSpec → List Text → Result CronError (ℕ × ℕ)
bounds_of spec (a ∷ b ∷ []) =
    if is_empty_text a || is_empty_text b then err (invalid_range spec.name) else (do
      lo ← parse_number a spec
      hi ← parse_number b spec
      if ltb hi lo then err (inverted_range spec.name) else ok (lo, hi))
bounds_of spec _ = err (invalid_range spec.name)

abbrev pub is_star : Text → Bool
is_star (c ∷ []) = c == b'*'
is_star _ = false

unfoldable pub range_of : FieldSpec → Text → Option ℕ → Result CronError (ℕ × ℕ)
range_of spec range step =
    if is_star range
    then ok (spec.min, spec.max)
    else if is_empty_text range
    then err (empty_value spec.name)
    else if any (λ c. c == b'-') range
    then bounds_of spec (split_at (λ c. c == b'-') range)
    else (do lo ← parse_number range spec; ok (lo, elim step [ none ↦ lo | some _ ↦ spec.max ]))

abbrev first_part : List Text → Text
first_part [] = []
first_part (p ∷ _) = p

abbrev step_or_one : Option ℕ → ℕ
step_or_one none = 1
step_or_one (some step) = step

unfoldable pub expand_item : Text → FieldSpec → Result CronError (List ℕ)
expand_item item spec = do
  let parts = split_at (λ c. c == b'/') item
  step ← step_of spec parts
  range ← range_of spec (first_part parts) step
  ok (steps_from (suc range.1 - range.0) range.0 range.1 (step_or_one step))

unfoldable pub expand_items : List ℕ → List Text → FieldSpec → Result CronError (List ℕ)
expand_items values [] spec = ok values
expand_items values (item ∷ items) spec = do
  vs ← expand_item item spec
  expand_items (add_values values vs) items spec

pub record ParsedField : Type 0 where
  pub values : List ℕ
  pub restricted : Bool

unfoldable pub parse_field : Text → FieldSpec → Result CronError ParsedField
parse_field field spec =
    if is_star field
    then ok (record {
      values = steps_from (suc spec.max - spec.min) spec.min spec.max 1;
      restricted = false;
    })
    else (do
      values ← expand_items [] (split_at (λ c. c == b',') field) spec
      ok (record { values = values; restricted = true }))

-- `\s`
abbrev pub is_space : ℕ → Bool
is_space c =
    (leb 9 c && leb c 13)
    || c == 32
    || c == 160
    || c == 0x1680
    || (leb 0x2000 c && leb c 0x200a)
    || c == 0x2028
    || c == 0x2029
    || c == 0x202f
    || c == 0x205f
    || c == 0x3000
    || c == 0xfeff

-- `expr.trim().split(/\s+/).filter((f) => f.length > 0)`: the runs without white space.
unfoldable pub fields_of : Text → List Text
fields_of expr = filter (λ f. not (is_empty_text f)) (split_at is_space expr)

-- 7 is Sunday too.
unfoldable pub normalize_dow : List ℕ → List ℕ → List ℕ
normalize_dow set [] = set
normalize_dow set (v ∷ vs) = normalize_dow (add_value (if v == 7 then 0 else v) set) vs

unfoldable pub schedule_of : List Text → Result CronError CronSchedule
schedule_of (a ∷ b ∷ c ∷ d ∷ e ∷ []) = do
  minutes ← parse_field a minute_field
  hours ← parse_field b hour_field
  dom ← parse_field c dom_field
  months ← parse_field d month_field
  dow ← parse_field e dow_field
  ok (record {
    minutes = minutes.values;
    hours = hours.values;
    dom = dom.values;
    months = months.values;
    dow = normalize_dow [] dow.values;
    dom_restricted = dom.restricted;
    dow_restricted = dow.restricted;
  })
schedule_of _ = err not_five_fields

unfoldable pub parse_cron_expression : Text → Result CronError CronSchedule
parse_cron_expression expr = schedule_of (fields_of expr)

-- What `Date` says of a moment: the month counts from 0.
pub record UtcFields : Type 0 where
  pub minute : ℕ
  pub hour : ℕ
  pub date : ℕ
  pub month : ℕ
  pub day : ℕ

unfoldable pub floor_to_minute : ℕ → ℕ
floor_to_minute ms = ms / minute_ms * minute_ms

module _ (utc : ℕ → UtcFields) where
  unfoldable pub cron_matches_minute : CronSchedule → ℕ → Bool
  cron_matches_minute s ms =
      let d = utc ms in
      let dom_match = has d.date s.dom in
      let dow_match = has d.day s.dow in
      if not (has d.minute s.minutes)
      then false
      else if not (has d.hour s.hours)
      then false
      else if not (has (d.month + 1) s.months)
      then false
      else if s.dom_restricted && s.dow_restricted
      then dom_match || dow_match
      else dom_match && dow_match

  -- The loop of `nextCronFire`, at `t` with `left` rounds to go.
  unfoldable pub next_from : CronSchedule → ℕ → ℕ → Option ℕ
  next_from s zero t = none
  next_from s (suc left) t =
      let rest = next_from s left (t + minute_ms) in
      if cron_matches_minute s t then some t else rest

  unfoldable pub next_cron_fire : CronSchedule → ℕ → Option ℕ
  next_cron_fire s after_ms =
      next_from s scan_horizon_minutes (floor_to_minute after_ms + minute_ms)

  -- The loop of `dueCronFire`, at the `k`-th minute from the epoch.
  unfoldable pub due_from : CronSchedule → ℕ → ℕ → Option ℕ
  due_from s floor zero = none
  due_from s floor (suc k) =
      let rest = due_from s floor k in
      let t = suc k * minute_ms in
      if ltb floor t then if cron_matches_minute s t then some t else rest else none

  -- The floor is not below `last_fire_ms`, so a difference below 0 counts as 0.
  unfoldable pub due_cron_fire : CronSchedule → ℕ → ℕ → Option ℕ
  due_cron_fire s last_fire_ms now_ms =
      due_from s (max last_fire_ms (now_ms - scan_horizon_minutes * minute_ms)) (now_ms / minute_ms)
