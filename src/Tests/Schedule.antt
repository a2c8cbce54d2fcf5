-- ===== src/Tests/Schedule.antt =====
-- Cron expressions on a clock of whole days.
use launch_pad.Prelude.{ℕ, ◌+◌, ◌/◌, ◌%◌, ◌≡◌, refl, arith, true, some, [], ◌∷◌, ok, Ensures}
use launch_pad.Prelude.Text.{codes, split_at, is_number, value_from}
use launch_pad.Cron.{
  CronSchedule, UtcFields, minute_field, expand_item, parse_cron_expression, range_of, step_of,
  bounds_of, parse_number, steps_from, next_cron_fire, due_cron_fire, next_from,
  cron_matches_minute,
}
use launch_pad.Cron.Bounds.{IsExpansion, expand_item-IsExpansion}
use launch_pad.Cron.Accepted.{IsCalendar, parse_cron_expression-IsCalendar}
use launch_pad.Cron.Due.{
  NextOutcome, DueOutcome, Agree, next_cron_fire-NextOutcome, due_cron_fire-DueOutcome,
  due_cron_fire-Agree,
}

abbrev utc : ℕ → UtcFields
utc ms = record {
  minute = ms / 60000 % 60;
  hour = ms / 3600000 % 24;
  date = 1;
  month = 0;
  day = (ms / 86400000 + 4) % 7;
}

abbrev every_quarter : CronSchedule
every_quarter = record {
  minutes = 0 ∷ 15 ∷ 30 ∷ 45 ∷ [];
  hours = 0 ∷ 1 ∷ [];
  dom = 1 ∷ [];
  months = 1 ∷ [];
  dow = 4 ∷ 5 ∷ [];
  dom_restricted = true;
  dow_restricted = true;
}

expands : expand_item (codes "5-20/5") minute_field ≡ ok (5 ∷ 10 ∷ 15 ∷ 20 ∷ [])
unfolding expand_item range_of step_of bounds_of parse_number steps_from split_at is_number
    value_from
expands = refl

expand_item-IsExpansion_example :
    Ensures (IsExpansion minute_field (codes "5-20/5")) (expand_item (codes "5-20/5") minute_field)
expand_item-IsExpansion_example =
    expand_item-IsExpansion (codes "5-20/5") minute_field (omega arith)

parse_cron_expression-IsCalendar_example :
    Ensures IsCalendar (parse_cron_expression (codes "*/15 2 * * 1,7"))
parse_cron_expression-IsCalendar_example = parse_cron_expression-IsCalendar (codes "*/15 2 * * 1,7")

fires_next : next_from utc every_quarter 20 60000 ≡ some 900000
unfolding next_from cron_matches_minute
fires_next = refl

next_cron_fire-NextOutcome_example :
    NextOutcome utc every_quarter 1000 (next_cron_fire utc every_quarter 1000)
next_cron_fire-NextOutcome_example = next_cron_fire-NextOutcome utc every_quarter 1000

due_cron_fire-DueOutcome_example :
    DueOutcome utc every_quarter 1000 2000000 (due_cron_fire utc every_quarter 1000 2000000)
due_cron_fire-DueOutcome_example = due_cron_fire-DueOutcome utc every_quarter 1000 2000000

due_cron_fire-Agree_example :
    Agree utc every_quarter 2000000
      (due_cron_fire utc every_quarter 1000 2000000)
      (next_cron_fire utc every_quarter 1000)
due_cron_fire-Agree_example = due_cron_fire-Agree utc every_quarter 1000 2000000 (omega arith)
