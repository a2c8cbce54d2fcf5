-- ===== src/Cron/Accepted.antt =====
-- What a schedule that the cron parser returns holds: values of its fields' ranges.
use launch_pad.Cron.Bounds.{step_of-positive, IsRange, range_of-IsRange}
use launch_pad.Prelude.{
  ℕ, ◌≤◌, All, Ensures, All-weaken, arith, Ensures->>=, Bool-cases, Ensures-if, inl, inr, leb→le,
  All-append, ◌+◌, ◌-◌, if◌then◌else◌, zero, ◌==◌, ◌<◌,
}
use launch_pad.Cron.{
  CronSchedule, add_values, schedule_of, List, parse_cron_expression, normalize_dow, FieldSpec,
  steps_from, Text, ◌∷◌, suc, expand_item, parse_field, add_value, expand_items, ParsedField,
  fields_of, split_at, leb, has, minute_field, is_star, hour_field, dom_field, month_field,
  dow_field, [], step_or_one, step_of, range_of, first_part,
}

unfoldable pub AllIn : ℕ → ℕ → List ℕ → Type 0
AllIn lo hi = All (λ n. (lo ≤ n) × (n ≤ hi))

module _ (lo hi : ℕ) where
  add_value-AllIn :
      (n : ℕ) (set : List ℕ) → lo ≤ n → n ≤ hi → AllIn lo hi set → AllIn lo hi (add_value n set)
  unfolding AllIn
  add_value-AllIn n set l h all_in = elim (Bool-cases (has n set)) [
    | inl e ↦ rw e all_in
    | inr e ↦ rw e (All-append _ set (n ∷ []) all_in ((l, h), tt))
  ]

  add_values-AllIn :
      (set vs : List ℕ) → AllIn lo hi set → AllIn lo hi vs → AllIn lo hi (add_values set vs)
  unfolding add_values AllIn
  add_values-AllIn set [] a b = a
  add_values-AllIn set (v ∷ vs) a ((l, h), b) =
      add_values-AllIn (add_value v set) vs (add_value-AllIn v set l h a) b

steps_from-AllIn : (rounds v hi step lo : ℕ) → lo ≤ v → AllIn lo hi (steps_from rounds v hi step)
unfolding steps_from AllIn
steps_from-AllIn zero v hi step lo h = tt
steps_from-AllIn (suc rounds) v hi step lo h = elim (Bool-cases (leb v hi)) [
  | inl e ↦ rw e ((h, leb→le v hi e), steps_from-AllIn rounds (v + step) hi step lo (omega arith))
  | inr e ↦ rw e tt
]

AllIn-weaken :
    (lo hi lo' hi' : ℕ) (xs : List ℕ) → lo' ≤ lo → hi ≤ hi' → AllIn lo hi xs → AllIn lo' hi' xs
unfolding AllIn
AllIn-weaken lo hi lo' hi' xs l h = All-weaken (λ x (a, b). (omega arith, omega arith)) xs

module _ (spec : FieldSpec) (wf : spec.min ≤ spec.max) where
  expand_item-AllIn : (item : Text) → Ensures (AllIn spec.min spec.max) (expand_item item spec)
  unfolding expand_item
  expand_item-AllIn item =
      let parts = split_at (λ c. c == b'/') item in
      Ensures->>= (λ step. 0 < step_or_one step) (AllIn spec.min spec.max) (step_of spec parts) _
        (step_of-positive spec parts)
        (λ step _.
          Ensures->>= (λ r. IsRange spec r.0 r.1) (AllIn spec.min spec.max)
            (range_of spec (first_part parts) step) _
            (range_of-IsRange spec (first_part parts) step wf)
            (λ r range.
              AllIn-weaken r.0 r.1 _ _ _ range.above range.below
                (steps_from-AllIn (suc r.1 - r.0) r.0 r.1 (step_or_one step) r.0 (omega arith))))

  expand_items-AllIn :
      (values : List ℕ) (items : List Text)
      → AllIn spec.min spec.max values
      → Ensures (AllIn spec.min spec.max) (expand_items values items spec)
  unfolding expand_items
  expand_items-AllIn values [] h = h
  expand_items-AllIn values (item ∷ items) h =
      Ensures->>= (AllIn spec.min spec.max) (AllIn spec.min spec.max) (expand_item item spec) _
        (expand_item-AllIn item)
        (λ vs k.
          expand_items-AllIn (add_values values vs) items
            (add_values-AllIn spec.min spec.max values vs h k))

  parse_field-AllIn :
      (field : Text)
      → Ensures (λ (p : ParsedField). AllIn spec.min spec.max p.values) (parse_field field spec)
  unfolding parse_field AllIn
  parse_field-AllIn field =
      let Q : ParsedField → Type 0 = λ p. AllIn spec.min spec.max p.values in
      Ensures-if Q (is_star field) _ _
        (λ _. steps_from-AllIn (suc spec.max - spec.min) spec.min spec.max 1 spec.min (omega arith))
        (λ _.
          Ensures->>= (AllIn spec.min spec.max) Q
            (expand_items [] (split_at (λ c. c == b',') field) spec) _
            (expand_items-AllIn [] (split_at (λ c. c == b',') field) tt) (λ values h. h))

normalize_dow-AllIn :
    (set vs : List ℕ) → AllIn 0 6 set → AllIn 0 7 vs → AllIn 0 6 (normalize_dow set vs)
unfolding normalize_dow AllIn
normalize_dow-AllIn set [] a b = a
normalize_dow-AllIn set (v ∷ vs) a ((l, h), b) =
    normalize_dow-AllIn (add_value (if v == 7 then 0 else v) set) vs
      (add_value-AllIn 0 6 (if v == 7 then 0 else v) set (omega arith) (ground arith) a) b

pub record IsCalendar (s : CronSchedule) : Type 0 where
  pub minutes : AllIn 0 59 s.minutes
  pub hours : AllIn 0 23 s.hours
  pub dom : AllIn 1 31 s.dom
  pub months : AllIn 1 12 s.months
  pub dow : AllIn 0 6 s.dow

schedule_of-IsCalendar : (fields : List Text) → Ensures IsCalendar (schedule_of fields)
unfolding schedule_of AllIn
schedule_of-IsCalendar [] = tt
schedule_of-IsCalendar (a ∷ []) = tt
schedule_of-IsCalendar (a ∷ b ∷ []) = tt
schedule_of-IsCalendar (a ∷ b ∷ c ∷ []) = tt
schedule_of-IsCalendar (a ∷ b ∷ c ∷ d ∷ []) = tt
schedule_of-IsCalendar (a ∷ b ∷ c ∷ d ∷ e ∷ []) =
    Ensures->>= _ IsCalendar (parse_field a minute_field) _
      (parse_field-AllIn minute_field (omega arith) a)
      (λ minutes m.
        Ensures->>= _ IsCalendar (parse_field b hour_field) _
          (parse_field-AllIn hour_field (omega arith) b)
          (λ hours h.
            Ensures->>= _ IsCalendar (parse_field c dom_field) _
              (parse_field-AllIn dom_field (omega arith) c)
              (λ dom d'.
                Ensures->>= _ IsCalendar (parse_field d month_field) _
                  (parse_field-AllIn month_field (omega arith) d)
                  (λ months n.
                    Ensures->>= _ IsCalendar (parse_field e dow_field) _
                      (parse_field-AllIn dow_field (omega arith) e)
                      (λ dow w. record {
                        minutes = m;
                        hours = h;
                        dom = d';
                        months = n;
                        dow = normalize_dow-AllIn [] dow.values tt w;
                      })))))
schedule_of-IsCalendar (a ∷ b ∷ c ∷ d ∷ e ∷ f ∷ rest) = tt

-- The values of a schedule that the parser returns are in range: minutes 0 to 59, hours 0 to 23,
-- days of the month 1 to 31, months 1 to 12, and days of the week 0 to 6, since 7 becomes 0.
pub parse_cron_expression-IsCalendar :
    (expr : Text) → Ensures IsCalendar (parse_cron_expression expr)
unfolding parse_cron_expression
parse_cron_expression-IsCalendar expr = schedule_of-IsCalendar (fields_of expr)
