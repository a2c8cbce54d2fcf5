-- ===== src/Cron/Bounds.antt =====
-- What an accepted cron expression denotes: exact sets of values, within the fields' ranges.
use native.Mathlib.Nat.{mod-eq_of_lt, mod-eq-sub-mod}
use native.Mathlib.Decide.{dec_lt}
use launch_pad.Prelude.{
  ℕ, zero, suc, ◌+◌, ◌-◌, ◌%◌, ◌≤◌, ◌<◌, ◌≡◌, ap, ◌∙◌, Option, List, [], ◌∷◌, ◌&&◌, ◌||◌, arith,
  leb, ◌==◌, Ensures, Ensures-if, Ensures->>=, any, Result, ok, err,
}
use launch_pad.Prelude.Text.{Text, split_at, is_empty_text}
use launch_pad.Cron.Shapes.{
  IsItem, IsRead, IsStep, range_of-IsRead, step_of-IsStep, split_at-IsItem,
}
use launch_pad.Cron.{
  FieldSpec, has, parse_number, steps_from, step_of, bounds_of, range_of, first_part, step_or_one,
  expand_item, is_star,
}

-- With a positive step and a round for each number up to `hi`, the loop collects every `step`-th
-- number of the range.
mod_step : (w v step : ℕ) → step ≤ w - v → (w - v) % step ≡ (w - (v + step)) % step
mod_step w v step h =
    mod-eq-sub-mod h ∙ ap (λ x. x % step) (let e : w - v - step ≡ w - (v + step) = omega arith in e)

has-steps_from :
    (rounds v hi step w : ℕ)
    → 0 < step
    → suc hi ≤ v + rounds
    → has w (steps_from rounds v hi step) ≡ (leb v w && (leb w hi && ((w - v) % step == 0)))
unfolding steps_from
has-steps_from zero v hi step w p h = ground arith
has-steps_from (suc rounds) v hi step w p h =
    let rest = has-steps_from rounds (v + step) hi step w p (omega arith) in
    elim (dec_lt (w - v) step) [
      | yes near ↦ ground (arith, rest, mod-eq_of_lt near)
      | no far ↦ ground (arith, rest, mod_step w v step (omega arith))
    ]

-- The bounds and the step of an accepted item.
pub record IsRange (spec : FieldSpec) (lo hi : ℕ) : Type 0 where
  pub above : spec.min ≤ lo
  pub ordered : lo ≤ hi
  pub below : hi ≤ spec.max

unfoldable pub InRange : FieldSpec → ℕ → Type 0
InRange spec n = (spec.min ≤ n) × (n ≤ spec.max)

parse_number-InRange :
    (token : Text) (spec : FieldSpec) → Ensures (InRange spec) (parse_number token spec)
unfolding parse_number InRange
parse_number-InRange token spec = ground arith

bounds_of-IsRange :
    (spec : FieldSpec) (parts : List Text)
    → Ensures (λ r. IsRange spec r.0 r.1) (bounds_of spec parts)
unfolding bounds_of InRange
bounds_of-IsRange spec [] = tt
bounds_of-IsRange spec (a ∷ []) = tt
bounds_of-IsRange spec (a ∷ b ∷ []) =
    Ensures-if (λ r. IsRange spec r.0 r.1) (is_empty_text a || is_empty_text b) _ _ (λ _. tt)
      (λ _.
        Ensures->>= (InRange spec) (λ r. IsRange spec r.0 r.1) (parse_number a spec) _
          (parse_number-InRange a spec)
          (λ lo l.
            Ensures->>= (InRange spec) (λ r. IsRange spec r.0 r.1) (parse_number b spec) _
              (parse_number-InRange b spec) (λ hi r. ground arith)))
bounds_of-IsRange spec (a ∷ b ∷ c ∷ rest) = tt

pub range_of-IsRange :
    (spec : FieldSpec) (range : Text) (step : Option ℕ)
    → spec.min ≤ spec.max
    → Ensures (λ r. IsRange spec r.0 r.1) (range_of spec range step)
unfolding range_of InRange
range_of-IsRange spec range step wf =
    let Q : ℕ × ℕ → Type 0 = λ r. IsRange spec r.0 r.1 in
    Ensures-if Q (is_star range) _ _ (λ _. omega arith)
      (λ _.
        Ensures-if Q (is_empty_text range) _ _ (λ _. tt)
          (λ _.
            Ensures-if Q (any (λ c. c == b'-') range) _ _
              (λ _. bounds_of-IsRange spec (split_at (λ c. c == b'-') range))
              (λ _.
                Ensures->>= (InRange spec) Q (parse_number range spec) _
                  (parse_number-InRange range spec) (λ lo l. ground arith))))

pub step_of-positive :
    (spec : FieldSpec) (parts : List Text)
    → Ensures (λ step. 0 < step_or_one step) (step_of spec parts)
unfolding step_of
step_of-positive spec [] = tt
step_of-positive spec (a ∷ []) = omega arith
step_of-positive spec (a ∷ b ∷ []) = ground arith
step_of-positive spec (a ∷ b ∷ c ∷ rest) = tt

-- What the values of an item are.
pub record IsExpansion (spec : FieldSpec) (item : Text) (values : List ℕ) : Type 0 where
  pub lo : ℕ
  pub hi : ℕ
  pub step : ℕ
  pub read : IsItem spec item lo hi step
  pub range : IsRange spec lo hi
  pub positive : 0 < step
  pub exact : (w : ℕ) → has w values ≡ (leb lo w && (leb w hi && ((w - lo) % step == 0)))

steps_from-IsExpansion :
    (spec : FieldSpec) (item : Text) (lo hi step : ℕ)
    → IsItem spec item lo hi step
    → IsRange spec lo hi
    → 0 < step
    → IsExpansion spec item (steps_from (suc hi - lo) lo hi step)
steps_from-IsExpansion spec item lo hi step read range p = record {
  lo = lo;
  hi = hi;
  step = step;
  read = read;
  range = range;
  positive = p;
  exact = λ w. has-steps_from (suc hi - lo) lo hi step w p (omega (arith, range));
}

Ensures-both :
    {E A : Type 0} (P Q : A → Type 0) (x : Result E A)
    → Ensures P x
    → Ensures Q x
    → Ensures (λ a. P a × Q a) x
Ensures-both P Q (ok a) p q = (p, q)
Ensures-both P Q (err e) p q = tt

-- An item that is accepted is `*`, `N` or `N-M`, with or without `/step`, and stands for exactly the
-- values lo, lo + step, … up to hi. lo and hi are N and M, or N twice for `N` alone, N and the
-- field's max for `N/step`, and the field's min and max for `*`; step is the number after the slash,
-- or 1; min ≤ lo ≤ hi ≤ max for the field, and step is positive.
pub expand_item-IsExpansion :
    (item : Text) (spec : FieldSpec)
    → spec.min ≤ spec.max
    → Ensures (IsExpansion spec item) (expand_item item spec)
unfolding expand_item
expand_item-IsExpansion item spec wf =
    let parts = split_at (λ c. c == b'/') item in
    Ensures->>= (λ step. IsStep parts step × (0 < step_or_one step)) (IsExpansion spec item)
      (step_of spec parts) _
      (Ensures-both (IsStep parts) (λ step. 0 < step_or_one step) (step_of spec parts)
        (step_of-IsStep spec parts) (step_of-positive spec parts))
      (λ step (s, p).
        Ensures->>= (λ r. IsRead spec (first_part parts) step r.0 r.1 × IsRange spec r.0 r.1)
          (IsExpansion spec item) (range_of spec (first_part parts) step) _
          (Ensures-both (λ r. IsRead spec (first_part parts) step r.0 r.1)
            (λ r. IsRange spec r.0 r.1) (range_of spec (first_part parts) step)
            (range_of-IsRead spec (first_part parts) step)
            (range_of-IsRange spec (first_part parts) step wf))
          (λ r (read, range).
            steps_from-IsExpansion spec item r.0 r.1 (step_or_one step)
              (split_at-IsItem spec item step r.0 r.1 s read) range p))
