-- ===== src/Cron/Shapes.antt =====
-- The forms of a cron item: `*`, `N` and `N-M`, each with or without `/step`.
use mathlib.Core.Path.{subst}
use launch_pad.Prelude.{
  ℕ, Bool, true, ◌≡◌, refl, sym, ap, Option, none, some, List, [], ◌∷◌, ◌++◌, ◌||◌, arith, ltb,
  ◌==◌, Ensures, Ensures-if, Ensures->>=, any, Bool-cases, inl, inr, ok, err,
}
use launch_pad.Prelude.Text.{Text, split_at, is_empty_text, is_number, value_from, on_first}
use launch_pad.Cron.{
  FieldSpec, inverted_range, parse_number, step_of, bounds_of, range_of, first_part, step_or_one,
  is_star,
}

-- The text is these parts, with a separator between each two.
abbrev IsSplit : (ℕ → Bool) → Text → List Text → Type 0
IsSplit p s [] = ⊥
IsSplit p s (a ∷ []) = s ≡ a
IsSplit p s (a ∷ b ∷ rest) =
    (c : ℕ) × (tail : Text) × (p c ≡ true) × (s ≡ a ++ c ∷ tail) × IsSplit p tail (b ∷ rest)

IsSplit-separator :
    (p : ℕ → Bool) (c : ℕ) (s : Text) (parts : List Text)
    → p c ≡ true
    → IsSplit p s parts
    → IsSplit p (c ∷ s) ([] ∷ parts)
IsSplit-separator p c s [] h k = absurd k
IsSplit-separator p c s (a ∷ rest) h k = (c, s, h, refl, k)

IsSplit-on_first :
    (p : ℕ → Bool) (c : ℕ) (s : Text) (parts : List Text)
    → IsSplit p s parts
    → IsSplit p (c ∷ s) (on_first c parts)
IsSplit-on_first p c s [] k = absurd k
IsSplit-on_first p c s (a ∷ []) k = ap (λ t. c ∷ t) k
IsSplit-on_first p c s (a ∷ b ∷ rest) (x, tail, h, e, k) = (x, tail, h, ap (λ t. c ∷ t) e, k)

split_at-IsSplit : (p : ℕ → Bool) (s : Text) → IsSplit p s (split_at p s)
unfolding split_at
split_at-IsSplit p [] = refl
split_at-IsSplit p (c ∷ s) = elim (Bool-cases (p c)) [
  | inl e ↦ rw e (IsSplit-separator p c s (split_at p s) e (split_at-IsSplit p s))
  | inr e ↦ rw e (IsSplit-on_first p c s (split_at p s) (split_at-IsSplit p s))
]

-- What a range stands for, where a step may follow: `N` alone is one value, and with a step it is
-- the values from N on.
pub data IsRead (spec : FieldSpec) : Text → Option ℕ → (lo hi : ℕ) → Type 0 where
  every : {step : Option ℕ} → IsRead spec (b'*' ∷ []) step spec.min spec.max
  one :
      {token : Text}
      → is_number token ≡ true
      → IsRead spec token none (value_from 0 token) (value_from 0 token)
  onwards :
      {token : Text} {step : ℕ}
      → is_number token ≡ true
      → IsRead spec token (some step) (value_from 0 token) spec.max
  span :
      (a b : Text) {step : Option ℕ}
      → is_number a ≡ true
      → is_number b ≡ true
      → IsRead spec (a ++ b'-' ∷ b) step (value_from 0 a) (value_from 0 b)

-- What an item stands for: the values from `lo` to `hi`, at each `step`.
pub data IsItem (spec : FieldSpec) : Text → (lo hi step : ℕ) → Type 0 where
  plain : {range : Text} {lo hi : ℕ} → IsRead spec range none lo hi → IsItem spec range lo hi 1
  stepped :
      (range step : Text) {lo hi : ℕ}
      → is_number step ≡ true
      → IsRead spec range (some (value_from 0 step)) lo hi
      → IsItem spec (range ++ b'/' ∷ step) lo hi (value_from 0 step)

abbrev IsNumeral : Text → ℕ → Type 0
IsNumeral token n = (is_number token ≡ true) × (value_from 0 token ≡ n)

parse_number-IsNumeral :
    (token : Text) (spec : FieldSpec) → Ensures (IsNumeral token) (parse_number token spec)
unfolding parse_number
parse_number-IsNumeral token spec = ground arith

is_star-star : (t : Text) → is_star t ≡ true → t ≡ b'*' ∷ []
is_star-star [] h = cc
is_star-star (c ∷ []) h = ap (λ x. x ∷ []) (ground arith)
is_star-star (c ∷ x ∷ t) h = cc

bounds_of-IsRead :
    (spec : FieldSpec) (range : Text) (step : Option ℕ) (parts : List Text)
    → IsSplit (λ c. c == b'-') range parts
    → Ensures (λ r. IsRead spec range step r.0 r.1) (bounds_of spec parts)
unfolding bounds_of
bounds_of-IsRead spec range step [] k = tt
bounds_of-IsRead spec range step (a ∷ []) k = tt
bounds_of-IsRead spec range step (a ∷ b ∷ []) (c, tail, sep, e, k) =
    let Q : ℕ × ℕ → Type 0 = λ r. IsRead spec range step r.0 r.1 in
    let dash : c ≡ b'-' = ground arith in
    let whole : range ≡ a ++ b'-' ∷ b = cc in
    Ensures-if Q (is_empty_text a || is_empty_text b) _ _ (λ _. tt)
      (λ _.
        Ensures->>= (IsNumeral a) Q (parse_number a spec) _ (parse_number-IsNumeral a spec)
          (λ lo (da, va).
            Ensures->>= (IsNumeral b) Q (parse_number b spec) _ (parse_number-IsNumeral b spec)
              (λ hi (db, vb).
                Ensures-if Q (ltb hi lo) (err (inverted_range spec.name)) (ok (lo, hi)) (λ _. tt)
                  (λ _. rw (whole, ← va, ← vb) (span a b da db)))))
bounds_of-IsRead spec range step (a ∷ b ∷ c ∷ rest) k = tt

number-IsRead :
    (spec : FieldSpec) (range : Text) (step : Option ℕ) (lo : ℕ)
    → IsNumeral range lo
    → IsRead spec range step lo (elim step [ none ↦ lo | some _ ↦ spec.max ])
number-IsRead spec range none lo (d, v) = rw (← v) (one d)
number-IsRead spec range (some k) lo (d, v) = rw (← v) (onwards d)

pub range_of-IsRead :
    (spec : FieldSpec) (range : Text) (step : Option ℕ)
    → Ensures (λ r. IsRead spec range step r.0 r.1) (range_of spec range step)
unfolding range_of
range_of-IsRead spec range step =
    let Q : ℕ × ℕ → Type 0 = λ r. IsRead spec range step r.0 r.1 in
    Ensures-if Q (is_star range) _ _ (λ h. rw (is_star-star range h) every)
      (λ _.
        Ensures-if Q (is_empty_text range) _ _ (λ _. tt)
          (λ _.
            Ensures-if Q (any (λ c. c == b'-') range) _ _
              (λ _.
                bounds_of-IsRead spec range step (split_at (λ c. c == b'-') range)
                  (split_at-IsSplit (λ c. c == b'-') range))
              (λ _.
                Ensures->>= (IsNumeral range) Q (parse_number range spec) _
                  (parse_number-IsNumeral range spec)
                  (λ lo n. number-IsRead spec range step lo n))))

-- The step that the parts of an item spell.
abbrev pub IsStep : List Text → Option ℕ → Type 0
IsStep (range ∷ []) none = Unit
IsStep (range ∷ step ∷ []) (some n) = IsNumeral step n
IsStep _ _ = ⊥

pub step_of-IsStep :
    (spec : FieldSpec) (parts : List Text) → Ensures (IsStep parts) (step_of spec parts)
unfolding step_of
step_of-IsStep spec [] = tt
step_of-IsStep spec (a ∷ []) = tt
step_of-IsStep spec (a ∷ b ∷ []) = ground arith
step_of-IsStep spec (a ∷ b ∷ c ∷ rest) = tt

IsItem-parts :
    (spec : FieldSpec) (item : Text) (parts : List Text) (step : Option ℕ) (lo hi : ℕ)
    → IsSplit (λ c. c == b'/') item parts
    → IsStep parts step
    → IsRead spec (first_part parts) step lo hi
    → IsItem spec item lo hi (step_or_one step)
IsItem-parts spec item [] step lo hi k s r = absurd k
IsItem-parts spec item (a ∷ []) none lo hi k s r = rw k (plain r)
IsItem-parts spec item (a ∷ []) (some n) lo hi k s r = absurd s
IsItem-parts spec item (a ∷ b ∷ []) none lo hi k s r = absurd s
IsItem-parts spec item (a ∷ b ∷ []) (some n) lo hi (c, tail, sep, e, k) (d, v) r =
    let slash : c ≡ b'/' = ground arith in
    let whole : item ≡ a ++ b'/' ∷ b = cc in
    rw (whole, ← v) (stepped a b d (subst (λ m. IsRead spec a (some m) lo hi) (sym v) r))
IsItem-parts spec item (a ∷ b ∷ c ∷ rest) none lo hi k s r = absurd s
IsItem-parts spec item (a ∷ b ∷ c ∷ rest) (some n) lo hi k s r = absurd s

pub split_at-IsItem :
    (spec : FieldSpec) (item : Text) (step : Option ℕ) (lo hi : ℕ)
    → IsStep (split_at (λ c. c == b'/') item) step
    → IsRead spec (first_part (split_at (λ c. c == b'/') item)) step lo hi
    → IsItem spec item lo hi (step_or_one step)
split_at-IsItem spec item step lo hi s r =
    IsItem-parts spec item (split_at (λ c. c == b'/') item) step lo hi
      (split_at-IsSplit (λ c. c == b'/') item) s r
