-- ===== src/NodeNames/Numbers.antt =====
-- The decimal digits of a number: they tell numbers apart, and are few.
use launch_pad.Prelude.{
  lt→ltb, ltb→lt, ltb, ℕ, zero, suc, ◌+◌, ◌-◌, ◌*◌, ◌/◌, ◌%◌, ◌≤◌, ◌<◌, true, [], ◌∷◌, ◌≡◌, refl,
  ap, ◌∙◌, inl, inr, arith, Bool-cases, all, length,
}
use launch_pad.Prelude.Text.{Text, is_digit, value_from}
use launch_pad.NodeNames.{digits_before, decimal}

value_from-digits_before :
    (rounds n : ℕ) (out : Text)
    → n < rounds
    → value_from 0 (digits_before rounds n out) ≡ value_from n out
unfolding digits_before value_from
value_from-digits_before zero n out h = absurd (omega arith)
value_from-digits_before (suc rounds) n out h = elim (Bool-cases (ltb n 10)) [
  | inl e ↦
      let digit : 0 * 10 + (b'0' + n - b'0') ≡ n = omega arith in
      rw e (ap (λ m. value_from m out) digit)
  | inr e ↦
      let big : 10 ≤ n = ground arith in
      let back : n / 10 * 10 + (b'0' + n % 10 - b'0') ≡ n = omega arith in
      rw e (
        value_from-digits_before rounds (n / 10) ((b'0' + n % 10) ∷ out) (omega (arith, big))
        ∙ ap (λ m. value_from m out) back)
]

pub value_from-decimal : (n : ℕ) → value_from 0 (decimal n) ≡ n
unfolding decimal value_from
value_from-decimal n = value_from-digits_before (suc n) n [] (omega arith)

abbrev pub ten_to : ℕ → ℕ
ten_to zero = 1
ten_to (suc k) = 10 * ten_to k

length-digits_before :
    (k rounds n : ℕ) (out : Text)
    → n < ten_to (suc k)
    → length (digits_before rounds n out) ≤ suc k + length out
unfolding digits_before
length-digits_before k zero n out h = omega arith
length-digits_before zero (suc rounds) n out h =
    let e : ltb n 10 ≡ true = lt→ltb n 10 (omega (arith, h)) in rw e (omega arith)
length-digits_before (suc k) (suc rounds) n out h = elim (Bool-cases (ltb n 10)) [
  | inl e ↦ rw e (omega arith)
  | inr e ↦ rw e (
      omega
        (arith, length-digits_before k rounds (n / 10) ((b'0' + n % 10) ∷ out) (omega (arith, h))))
]

pub length-decimal : (k n : ℕ) → n < ten_to (suc k) → length (decimal n) ≤ suc k
unfolding decimal
length-decimal k n h = omega (arith, length-digits_before k (suc n) n [] h)

all_digits :
    (rounds n : ℕ) (out : Text)
    → all is_digit out ≡ true
    → all is_digit (digits_before rounds n out) ≡ true
unfolding digits_before
all_digits zero n out h = h
all_digits (suc rounds) n out h = elim (Bool-cases (ltb n 10)) [
  | inl e ↦ rw e (ground (arith, ltb→lt n 10 e))
  | inr e ↦ rw e (all_digits rounds (n / 10) ((b'0' + n % 10) ∷ out) (ground arith))
]

pub decimal_digits : (n : ℕ) → all is_digit (decimal n) ≡ true
unfolding decimal
decimal_digits n = all_digits (suc n) n [] refl
