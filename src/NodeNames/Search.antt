-- ===== src/NodeNames/Search.antt =====
-- The search for a number ends: a used name has more numbers than there are names in use.
use launch_pad.Prelude.{
  length-filter, length-append, ◌==◌, ℕ, zero, suc, ◌+◌, ◌≤◌, ◌<◌, Bool, true, false, not, ◌&&◌,
  ◌||◌, some, List, [], ◌∷◌, ◌++◌, ◌≡◌, refl, sym, ap, ◌∙◌, ◌≢◌, inl, inr, arith, Bool-cases,
  filter, all, any, length,
}
use mathlib.Core.List.{append_cancel_left}
use launch_pad.Prelude.Text.{Text, same_text, same_text_iff, is_lower, is_digit, value_from}
use launch_pad.ConfigSchema.Formats.{is_node_id, is_led_by, is_letter_or_digit}
use launch_pad.NodeNames.Numbers.{value_from-decimal, ten_to, length-decimal, decimal_digits}
use launch_pad.NodeNames.{is_used, decimal, numbered, fallback_from}

module _ {A : Type 0} where
  all-append : (p : A → Bool) (xs ys : List A) → all p (xs ++ ys) ≡ (all p xs && all p ys)
  all-append p [] ys = refl
  all-append p (x ∷ xs) ys = ground (arith, all-append p xs ys)

  pub all_weaken :
      (p q : A → Bool) (xs : List A)
      → ((x : A) → p x ≡ true → q x ≡ true)
      → all p xs ≡ true
      → all q xs ≡ true
  all_weaken p q [] f h = refl
  all_weaken p q (x ∷ xs) f h = ground (arith, f x, all_weaken p q xs f)

  -- A list without the elements of which there is one is shorter.
  filter_shorter :
      (p : A → Bool) (xs : List A)
      → any p xs ≡ true
      → length (filter (λ x. not (p x)) xs) < length xs
  filter_shorter p [] h = cc
  filter_shorter p (x ∷ xs) h =
      ground (arith, filter_shorter p xs, length-filter (λ x. not (p x)) xs)

abbrev pub is_lower_or_hyphen : ℕ → Bool
is_lower_or_hyphen c = is_lower c || c == b'-'

-- A word or words with hyphens, of at most `most` characters.
unfoldable pub IsName : ℕ → Text → Type 0
IsName most t = is_led_by is_lower is_lower_or_hyphen most t ≡ true

pub IsName-join :
    (m n most : ℕ) (a b : Text)
    → m + 1 + n ≡ most
    → IsName m a
    → IsName n b
    → IsName most (a ++ b'-' ∷ b)
unfolding IsName is_led_by
IsName-join m n most [] b e h k = cc
IsName-join m n most (x ∷ a) [] e h k = cc
IsName-join m n most (x ∷ a) (y ∷ b) e h k =
    ground (arith, all-append is_lower_or_hyphen a (b'-' ∷ y ∷ b), length-append a (b'-' ∷ y ∷ b))

abbrev is_node_id_character : ℕ → Bool
is_node_id_character c = is_letter_or_digit c || c == b'_' || c == b'-'

is_node_id-numbered :
    (c : Text) (n : ℕ) → IsName 23 c → n < ten_to 21 → is_node_id (numbered c n) ≡ true
unfolding IsName is_node_id is_led_by numbered
is_node_id-numbered [] n h l = cc
is_node_id-numbered (x ∷ c) n h l =
    let inner = all_weaken is_lower_or_hyphen is_node_id_character c (λ x h. ground (arith, h)) in
    let digits =
      all_weaken is_digit is_node_id_character (decimal n) (λ x h. ground (arith, h))
        (decimal_digits n) in
    ground (
      arith,
      inner,
      digits,
      all-append is_node_id_character c (b'-' ∷ decimal n),
      length-append c (b'-' ∷ decimal n),
      length-decimal 20 n l,
    )

pub is_node_id-name : (c : Text) → IsName 23 c → is_node_id c ≡ true
unfolding IsName is_node_id is_led_by
is_node_id-name [] h = cc
is_node_id-name (x ∷ c) h =
    ground (arith, all_weaken is_lower_or_hyphen is_node_id_character c (λ x h. ground (arith, h)))

numbered-injective : (c : Text) (m n : ℕ) → numbered c m ≡ numbered c n → m ≡ n
unfolding numbered
numbered-injective c m n h =
    let digits : decimal m ≡ decimal n = let k = append_cancel_left c _ _ h in cc in
    sym (value_from-decimal m) ∙ ap (λ t. value_from 0 t) digits ∙ value_from-decimal n

-- The names of `xs` but `f` hold the other names that `xs` holds.
used_besides :
    (f g : Text) (xs : List Text)
    → f ≢ g
    → is_used (filter (λ u. not (same_text f u)) xs) g ≡ is_used xs g
used_besides f g [] h = refl
used_besides f g (u ∷ xs) h =
    ground (arith, h, same_text_iff f u, same_text_iff g u, used_besides f g xs h)

module _ (used : List Text) (c : Text) (name : IsName 23 c) where
  -- Among more numbers than there are names left in use, one is free.
  pub fallback_found :
      (rounds n : ℕ) (left : List Text)
      → length left < rounds
      → n + rounds ≤ ten_to 21
      → ((m : ℕ) → n ≤ m → is_used left (numbered c m) ≡ is_used used (numbered c m))
      → (t : Text) × (fallback_from used c rounds n ≡ some t)
        × (is_used used t ≡ false)
        × (is_node_id t ≡ true)
  unfolding fallback_from
  fallback_found zero n left h l same = absurd (omega (arith, h))
  fallback_found (suc rounds) n left h l same =
      let node_id : is_node_id (numbered c n) ≡ true =
        is_node_id-numbered c n name (omega (arith, l)) in
      elim (Bool-cases (is_used used (numbered c n))) [
        | inr e ↦ (numbered c n, rw (e, node_id) refl, e, node_id)
        | inl e ↦
            let here : is_used left (numbered c n) ≡ true = same n (omega arith) ∙ e in
            let shorter = filter_shorter (same_text (numbered c n)) left here in
            rw e (
              fallback_found rounds (suc n) (filter (λ u. not (same_text (numbered c n) u)) left)
                (omega (arith, h, shorter)) (omega (arith, l))
                (λ m later.
                  used_besides (numbered c n) (numbered c m) left
                    (λ e. let k = numbered-injective c n m e in absurd (omega (arith, k, later)))
                  ∙ same m (omega (arith, later))))
      ]
