-- ===== src/Prelude/Text.antt =====
-- Texts that the program takes apart, as lists of code points.
use Prim.Native.Nat.{ℕ, ◌+◌, ◌-◌, ◌*◌}
use Prim.Native.Char.{code}
use Prim.Native.String.{String}
use mathlib.Core.Path.{◌≡◌, refl}
use mathlib.Core.Logic.{◌↔◌}
use native.Mathlib.Omega.{arith}
use mathlib.Core.Bool.{Bool, true, false, not, ◌&&◌, ◌||◌}
use mathlib.Core.List.{List, [], ◌∷◌, ◌++◌}
use launch_pad.Prelude.Tests.{leb, ◌==◌, if◌then◌else◌}
use launch_pad.Prelude.Lists.{all}

abbrev pub Text : Type 0
Text = List ℕ

abbrev pub codes : String → Text
codes String.[] = []
codes (String.◌∷◌ c s) = code c ∷ codes s

abbrev pub is_empty_text : Text → Bool
is_empty_text [] = true
is_empty_text (_ ∷ _) = false

-- A character joins the first part.
abbrev pub on_first : ℕ → List Text → List Text
on_first c [] = (c ∷ []) ∷ []
on_first c (p ∷ ps) = (c ∷ p) ∷ ps

-- `text.split(separator)`, of one character: the characters where `is_separator` cut the text.
unfoldable pub split_at : (ℕ → Bool) → Text → List Text
split_at is_separator [] = [] ∷ []
split_at is_separator (c ∷ s) =
    let rest = split_at is_separator s in if is_separator c then [] ∷ rest else on_first c rest

abbrev pub is_digit : ℕ → Bool
is_digit c = leb b'0' c && leb c b'9'

-- `/^\d+$/.test(token)`
unfoldable pub is_number : Text → Bool
is_number token = not (is_empty_text token) && all is_digit token

-- `Number.parseInt(token, 10)` of digits.
unfoldable pub value_from : ℕ → Text → ℕ
value_from n [] = n
value_from n (c ∷ s) = value_from (n * 10 + (c - b'0')) s

abbrev pub same_text : Text → Text → Bool
same_text [] [] = true
same_text (c ∷ s) (d ∷ t) = c == d && same_text s t
same_text _ _ = false

pub same_text_iff : (s t : Text) → (same_text s t ≡ true) ↔ (s ≡ t)
same_text_iff [] [] = (λ _. refl, λ _. refl)
same_text_iff [] (d ∷ t) = (λ h. cc, λ h. cc)
same_text_iff (c ∷ s) [] = (λ h. cc, λ h. cc)
same_text_iff (c ∷ s) (d ∷ t) =
    let ih = same_text_iff s t in (λ h. ground (arith, ih), λ h. ground (arith, ih))

-- `text.startsWith(start)`
unfoldable pub starts_with : Text → Text → Bool
starts_with [] text = true
starts_with (c ∷ start) [] = false
starts_with (c ∷ start) (d ∷ text) = c == d && starts_with start text

-- `text.includes(part)`, of a part that is not empty.
unfoldable pub includes : Text → Text → Bool
includes part [] = false
includes part (c ∷ text) = starts_with part (c ∷ text) || includes part text

-- The last of the characters `c`, `text`.
unfoldable pub last_of : ℕ → Text → ℕ
last_of c [] = c
last_of c (d ∷ text) = last_of d text

abbrev pub is_lower : ℕ → Bool
is_lower c = leb b'a' c && leb c b'z'

abbrev pub is_upper : ℕ → Bool
is_upper c = leb b'A' c && leb c b'Z'

abbrev pub is_letter : ℕ → Bool
is_letter c = is_lower c || is_upper c

pub starts_with_self : (p s : Text) → starts_with p (p ++ s) ≡ true
unfolding starts_with
starts_with_self [] s = refl
starts_with_self (c ∷ p) s = ground (arith, starts_with_self p s)

-- What follows a prefix.
pub rest_of : (p t : Text) → starts_with p t ≡ true → (r : Text) × (t ≡ p ++ r)
unfolding starts_with
rest_of [] t h = (t, refl)
rest_of (c ∷ p) [] h = cc
rest_of (c ∷ p) (d ∷ t) h =
    let (r, e) = rest_of p t (ground arith) in
    let same : d ≡ c = ground arith in (r, rw (same, e) refl)
