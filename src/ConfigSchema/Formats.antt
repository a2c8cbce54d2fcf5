-- ===== src/ConfigSchema/Formats.antt =====
-- The regular expressions of packages/shared/src/config.ts, secrets.ts and health.ts as tests on the
-- whole text, `volumePathError`, and the durations of health.ts.
use launch_pad.Prelude.{
  ℕ, ◌*◌, Bool, true, false, not, ◌&&◌, ◌||◌, Option, none, some, [], ◌∷◌, ltb, leb, ◌==◌,
  if◌then◌else◌, all, any, length,
}
use launch_pad.Prelude.Text.{
  Text, codes, same_text, last_of, is_empty_text, is_digit, is_number, is_lower, is_upper,
  is_letter, split_at, value_from,
}

abbrev is_lower_or_digit : ℕ → Bool
is_lower_or_digit c = is_lower c || is_digit c

abbrev pub is_letter_or_digit : ℕ → Bool
is_letter_or_digit c = is_letter c || is_digit c

-- `^[edge]([inner]{0,n}[edge])?$`, of at most `most` characters.
unfoldable pub is_between : (ℕ → Bool) → (ℕ → Bool) → ℕ → Text → Bool
is_between edge inner most [] = false
is_between edge inner most (c ∷ s) =
    edge c && all inner s && edge (last_of c s) && ltb (length s) most

-- `^[first][rest]*$`, of at most `most` characters.
unfoldable pub is_led_by : (ℕ → Bool) → (ℕ → Bool) → ℕ → Text → Bool
is_led_by first rest most [] = false
is_led_by first rest most (c ∷ s) = first c && all rest s && ltb (length s) most

-- `LABEL_REGEX`
unfoldable pub is_label : Text → Bool
is_label = is_between is_lower_or_digit (λ c. is_lower_or_digit c || c == b'-') 40

-- `NODE_ID_REGEX`
unfoldable pub is_node_id : Text → Bool
is_node_id = is_led_by is_letter_or_digit (λ c. is_letter_or_digit c || c == b'_' || c == b'-') 63

abbrev is_dot : ℕ → Bool
is_dot c = c == b'.'

unfoldable pub is_octet_shape : Text → Bool
is_octet_shape part = is_number part && leb (length part) 3

unfoldable pub is_ipv4_shape : Text → Bool
is_ipv4_shape text =
    let parts = split_at is_dot text in length parts == 4 && all is_octet_shape parts

unfoldable pub is_dns_label : Text → Bool
is_dns_label = is_between is_letter_or_digit (λ c. is_letter_or_digit c || c == b'-') 63

-- `HOSTNAME_REGEX`
unfoldable pub is_hostname : Text → Bool
is_hostname text =
    let parts = split_at is_dot text in
    not (is_ipv4_shape text) && leb 2 (length parts) && all is_dns_label parts

-- `POSTGRES_VERSION_REGEX`
unfoldable pub is_postgres_version : Text → Bool
is_postgres_version text =
    let parts = split_at is_dot text in leb (length parts) 2 && all is_number parts

-- `LOGICAL_DB_NAME_REGEX`
unfoldable pub is_logical_db_name : Text → Bool
is_logical_db_name =
    is_led_by (λ c. is_letter c || c == b'_') (λ c. is_letter_or_digit c || c == b'_' || c == b'$')
      63

-- `SECRET_KEY_REGEX`, which has no bound.
unfoldable pub is_secret_key : Text → Bool
is_secret_key text =
    is_led_by is_upper (λ c. is_upper c || is_digit c || c == b'_') (length text) text

pub data VolumePathError : Type 0 where
  not_absolute container_root trailing_slash parent_segment invalid_characters : VolumePathError

abbrev is_slash : ℕ → Bool
is_slash c = c == b'/'

abbrev is_path_character : ℕ → Bool
is_path_character c = is_letter_or_digit c || c == b'.' || c == b'_' || c == b'-' || c == b'/'

-- Of a path that is not empty.
unfoldable pub absolute_path_error : ℕ → Text → Option VolumePathError
absolute_path_error c s =
    if not (c == b'/')
    then some not_absolute
    else if is_empty_text s
    then some container_root
    else if last_of c s == b'/'
    then some trailing_slash
    else if any (same_text (codes "..")) (split_at is_slash (c ∷ s))
    then some parent_segment
    else if not (all is_path_character s)
    then some invalid_characters
    else none

unfoldable pub volume_path_error : Text → Option VolumePathError
volume_path_error [] = some not_absolute
volume_path_error (c ∷ s) = absolute_path_error c s

-- The digits that a text starts with, and what follows them.
unfoldable pub leading_digits : Text → Text
leading_digits [] = []
leading_digits (c ∷ s) = let rest = leading_digits s in if is_digit c then c ∷ rest else []

unfoldable pub after_digits : Text → Text
after_digits [] = []
after_digits (c ∷ s) = let rest = after_digits s in if is_digit c then rest else c ∷ s

-- The milliseconds of a duration's unit.
unfoldable pub unit_ms : Text → Option ℕ
unit_ms unit =
    if same_text unit (codes "ms")
    then some 1
    else if same_text unit (codes "s")
    then some 1000
    else if same_text unit (codes "m")
    then some 60000
    else none

-- The groups of `DURATION_PATTERN`: the number and the milliseconds of the unit.
unfoldable pub duration_match : Text → Option (ℕ × ℕ)
duration_match text =
    if is_empty_text (leading_digits text) then none else elim (unit_ms (after_digits text)) [
      | none ↦ none
      | some ms ↦ some (value_from 0 (leading_digits text), ms)
    ]

unfoldable pub is_duration : Text → Bool
is_duration text = elim (duration_match text) [ none ↦ false | some _ ↦ true ]

-- A text that is no duration counts as 0.
unfoldable pub parse_duration_ms : Text → ℕ
parse_duration_ms text = elim (duration_match text) [ none ↦ 0 | some (n, ms) ↦ n * ms ]
