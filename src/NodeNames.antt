-- ===== src/NodeNames.antt =====
-- packages/shared/src/node-names.ts: names for new nodes, as lists of code points. The random source
-- is a parameter: `draw` gives `Math.floor(rng() * length)` and the source's next state.
pub mod Numbers
pub mod Search
pub mod Fresh
use launch_pad.Prelude.{
  ltb, ℕ, zero, suc, ◌+◌, ◌-◌, ◌/◌, ◌%◌, min, String, Bool, not, ◌&&◌, Option, none, some, List, [],
  ◌∷◌, ◌++◌, map, if◌then◌else◌, any, length,
}
use mathlib.Core.Option
use launch_pad.Prelude.Int.{ℤ, pos, negsuc}
use launch_pad.Prelude.Text.{Text, codes, same_text}
use launch_pad.ConfigSchema.Formats.{is_node_id}

abbrev nouns : List String
nouns =
    "ant" ∷ "badger" ∷ "bat" ∷ "bear" ∷ "bee" ∷ "bison" ∷ "camel" ∷ "cat" ∷ "colt" ∷ "crab"
    ∷ "crane" ∷ "crow" ∷ "deer" ∷ "dog" ∷ "dove" ∷ "duck" ∷ "eagle" ∷ "elk" ∷ "falcon" ∷ "fawn"
    ∷ "ferret" ∷ "finch" ∷ "fish" ∷ "fox" ∷ "frog" ∷ "gecko" ∷ "goat" ∷ "goose" ∷ "hare" ∷ "hawk"
    ∷ "heron" ∷ "horse" ∷ "hound" ∷ "husky" ∷ "ibis" ∷ "koala" ∷ "lamb" ∷ "lemur" ∷ "lion" ∷ "llama"
    ∷ "lynx" ∷ "mole" ∷ "moose" ∷ "moth" ∷ "mouse" ∷ "newt" ∷ "otter" ∷ "owl" ∷ "panda" ∷ "pony"
    ∷ "puma" ∷ "quail" ∷ "raven" ∷ "robin" ∷ "seal" ∷ "shark" ∷ "sloth" ∷ "snail" ∷ "swan" ∷ "tiger"
    ∷ "toad" ∷ "trout" ∷ "whale" ∷ "wren" ∷ []

abbrev verbs : List String
verbs =
    "bounds" ∷ "calls" ∷ "climbs" ∷ "crawls" ∷ "darts" ∷ "dashes" ∷ "digs" ∷ "dives" ∷ "dreams"
    ∷ "drifts" ∷ "files" ∷ "flies" ∷ "floats" ∷ "flips" ∷ "gazes" ∷ "glides" ∷ "grins" ∷ "hides"
    ∷ "hikes" ∷ "hops" ∷ "howls" ∷ "hums" ∷ "hunts" ∷ "jumps" ∷ "kicks" ∷ "leaps" ∷ "lopes"
    ∷ "marches" ∷ "naps" ∷ "paces" ∷ "paints" ∷ "plays" ∷ "prowls" ∷ "races" ∷ "rests" ∷ "rises"
    ∷ "roams" ∷ "rolls" ∷ "runs" ∷ "sails" ∷ "sings" ∷ "skips" ∷ "sleeps" ∷ "slides" ∷ "sneaks"
    ∷ "sniffs" ∷ "soars" ∷ "spins" ∷ "sprints" ∷ "stands" ∷ "strolls" ∷ "struts" ∷ "surfs" ∷ "sways"
    ∷ "swims" ∷ "treks" ∷ "trots" ∷ "twirls" ∷ "waits" ∷ "walks" ∷ "wanders" ∷ "waves" ∷ "yawns"
    ∷ "zooms" ∷ []

abbrev adverbs : List String
adverbs =
    "ably" ∷ "afar" ∷ "ahead" ∷ "alone" ∷ "aloud" ∷ "away" ∷ "badly" ∷ "barely" ∷ "boldly"
    ∷ "bravely" ∷ "briskly" ∷ "calmly" ∷ "clearly" ∷ "coolly" ∷ "daily" ∷ "dearly" ∷ "deeply"
    ∷ "deftly" ∷ "dimly" ∷ "early" ∷ "easily" ∷ "fast" ∷ "fiercely" ∷ "fondly" ∷ "freely" ∷ "gently"
    ∷ "gladly" ∷ "grandly" ∷ "high" ∷ "hourly" ∷ "keenly" ∷ "kindly" ∷ "late" ∷ "lightly" ∷ "lively"
    ∷ "loudly" ∷ "low" ∷ "madly" ∷ "neatly" ∷ "nicely" ∷ "nightly" ∷ "nimbly" ∷ "oddly" ∷ "often"
    ∷ "plainly" ∷ "proudly" ∷ "quickly" ∷ "quietly" ∷ "rarely" ∷ "safely" ∷ "sharply" ∷ "shyly"
    ∷ "simply" ∷ "slowly" ∷ "softly" ∷ "soon" ∷ "swiftly" ∷ "warmly" ∷ "weekly" ∷ "well" ∷ "wildly"
    ∷ "wisely" ∷ "yearly" ∷ "zestily" ∷ []

abbrev pub max_random_attempts : ℕ
max_random_attempts = 100

-- `Math.min(list.length - 1, Math.max(0, i))`
unfoldable pub clamped : ℕ → ℤ → ℕ
clamped last (pos i) = min last i
clamped last (negsuc _) = 0

-- `list[i]`, of an index that is in the list.
unfoldable pub word_at : List String → ℕ → Text
word_at [] i = []
word_at (w ∷ ws) zero = codes w
word_at (w ∷ ws) (suc i) = word_at ws i

-- `used.has(name)`
abbrev pub is_used : List Text → Text → Bool
is_used used name = any (same_text name) used

-- `${n}`: the digits of `n` in front of `out`, with enough rounds.
unfoldable pub digits_before : ℕ → ℕ → Text → Text
digits_before zero n out = out
digits_before (suc rounds) n out =
    let rest = digits_before rounds (n / 10) ((b'0' + n % 10) ∷ out) in
    if ltb n 10 then (b'0' + n) ∷ out else rest

unfoldable pub decimal : ℕ → Text
decimal n = digits_before (suc n) n []

-- `${candidate}-${n}`
unfoldable pub numbered : Text → ℕ → Text
numbered candidate n = candidate ++ b'-' ∷ decimal n

-- The loop from `n` on, which has no bound in the source, with `rounds` to go.
unfoldable pub fallback_from : List Text → Text → ℕ → ℕ → Option Text
fallback_from used candidate zero n = none
fallback_from used candidate (suc rounds) n =
    let rest = fallback_from used candidate rounds (suc n) in
    let fallback = numbered candidate n in
    if not (is_used used fallback) && is_node_id fallback then some fallback else rest

module _ {Rng : Type 0} (draw : ℕ → Rng → ℤ × Rng) where
  unfoldable pub pick : List String → Rng → Text × Rng
  pick list rng =
      let drawn = draw (length list) rng in
      (word_at list (clamped (length list - 1) drawn.0), drawn.1)

  unfoldable pub new_candidate : Rng → Text × Rng
  new_candidate rng =
      let noun = pick nouns rng in
      let verb = pick verbs noun.1 in
      let adverb = pick adverbs verb.1 in (noun.0 ++ b'-' ∷ (verb.0 ++ b'-' ∷ adverb.0), adverb.1)

  -- The draws: a name that is free, or the last candidate after `left` rounds.
  unfoldable pub draw_names : List Text → ℕ → Text → Rng → Text × Rng
  draw_names used zero candidate rng = (candidate, rng)
  draw_names used (suc left) candidate rng =
      let drawn = new_candidate rng in
      let rest = draw_names used left drawn.0 drawn.1 in
      if not (is_used used drawn.0) then drawn else rest

  -- After the draws: a candidate in use gets a number, on rounds that are enough.
  unfoldable pub generate_node_name : List Text → Rng → Option (Text × Rng)
  generate_node_name used rng =
      let drawn = draw_names used max_random_attempts [] rng in
      if not (is_used used drawn.0)
      then some drawn
      else Option.map (λ name. (name, drawn.1)) (fallback_from used drawn.0 (suc (length used)) 2)

  -- `count` rounds, behind `names`.
  unfoldable pub generate_names_from : ℕ → List Text → List Text → Rng → Option (List Text)
  generate_names_from zero used names rng = some names
  generate_names_from (suc count) used names rng = elim (generate_node_name used rng) [
    | none ↦ none
    | some (name, next) ↦ generate_names_from count (name ∷ used) (names ++ name ∷ []) next
  ]

  unfoldable pub generate_node_names : ℕ → List Text → Rng → Option (List Text)
  generate_node_names count used rng = generate_names_from count used [] rng
