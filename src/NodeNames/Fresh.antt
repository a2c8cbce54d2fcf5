-- ===== src/NodeNames/Fresh.antt =====
-- A new node's name is not in use and well formed, and the search for it ends.
use launch_pad.Prelude.{
  ◌^◌, ℕ, zero, suc, ◌+◌, ◌-◌, ◌≤◌, ◌<◌, String, Bool, true, false, some, List, [], ◌∷◌, ◌++◌, ◌≡◌,
  refl, sym, ap, ◌∙◌, ◌⊎◌, inl, inr, arith, Bool-cases, all, length,
}
use mathlib.Core.List.{append-nil, append_assoc}
use launch_pad.Prelude.Int.{ℤ, pos, negsuc}
use launch_pad.Prelude.Text.{Text, codes, is_lower}
use launch_pad.ConfigSchema.Formats.{is_node_id, is_led_by}
use launch_pad.NodeNames.Search.{
  IsName-join, is_node_id-name, all_weaken, IsName, is_lower_or_hyphen, fallback_found,
}
use launch_pad.NodeNames.{
  nouns, verbs, adverbs, max_random_attempts, clamped, word_at, is_used, pick, new_candidate,
  draw_names, generate_node_name, generate_names_from, generate_node_names,
}

abbrev are_words : ℕ → List String → Bool
are_words most = all (λ w. is_led_by is_lower is_lower most (codes w))

known_words : (are_words 6 nouns ≡ true) × (are_words 7 verbs ≡ true) × (are_words 8 adverbs ≡ true)
unfolding is_led_by
known_words = (refl, refl, refl)

word-IsName : (most : ℕ) (t : Text) → is_led_by is_lower is_lower most t ≡ true → IsName most t
unfolding IsName is_led_by
word-IsName most [] h = cc
word-IsName most (x ∷ t) h =
    ground (arith, all_weaken is_lower is_lower_or_hyphen t (λ x h. ground (arith, h)))

word_at-IsName :
    (most : ℕ) (ws : List String) (i : ℕ)
    → are_words most ws ≡ true
    → i < length ws
    → IsName most (word_at ws i)
unfolding word_at
word_at-IsName most [] i h l = absurd (omega (arith, l))
word_at-IsName most (w ∷ ws) zero h l = word-IsName most (codes w) (ground arith)
word_at-IsName most (w ∷ ws) (suc i) h l =
    word_at-IsName most ws i (ground arith) (omega (arith, l))

clamped-below : (last : ℕ) (i : ℤ) → clamped last i ≤ last
unfolding clamped
clamped-below last (pos i) = omega arith
clamped-below last (negsuc i) = omega arith

-- Each name is a node id, and neither in use nor one of the names before it.
unfoldable pub AreFresh : List Text → List Text → Type 0
AreFresh used [] = Unit
AreFresh used (t ∷ ts) = (is_used used t ≡ false) × (is_node_id t ≡ true) × AreFresh (t ∷ used) ts

module _ {Rng : Type 0} (draw : ℕ → Rng → ℤ × Rng) where
  pick-IsName :
      (most : ℕ) (ws : List String) (rng : Rng)
      → are_words most ws ≡ true
      → 0 < length ws
      → IsName most (pick draw ws rng).0
  unfolding pick
  pick-IsName most ws rng h l =
      let i = (draw (length ws) rng).0 in
      word_at-IsName most ws (clamped (length ws - 1) i) h
        (omega (arith, l, clamped-below (length ws - 1) i))

  new_candidate-IsName : (rng : Rng) → IsName 23 (new_candidate draw rng).0
  unfolding new_candidate
  new_candidate-IsName rng =
      let (n, v, a) = known_words in
      let rng1 = (pick draw nouns rng).1 in
      let rng2 = (pick draw verbs rng1).1 in
      IsName-join 6 16 23 _ _ refl (pick-IsName 6 nouns rng n (omega arith)) (
        IsName-join 7 8 16 _ _ refl (pick-IsName 7 verbs rng1 v (omega arith))
          (pick-IsName 8 adverbs rng2 a (omega arith)))

  draw_names-IsName :
      (used : List Text) (left : ℕ) (c : Text) (rng : Rng)
      → (IsName 23 c) ⊎ (0 < left)
      → IsName 23 (draw_names draw used left c rng).0
  unfolding draw_names
  draw_names-IsName used zero c rng (inl h) = h
  draw_names-IsName used zero c rng (inr l) = absurd (omega (arith, l))
  draw_names-IsName used (suc left) c rng h =
      let drawn = new_candidate-IsName rng in
      elim (Bool-cases (is_used used (new_candidate draw rng).0)) [
        | inl e ↦ rw e (
            draw_names-IsName used left (new_candidate draw rng).0 (new_candidate draw rng).1
              (inl drawn))
        | inr e ↦ rw e drawn
      ]

  -- Of fewer than 10^20 names in use, whatever the random source draws: a name is generated, which is
  -- not among them and is a node id; so the loop over the numbers ends.
  pub generate_node_name-IsFresh :
      (used : List Text) (rng : Rng)
      → length used < 10 ^ 20
      → (name : Text) × (next : Rng) × (generate_node_name draw used rng ≡ some (name, next))
        × (is_used used name ≡ false)
        × (is_node_id name ≡ true)
  unfolding generate_node_name
  generate_node_name-IsFresh used rng few =
      let c = (draw_names draw used max_random_attempts [] rng).0 in
      let next = (draw_names draw used max_random_attempts [] rng).1 in
      let name : IsName 23 c =
        draw_names-IsName used max_random_attempts [] rng (inr (omega arith)) in
      elim (Bool-cases (is_used used c)) [
        | inr e ↦ (c, next, rw e refl, e, is_node_id-name c name)
        | inl e ↦
            let (t, found, free, node_id) =
              fallback_found used c name (suc (length used)) 2 used (omega arith)
                (omega (arith, few)) (λ m _. refl) in
            (t, next, rw (e, found) refl, free, node_id)
      ]

  names_step :
      (count : ℕ) (used names : List Text) (rng next : Rng) (t : Text)
      → generate_node_name draw used rng ≡ some (t, next)
      → generate_names_from draw (suc count) used names rng
        ≡ generate_names_from draw count (t ∷ used) (names ++ t ∷ []) next
  unfolding generate_names_from
  names_step count used names rng next t h = rw (h, generate_names_from) refl

  generate_names_from-AreFresh :
      (count : ℕ) (used names : List Text) (rng : Rng)
      → count + length used < 10 ^ 20
      → (new : List Text) × (generate_names_from draw count used names rng ≡ some (names ++ new))
        × (length new ≡ count)
        × AreFresh used new
  unfolding generate_names_from AreFresh
  generate_names_from-AreFresh zero used names rng few =
      ([], ap some (sym (append-nil names)), refl, tt)
  generate_names_from-AreFresh (suc count) used names rng few =
      let (t, next, made, free, node_id) =
        generate_node_name-IsFresh used rng (omega (arith, few)) in
      let (ts, rest, long, fresh) =
        generate_names_from-AreFresh count (t ∷ used) (names ++ t ∷ []) next (omega (arith, few)) in
      (
        t ∷ ts,
        names_step count used names rng next t made
            ∙ rest
            ∙ ap some (append_assoc names (t ∷ []) ts),
        ap suc long,
        (free, node_id, fresh),
      )

  -- Of names in use that with the new ones are fewer than 10^20, whatever the random source draws:
  -- as many names are generated as are asked for, each of them a node id and neither in use nor one of
  -- the names before it.
  pub generate_node_names-AreFresh :
      (count : ℕ) (used : List Text) (rng : Rng)
      → count + length used < 10 ^ 20
      → (names : List Text) × (generate_node_names draw count used rng ≡ some names)
        × (length names ≡ count)
        × AreFresh used names
  unfolding generate_node_names
  generate_node_names-AreFresh count used rng few =
      generate_names_from-AreFresh count used [] rng few
