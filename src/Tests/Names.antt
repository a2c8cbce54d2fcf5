-- ===== src/Tests/Names.antt =====
-- New names from a random source that always draws the first word.
use launch_pad.Prelude.{ℕ, suc, some, List, [], ◌∷◌, ◌≡◌, refl, arith, length}
use launch_pad.Prelude.Int.{ℤ, pos}
use launch_pad.Prelude.Text.{Text, codes}
use launch_pad.NodeNames.{digits_before, decimal, numbered, generate_node_names}
use launch_pad.NodeNames.Fresh.{generate_node_names-AreFresh, AreFresh}

abbrev first_word : ℕ → ℕ → ℤ × ℕ
first_word length rng = (pos 0, suc rng)

abbrev in_use : List Text
in_use = codes "ant-bakes-ably" ∷ codes "ant-bakes-ably-2" ∷ []

numbered_name : numbered (codes "dog") 40 ≡ codes "dog-40"
unfolding numbered decimal digits_before
numbered_name = refl

generate_node_names-AreFresh_example :
    (names : List Text) × (generate_node_names first_word 3 in_use 0 ≡ some names)
    × (length names ≡ 3)
    × AreFresh in_use names
generate_node_names-AreFresh_example =
    generate_node_names-AreFresh first_word 3 in_use 0 (omega arith)
