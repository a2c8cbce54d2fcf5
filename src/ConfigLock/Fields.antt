-- ===== src/ConfigLock/Fields.antt =====
-- Sorting the keys of an object loses nothing.
use launch_pad.Prelude.{
  String, Bool, false, ◌||◌, Option, none, some, [], ◌∷◌, map, ◌≡◌, refl, sym, ap, ◌∙◌, inl, inr,
  arith, eq_iff, Bool-cases, if◌then◌else◌, Dict, get, keys, contains, Distinct, str_eq,
}
use mathlib.Core.Option
use launch_pad.Prelude.Sort.{sort, insert_sorted}
use launch_pad.ConfigLock.StableJson.{present, sort_keys}

module _ {V : Type 0} (before : String × V → String × V → Bool) where
  contains-insert :
      (k j : String) (v : V) (m : Dict V)
      → contains k (keys (insert_sorted before (j, v) m)) ≡ (str_eq j k || contains k (keys m))
  unfolding insert_sorted
  contains-insert k j v [] = refl
  contains-insert k j v ((i, w) ∷ m) = ground (arith, contains-insert k j v m)

  contains-keys-sort :
      (k : String) (m : Dict V) → contains k (keys (sort before m)) ≡ contains k (keys m)
  unfolding sort
  contains-keys-sort k [] = refl
  contains-keys-sort k ((j, v) ∷ m) =
      contains-insert k j v (sort before m) ∙ ap (λ b. str_eq j k || b) (contains-keys-sort k m)

  get-insert :
      (k j : String) (v : V) (m : Dict V)
      → contains j (keys m) ≡ false
      → get k (insert_sorted before (j, v) m) ≡ (if str_eq j k then some v else get k m)
  unfolding insert_sorted
  get-insert k j v [] new = refl
  get-insert k j v ((i, w) ∷ m) new =
      let rest = get-insert k j v m (ground arith) in
      ground (arith, rest, eq_iff i j, eq_iff i k, eq_iff j k)

  get-sort : (k : String) (m : Dict V) → Distinct (keys m) → get k (sort before m) ≡ get k m
  unfolding sort
  get-sort k [] d = refl
  get-sort k ((j, v) ∷ m) (new, d) =
      get-insert k j v (sort before m) (contains-keys-sort j m ∙ new)
      ∙ ap (λ o. if str_eq j k then some v else o) (get-sort k m d)

-- The value of a property, if it is there.
abbrev pub field : {V : Type 0} → String → Dict (Option V) → Option V
field k es = elim (get k es) [ none ↦ none | some v ↦ v ]

contains-present :
    {V : Type 0} (k : String) (es : Dict (Option V))
    → contains k (keys es) ≡ false
    → contains k (keys (present es)) ≡ false
unfolding present
contains-present k [] h = refl
contains-present k ((j, none) ∷ es) h = contains-present k es (ground arith)
contains-present k ((j, some v) ∷ es) h =
    let rest = contains-present k es (ground arith) in ground (arith, rest)

Distinct-present :
    {V : Type 0} (es : Dict (Option V)) → Distinct (keys es) → Distinct (keys (present es))
unfolding present
Distinct-present [] d = tt
Distinct-present ((j, none) ∷ es) (new, d) = Distinct-present es d
Distinct-present ((j, some v) ∷ es) (new, d) = (contains-present j es new, Distinct-present es d)

get_absent : {V : Type 0} (k : String) (m : Dict V) → contains k (keys m) ≡ false → get k m ≡ none
get_absent k [] h = refl
get_absent k ((j, v) ∷ m) h = ground (arith, get_absent k m)

get-present :
    {V : Type 0} (k : String) (es : Dict (Option V))
    → Distinct (keys es)
    → get k (present es) ≡ field k es
unfolding present
get-present k [] d = refl
get-present k ((j, none) ∷ es) (new, d) = elim (Bool-cases (str_eq j k)) [
  | inl e ↦
      let same : j ≡ k = ground (arith, eq_iff j k) in
      get_absent k (present es)
        (contains-present k es (ap (λ x. contains x (keys es)) (sym same) ∙ new))
      ∙ rw (e, field) refl
  | inr e ↦ rw (e, field) (get-present k es d)
]
get-present k ((j, some v) ∷ es) (new, d) = elim (Bool-cases (str_eq j k)) [
  | inl e ↦ rw (e, field) refl
  | inr e ↦ rw (e, field) (get-present k es d)
]

-- Objects of the same properties that are sorted to the same object have the same values.
pub sort_keys-field :
    {V : Type 0} (locale_before : String → String → Bool) (k : String) (es fs : Dict (Option V))
    → Distinct (keys es)
    → Distinct (keys fs)
    → sort_keys locale_before (present es) ≡ sort_keys locale_before (present fs)
    → field k es ≡ field k fs
unfolding sort_keys
sort_keys-field locale_before k es fs d e h =
    let before : String × _ → String × _ → Bool = λ a b. locale_before a.0 b.0 in
    sym (get-present k es d)
    ∙ sym (get-sort before k (present es) (Distinct-present es d))
    ∙ ap (get k) h
    ∙ get-sort before k (present fs) (Distinct-present fs e)
    ∙ get-present k fs e

pub map-present :
    {V W : Type 0} (f : V → W) (es : Dict (Option V))
    → map (λ e. (e.0, f e.1)) (present es) ≡ present (map (λ e. (e.0, Option.map f e.1)) es)
unfolding present
map-present f [] = refl
map-present f ((k, none) ∷ es) = map-present f es
map-present f ((k, some v) ∷ es) = ap (λ m. (k, f v) ∷ m) (map-present f es)
