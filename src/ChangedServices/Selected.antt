-- ===== src/ChangedServices/Selected.antt =====
-- Which services `deploy --changed` selects.
use launch_pad.Prelude.{
  ok, >>=-eq-ok, ◌==◌, Bool, true, false, not, ◌||◌, Option, none, some, List, [], ◌∷◌, ◌++◌, map,
  ◌≡◌, refl, sym, ap, ◌∙◌, ◌↔◌, ◌⊎◌, inl, inr, arith, Bool-cases, filter, any,
}
use mathlib.Core.Path.{subst}
use mathlib.Core.List.{append_assoc}
use launch_pad.Prelude.Occurs.{
  Occurs, Occurs-append, append-Occurs, Occurs-filter, filter-Occurs, any-Occurs, Occurs-any,
  map-Occurs, Occurs-map,
}
use launch_pad.Prelude.Text.{
  Text, codes, same_text, same_text_iff, starts_with_self, rest_of, starts_with, is_empty_text,
  split_at,
}
use launch_pad.ChangedServices.{
  ServiceBuildPaths, to_slash, is_within, is_input, select_changed_services, split_lines, is_sha,
  set_of, rev_parse, diff, ls_files, resolved_ref, resolve_ref, lines_of, collect_changed_paths,
  trim,
}

to_slash_twice : (p : Text) → to_slash (to_slash p) ≡ to_slash p
unfolding to_slash
to_slash_twice [] = refl
to_slash_twice (c ∷ p) = elim (Bool-cases (c == 92)) [
  | inl e ↦ rw e (ap (λ t. b'/' ∷ t) (to_slash_twice p))
  | inr e ↦ rw e (rw e (ap (λ t. c ∷ t) (to_slash_twice p)))
]

is_empty_text-to_slash : (p : Text) → is_empty_text (to_slash p) ≡ is_empty_text p
unfolding to_slash
is_empty_text-to_slash [] = refl
is_empty_text-to_slash (c ∷ p) = refl

any_text : (p : Text) (ps : List Text) → any (same_text p) ps ≡ true → Occurs p ps
any_text p ps h =
    let (q, o, e) = any-Occurs (same_text p) ps h in
    subst (λ q. Occurs q ps) (sym ((same_text_iff p q).0 e)) o

Occurs-set_of :
    (p : Text) (seen ps : List Text) → Occurs p (set_of seen ps) → Occurs p seen ⊎ Occurs p ps
unfolding set_of
Occurs-set_of p seen [] h = inl h
Occurs-set_of p seen (q ∷ ps) h = elim (Bool-cases (any (same_text q) seen)) [
  | inl e ↦ elim (Occurs-set_of p seen ps (rw e at h)) [ inl o ↦ inl o | inr o ↦ inr (inr o) ]
  | inr e ↦ elim (Occurs-set_of p (seen ++ q ∷ []) ps (rw e at h)) [
    | inl o ↦ elim (Occurs-append p seen (q ∷ []) o) [
      | inl old ↦ inl old
      | inr (inl same) ↦ inr (inl same)
      | inr (inr none_left) ↦ absurd none_left
    ]
    | inr o ↦ inr (inr o)
  ]
]

set_of-Occurs :
    (p : Text) (seen ps : List Text) → Occurs p seen ⊎ Occurs p ps → Occurs p (set_of seen ps)
unfolding set_of
set_of-Occurs p seen [] (inl o) = o
set_of-Occurs p seen [] (inr o) = absurd o
set_of-Occurs p seen (q ∷ ps) h = elim (Bool-cases (any (same_text q) seen)) [
  | inl e ↦ rw e (
      set_of-Occurs p seen ps (elim h [
        | inl o ↦ inl o
        | inr (inl same) ↦ inl (subst (λ q. Occurs q seen) (sym same) (any_text q seen e))
        | inr (inr o) ↦ inr o
      ]))
  | inr e ↦ rw e (
      set_of-Occurs p (seen ++ q ∷ []) ps (elim h [
        | inl o ↦ inl (append-Occurs p seen (q ∷ []) (inl o))
        | inr (inl same) ↦ inl (append-Occurs p seen (q ∷ []) (inr (inl same)))
        | inr (inr o) ↦ inr o
      ]))
]

-- A path that goes into a service's image: its Dockerfile, its build context or a path below that; a
-- context that is the repository's root holds every path.
pub IsInput : ServiceBuildPaths → Text → Type 0
IsInput s p =
    (p ≡ s.dockerfile)
    ⊎ (s.context_dir ≡ [])
    ⊎ (p ≡ s.context_dir)
    ⊎ ((rest : Text) × (p ≡ s.context_dir ++ b'/' ∷ rest))

or_left : {a : Bool} (b : Bool) → a ≡ true → (a || b) ≡ true
or_left b h = rw h refl

or_right : (a : Bool) {b : Bool} → b ≡ true → (a || b) ≡ true
or_right true h = refl
or_right false h = h

is_within_iff :
    (p dir : Text)
    → (is_within p dir ≡ true)
      ↔ ((dir ≡ []) ⊎ (p ≡ dir) ⊎ ((rest : Text) × (p ≡ dir ++ b'/' ∷ rest)))
unfolding is_within
is_within_iff p [] = (λ h. inl refl, λ h. refl)
is_within_iff p (c ∷ dir) = (
  λ h. elim (Bool-cases (same_text p (c ∷ dir))) [
    | inl e ↦ inr (inl ((same_text_iff p (c ∷ dir)).0 e))
    | inr e ↦
        let below : starts_with ((c ∷ dir) ++ b'/' ∷ []) p ≡ true =
          sym (ap (λ b. b || starts_with ((c ∷ dir) ++ b'/' ∷ []) p) e) ∙ h in
        let (rest, split) = rest_of ((c ∷ dir) ++ b'/' ∷ []) p below in
        inr (inr (rest, split ∙ append_assoc (c ∷ dir) (b'/' ∷ []) rest))
  ],
  λ h. elim h [
    | inl e ↦ absurd (cc)
    | inr (inl e) ↦ let same = (same_text_iff p (c ∷ dir)).1 e in ground (arith, same)
    | inr (inr (rest, e)) ↦
        let below : starts_with ((c ∷ dir) ++ b'/' ∷ []) p ≡ true =
          rw (e, sym (append_assoc (c ∷ dir) (b'/' ∷ []) rest))
            (starts_with_self ((c ∷ dir) ++ b'/' ∷ []) rest) in
        or_right (same_text p (c ∷ dir)) below
  ],
)

is_input_iff : (s : ServiceBuildPaths) (p : Text) → (is_input s p ≡ true) ↔ IsInput s p
unfolding IsInput
is_input_iff s p =
    let within = is_within_iff p s.context_dir in
    (
      λ h. elim (Bool-cases (same_text p s.dockerfile)) [
        | inl e ↦ inl ((same_text_iff p s.dockerfile).0 e)
        | inr e ↦ inr (within.0 (sym (ap (λ b. b || is_within p s.context_dir) e) ∙ h))
      ],
      λ h. elim h [
        | inl e ↦ or_left (is_within p s.context_dir) ((same_text_iff p s.dockerfile).1 e)
        | inr w ↦ or_right (same_text p s.dockerfile) (within.1 w)
      ],
    )

-- A service of the name has a changed path among its inputs.
pub IsChanged : List ServiceBuildPaths → List Text → Text → Type 0
IsChanged services paths name =
    (s : ServiceBuildPaths) × Occurs s services
    × (s.name ≡ name)
    × ((p : Text) × Occurs p paths × IsInput s p)

module _ (lines : List Text) (full : (l : Text) → Occurs l lines → is_empty_text l ≡ false) where
  abbrev paths : List Text
  paths = map to_slash lines

  abbrev compared : List Text
  compared = filter (λ p. not (is_empty_text p)) (map to_slash (set_of [] paths))

  slashed : (p : Text) → Occurs p paths → (to_slash p ≡ p) × (is_empty_text p ≡ false)
  slashed p o =
      let (l, there, e) = Occurs-map to_slash lines p o in
      (rw (sym e) (to_slash_twice l), rw (sym e) (is_empty_text-to_slash l ∙ full l there))

  compared_iff : (p : Text) → Occurs p compared ↔ Occurs p paths
  compared_iff p = (
    λ h.
        let (_, o) =
          Occurs-filter (λ p. not (is_empty_text p)) (map to_slash (set_of [] paths)) h in
        let (q, there, e) = Occurs-map to_slash (set_of [] paths) p o in
        elim (Occurs-set_of q [] paths there) [
          | inl none_left ↦ absurd none_left
          | inr old ↦
              let same : q ≡ p = sym (slashed q old).0 ∙ e in subst (λ q. Occurs q paths) same old
        ],
    λ o.
        let (same, some_text) = slashed p o in
        filter-Occurs (λ p. not (is_empty_text p)) (map to_slash (set_of [] paths)) p
          (subst (λ q. Occurs q (map to_slash (set_of [] paths))) same
            (map-Occurs to_slash (set_of [] paths) p (set_of-Occurs p [] paths (inr o))))
          (ground arith),
  )

  selected_iff :
      (services : List ServiceBuildPaths) (name : Text)
      → Occurs name (select_changed_services services (set_of [] paths))
        ↔ IsChanged services paths name
  unfolding select_changed_services IsChanged
  selected_iff services name =
      let changed : ServiceBuildPaths → Bool = λ s. any (is_input s) compared in
      (
        λ h.
            let (s, o, e) = Occurs-map (λ s. s.name) (filter changed services) name h in
            let (c, there) = Occurs-filter changed services o in
            let (p, q, i) = any-Occurs (is_input s) compared c in
            (s, there, e, (p, (compared_iff p).0 q, (is_input_iff s p).0 i)),
        λ (s, o, e, (p, q, i)).
            subst (λ n. Occurs n (map (λ s. s.name) (filter changed services))) e
              (map-Occurs (λ (s : ServiceBuildPaths). s.name) (filter changed services) s
                (filter-Occurs changed services s o (
                  Occurs-any (is_input s) compared p ((compared_iff p).1 q)
                    ((is_input_iff s p).1 i)))),
      )

full_lines : (out l : Text) → Occurs l (split_lines out) → is_empty_text l ≡ false
unfolding split_lines
full_lines out l o =
    let (h, _) =
      Occurs-filter (λ l. not (is_empty_text l)) (map trim (split_at (λ c. c == 10) out)) {x = l}
        o in
    ground (arith, h)

ref_sha : (out : Option Text) {sha : Text} → resolved_ref out ≡ ok sha → is_sha sha ≡ true
unfolding resolved_ref
ref_sha none h = cc
ref_sha (some out) {sha} h = elim (Bool-cases (is_sha (trim out))) [
  | inl e ↦ let same : trim out ≡ sha = let k = rw e at h in cc in rw (sym same) e
  | inr e ↦ absurd (let k = rw e at h in cc)
]

sha_of :
    (git : List Text → Option Text) (ref : Text) {sha : Text}
    → resolve_ref git ref ≡ ok sha
    → is_sha sha ≡ true
unfolding resolve_ref
sha_of git ref h = elim (Bool-cases (starts_with (codes "-") ref)) [
  | inl e ↦ absurd (let k = rw e at h in cc)
  | inr e ↦ ref_sha (git (rev_parse ref)) (rw e at h)
]

lines_eq :
    (out : Option Text) {lines : List Text}
    → lines_of out ≡ ok lines
    → (text : Text) × (out ≡ some text) × (split_lines text ≡ lines)
unfolding lines_of
lines_eq none h = cc
lines_eq (some out) h = (out, refl, cc)

-- Where `deploy --changed` finds the changed paths, the commit that it compares with is 40 or 64
-- hexadecimal digits, whatever reference was given; and it selects exactly the
-- services with an input (the Dockerfile, or the build context and what lies below it) among the lines
-- that `git diff` prints for that commit and those of the untracked files.
pub collect_changed_paths-selects :
    (git : List Text → Option Text) (ref : Text) (paths : List Text)
    (services : List ServiceBuildPaths)
    → collect_changed_paths git ref ≡ ok paths
    → (sha changed untracked : Text) × (is_sha sha ≡ true)
      × (git (diff sha) ≡ some changed)
      × (git (ls_files) ≡ some untracked)
      × ((name : Text)
          → Occurs name (select_changed_services services paths)
            ↔ IsChanged services (map to_slash (split_lines changed ++ split_lines untracked)) name)
unfolding collect_changed_paths resolve_ref
collect_changed_paths-selects git ref paths services h =
    let (sha, found, h1) = >>=-eq-ok (resolve_ref git ref) _ h in
    let (ds, d, h2) = >>=-eq-ok (lines_of (git (diff sha))) _ h1 in
    let (us, u, h3) = >>=-eq-ok (lines_of (git (ls_files))) _ h2 in
    let (changed, dg, dl) = lines_eq (git (diff sha)) d in
    let (untracked, ug, ul) = lines_eq (git (ls_files)) u in
    let made : set_of [] (map to_slash (ds ++ us)) ≡ paths = cc in
    let full : (l : Text)
        → Occurs l (split_lines changed ++ split_lines untracked)
        → is_empty_text l ≡ false =
      λ l o. elim (Occurs-append l (split_lines changed) (split_lines untracked) o) [
        | inl i ↦ full_lines changed l i
        | inr i ↦ full_lines untracked l i
      ] in
    (
      sha,
      changed,
      untracked,
      sha_of git ref found,
      dg,
      ug,
      λ name.
          let made' : set_of [] (map to_slash (split_lines changed ++ split_lines untracked))
              ≡ paths =
            rw (dl, ul) made in
          subst
            (λ ps.
              Occurs name (select_changed_services services ps)
              ↔ IsChanged services (map to_slash (split_lines changed ++ split_lines untracked))
                  name)
            made' (selected_iff (split_lines changed ++ split_lines untracked) full services name),
    )
