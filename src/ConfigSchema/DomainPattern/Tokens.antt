-- ===== src/ConfigSchema/DomainPattern/Tokens.antt =====
-- The tokens of a domain pattern: where `{env}` stands, the environment can be read off the result.
use launch_pad.Prelude.{
  ◌==◌, take, length-append, ℕ, zero, suc, ◌+◌, ◌≤◌, ◌<◌, true, false, not, ◌||◌, none, some, [],
  ◌∷◌, ◌++◌, ◌≡◌, refl, sym, ap, ◌∙◌, ◌⊎◌, inl, inr, arith, Bool-cases, if◌then◌else◌, all, any,
  length,
}
use mathlib.Core.List.{append_cancel_left, append_assoc, append-nil}
use mathlib.Core.Path.{subst}
use launch_pad.Prelude.Text.{same_text_iff, Text, codes, same_text, starts_with, includes}
use launch_pad.ConfigSchema.DomainPattern.{tokens_from, env_token, service_token, replace_tokens}

-- A token `env` of the pattern stands there as `{env}`; behind the part `seen` of a token, the rest
-- of it may come first.
mutual
  unfolding tokens_from includes starts_with

  pub env_outside :
      (s : Text)
      → any (same_text (codes "env")) (tokens_from none s) ≡ true
      → includes env_token s ≡ true
  env_outside [] h = cc
  env_outside (c ∷ s) h = elim (Bool-cases (c == b'{')) [
    | inl e ↦
        elim (env_inside [] s (
          sym (
            ap
              (λ b.
                any (same_text (codes "env"))
                  (if b then tokens_from (some []) s else tokens_from none s))
              e)
          ∙ h)) [
            | inl (u, same, here) ↦
                let starts : starts_with (codes "env}") s ≡ true =
                  subst (λ u. starts_with (u ++ b'}' ∷ []) s ≡ true) same here in
                ground (arith, starts)
            | inr later ↦ ground (arith, later)
          ]
    | inr e ↦
        let later = env_outside s (
          sym (
            ap
              (λ b.
                any (same_text (codes "env"))
                  (if b then tokens_from (some []) s else tokens_from none s))
              e)
          ∙ h) in
        ground (arith, later)
  ]

  env_inside :
      (seen s : Text)
      → any (same_text (codes "env")) (tokens_from (some seen) s) ≡ true
      → ((u : Text) × (seen ++ u ≡ codes "env") × (starts_with (u ++ b'}' ∷ []) s ≡ true))
        ⊎ (includes env_token s ≡ true)
  env_inside seen [] h = cc
  env_inside seen (c ∷ s) h = elim (Bool-cases (c == b'}')) [
    | inl e ↦ elim (Bool-cases (same_text (codes "env") seen)) [
      | inl f ↦
          inl ([], append-nil seen ∙ sym ((same_text_iff (codes "env") seen).0 f), ground arith)
      | inr f ↦
          let listed =
            sym (
              ap
                (λ b.
                  any (same_text (codes "env")) (
                    if b then seen ∷ tokens_from none s else tokens_from (some (seen ++ c ∷ [])) s))
                e)
            ∙ h in
          let later =
            env_outside s (
              sym (ap (λ b. b || any (same_text (codes "env")) (tokens_from none s)) f) ∙ listed) in
          inr (ground (arith, later))
    ]
    | inr e ↦
        elim (env_inside (seen ++ c ∷ []) s (
          sym (
            ap
              (λ b.
                any (same_text (codes "env"))
                  (if b then seen ∷ tokens_from none s else tokens_from (some (seen ++ c ∷ [])) s))
              e)
          ∙ h)) [
            | inl (u, same, here) ↦
                inl (c ∷ u, sym (append_assoc seen (c ∷ []) u) ∙ same, ground (arith, here))
            | inr later ↦ inr (ground (arith, later))
          ]
  ]

take-starts_with : (p t : Text) → starts_with p t ≡ true → take (length p) t ≡ p
unfolding starts_with
take-starts_with [] t h = refl
take-starts_with (c ∷ p) [] h = cc
take-starts_with (c ∷ p) (d ∷ t) h = ground (arith, take-starts_with p t)

-- The total length of what replaces the `{env}` tokens.
unfoldable env_length : ℕ → ℕ → Text → ℕ
env_length n skip [] = 0
env_length n (suc skip) (c ∷ s) = env_length n skip s
env_length n zero (c ∷ s) =
    if starts_with env_token (c ∷ s)
    then n + env_length n 4 s
    else if starts_with service_token (c ∷ s)
    then env_length n 8 s
    else env_length n 0 s

length-replace_tokens :
    (env service : Text) (skip : ℕ) (p : Text)
    → length (replace_tokens env service skip p)
      ≡ length (replace_tokens [] service skip p) + env_length (length env) skip p
unfolding replace_tokens env_length
length-replace_tokens env service skip [] = refl
length-replace_tokens env service (suc skip) (c ∷ s) = length-replace_tokens env service skip s
length-replace_tokens env service zero (c ∷ s) = elim (Bool-cases (starts_with env_token (c ∷ s))) [
  | inl e ↦ rw e (
      omega (
        arith,
        length-append env (replace_tokens env service 4 s),
        length-append [] (replace_tokens [] service 4 s),
        length-replace_tokens env service 4 s,
      ))
  | inr e ↦ rw e (elim (Bool-cases (starts_with service_token (c ∷ s))) [
    | inl f ↦ rw f (
        omega (
          arith,
          length-append service (replace_tokens env service 8 s),
          length-append service (replace_tokens [] service 8 s),
          length-replace_tokens env service 8 s,
        ))
    | inr f ↦ rw f (omega (arith, length-replace_tokens env service 0 s))
  ])
]

env_length_mono :
    (m n : ℕ) (skip : ℕ) (p : Text) → m ≤ n → env_length m skip p ≤ env_length n skip p
unfolding env_length
env_length_mono m n skip [] h = omega arith
env_length_mono m n (suc skip) (c ∷ s) h = env_length_mono m n skip s h
env_length_mono m n zero (c ∷ s) h = elim (Bool-cases (starts_with env_token (c ∷ s))) [
  | inl e ↦ rw e (omega (arith, env_length_mono m n 4 s h))
  | inr e ↦ rw e (elim (Bool-cases (starts_with service_token (c ∷ s))) [
    | inl f ↦ rw f (env_length_mono m n 8 s h)
    | inr f ↦ rw f (env_length_mono m n 0 s h)
  ])
]

-- The characters that are skipped open no token.
abbrev IsClear : ℕ → Text → Type 0
IsClear skip p = all (λ c. not (c == b'{')) (take skip p) ≡ true

IsClear-service : (c : ℕ) (s : Text) → starts_with service_token (c ∷ s) ≡ true → IsClear 8 s
unfolding starts_with
IsClear-service c s f =
    let here : starts_with (codes "service}") s ≡ true = ground (arith, f) in
    let rest : take 8 s ≡ codes "service}" = take-starts_with (codes "service}") s here in
    rw rest refl

includes_behind :
    (c : ℕ) (s : Text)
    → (c == b'{') ≡ false
    → includes env_token (c ∷ s) ≡ true
    → includes env_token s ≡ true
unfolding includes starts_with
includes_behind c s other there = ground arith

env_length_strict :
    (m n : ℕ) (skip : ℕ) (p : Text)
    → m < n
    → includes env_token p ≡ true
    → IsClear skip p
    → env_length m skip p < env_length n skip p
unfolding env_length includes
env_length_strict m n skip [] h there clear = cc
env_length_strict m n (suc skip) (c ∷ s) h there clear =
    let other : (c == b'{') ≡ false = ground arith in
    env_length_strict m n skip s h (includes_behind c s other there) (ground arith)
env_length_strict m n zero (c ∷ s) h there clear =
    elim (Bool-cases (starts_with env_token (c ∷ s))) [
      | inl e ↦ rw e (omega (arith, h, env_length_mono m n 4 s (omega (arith, h))))
      | inr e ↦
          let later : includes env_token s ≡ true =
            sym (ap (λ b. b || includes env_token s) e) ∙ there in
          rw e (elim (Bool-cases (starts_with service_token (c ∷ s))) [
            | inl f ↦ rw f (env_length_strict m n 8 s h later (IsClear-service c s f))
            | inr f ↦ rw f (env_length_strict m n 0 s h later refl)
          ])
    ]

same_length : (e f s t : Text) → length e ≡ length f → e ++ s ≡ f ++ t → e ≡ f
same_length [] [] s t l h = refl
same_length [] (d ∷ f) s t l h = absurd (omega (arith, l))
same_length (c ∷ e) [] s t l h = absurd (omega (arith, l))
same_length (c ∷ e) (d ∷ f) s t l h =
    let same : e ≡ f = same_length e f s t (omega (arith, l)) (cc) in cc

module _ (e f service : Text) (l : length e ≡ length f) where
  replaced_same :
      (skip : ℕ) (p : Text)
      → includes env_token p ≡ true
      → IsClear skip p
      → replace_tokens e service skip p ≡ replace_tokens f service skip p
      → e ≡ f
  unfolding replace_tokens includes
  replaced_same skip [] there clear h = cc
  replaced_same (suc skip) (c ∷ s) there clear h =
      let other : (c == b'{') ≡ false = ground arith in
      replaced_same skip s (includes_behind c s other there) (ground arith) h
  replaced_same zero (c ∷ s) there clear h = elim (Bool-cases (starts_with env_token (c ∷ s))) [
    | inl i ↦ same_length e f _ _ l (rw i at h)
    | inr i ↦
        let later : includes env_token s ≡ true =
          sym (ap (λ b. b || includes env_token s) i) ∙ there in
        elim (Bool-cases (starts_with service_token (c ∷ s))) [
          | inl j ↦
              replaced_same 8 s later (IsClear-service c s j)
                (append_cancel_left service _ _ (rw (i, j) at h))
          | inr j ↦ replaced_same 0 s later refl (let k = rw (i, j) at h in cc)
        ]
  ]

pub replace_tokens-injective :
    (e f service p : Text)
    → includes env_token p ≡ true
    → replace_tokens e service 0 p ≡ replace_tokens f service 0 p
    → e ≡ f
replace_tokens-injective e f service p there h =
    let lengths : env_length (length e) 0 p ≡ env_length (length f) 0 p = omega (
      arith,
      length-replace_tokens e service 0 p,
      length-replace_tokens f service 0 p,
      ap (λ t. length t) h,
    ) in
    let below =
      λ (l : length e < length f). env_length_strict (length e) (length f) 0 p l there refl in
    let above =
      λ (l : length f < length e). env_length_strict (length f) (length e) 0 p l there refl in
    replaced_same e f service (grind (arith, below, above, lengths)) 0 p there refl h
