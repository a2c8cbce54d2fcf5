-- ===== src/ConfigSchema/Issues/Silence.antt =====
-- When a schema reports nothing.
use launch_pad.Prelude.{
  leb, leb→le, ℕ, suc, ◌≤◌, Bool, true, false, Option, none, some, List, [], ◌∷◌, ◌++◌, ◌≡◌, refl,
  sym, All,
}
use launch_pad.ConfigSchema.Issues.{
  Key, index, IssueKind, Issue, joined, issue_if, issue_unless, under, each_from, each, if_given,
  at_least, in_range,
}

module _ {A : Type 0} where
  pub append-silent : (xs ys : List A) → xs ++ ys ≡ [] → (xs ≡ []) × (ys ≡ [])
  append-silent [] ys h = (refl, h)
  append-silent (x ∷ xs) ys h = cc

  pub silent-append : {xs ys : List A} → xs ≡ [] → ys ≡ [] → xs ++ ys ≡ []
  silent-append h k = rw (h, k) refl

pub under-silent : (key : Key) (issues : List Issue) → under key issues ≡ [] → issues ≡ []
under-silent key [] h = refl
under-silent key (i ∷ is) h = cc

pub silent-under : (key : Key) {issues : List Issue} → issues ≡ [] → under key issues ≡ []
silent-under key h = rw h refl

pub joined-silent : (parts : List (List Issue)) → joined parts ≡ [] → All (λ p. p ≡ []) parts
unfolding joined
joined-silent [] h = tt
joined-silent (p ∷ ps) h =
    let (here, later) = append-silent p (joined ps) h in (here, joined-silent ps later)

pub silent-joined : (parts : List (List Issue)) → All (λ p. p ≡ []) parts → joined parts ≡ []
unfolding joined
silent-joined [] _ = refl
silent-joined (p ∷ ps) (here, later) = silent-append here (silent-joined ps later)

pub issue_if-silent :
    (b : Bool) (path : List Key) (kind : IssueKind) → issue_if b path kind ≡ [] → b ≡ false
unfolding issue_if
issue_if-silent true path kind h = cc
issue_if-silent false path kind h = refl

pub silent-issue_if :
    {b : Bool} (path : List Key) (kind : IssueKind) → b ≡ false → issue_if b path kind ≡ []
unfolding issue_if
silent-issue_if path kind h = rw h refl

pub issue_unless-silent :
    (b : Bool) (path : List Key) (kind : IssueKind) → issue_unless b path kind ≡ [] → b ≡ true
unfolding issue_unless
issue_unless-silent true path kind h = refl
issue_unless-silent false path kind h = cc

pub in_range-silent : (low high n : ℕ) → in_range low high n ≡ [] → low ≤ n
unfolding in_range at_least
in_range-silent low high n h =
    leb→le low n (issue_unless-silent (leb low n) _ _ (append-silent _ _ h).0)

module _ {A : Type 0} (issues : A → List Issue) where
  each_from-silent :
      (i : ℕ) (xs : List A) → each_from issues i xs ≡ [] → All (λ x. issues x ≡ []) xs
  unfolding each_from
  each_from-silent i [] h = tt
  each_from-silent i (x ∷ xs) h =
      let (here, later) =
        append-silent (under (index i) (issues x)) (each_from issues (suc i) xs) h in
      (under-silent (index i) (issues x) here, each_from-silent (suc i) xs later)

  pub each-silent : (xs : List A) → each issues xs ≡ [] → All (λ x. issues x ≡ []) xs
  unfolding each
  each-silent xs h = each_from-silent 0 xs h

  silent-each_from :
      (i : ℕ) (xs : List A) → All (λ x. issues x ≡ []) xs → each_from issues i xs ≡ []
  unfolding each_from
  silent-each_from i [] h = refl
  silent-each_from i (x ∷ xs) (here, later) =
      silent-append (silent-under (index i) here) (silent-each_from (suc i) xs later)

  pub silent-each : (xs : List A) → All (λ x. issues x ≡ []) xs → each issues xs ≡ []
  unfolding each
  silent-each xs h = silent-each_from 0 xs h

  pub if_given-silent : (o : Option A) {x : A} → if_given issues o ≡ [] → o ≡ some x → issues x ≡ []
  unfolding if_given
  if_given-silent none h e = cc
  if_given-silent (some y) {x} h e = let same : y ≡ x = cc in rw (sym same) h

  pub silent-if_given :
      (o : Option A) → ((x : A) → o ≡ some x → issues x ≡ []) → if_given issues o ≡ []
  unfolding if_given
  silent-if_given none h = refl
  silent-if_given (some x) h = h x refl
