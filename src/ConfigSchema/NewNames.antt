-- ===== src/ConfigSchema/NewNames.antt =====
-- The names that the loops over a config's blocks let pass.
use launch_pad.Prelude.{
  contains-add, ℕ, suc, String, true, false, List, [], ◌∷◌, ◌++◌, ◌≡◌, refl, inl, inr, arith,
  eq_iff, Bool-cases, contains, add, Distinct, str_eq,
}
use launch_pad.ConfigSchema.Issues.{IssueKind, issue_if}
use launch_pad.ConfigSchema.Issues.Silence.{
  append-silent, silent-append, issue_if-silent, silent-issue_if,
}
use launch_pad.ConfigSchema.{repeated_names, seen_after}

-- Names that are new where they stand, after those of `seen`.
abbrev pub AreNew : List String → List String → Type 0
AreNew seen [] = Unit
AreNew seen (n ∷ ns) = (contains n seen ≡ false) × AreNew (add n seen) ns

pub repeated_names-AreNew :
    (block : String) (kind : String → IssueKind) (i : ℕ) (seen ns : List String)
    → repeated_names block kind i seen ns ≡ []
    → AreNew seen ns
unfolding repeated_names
repeated_names-AreNew block kind i seen [] h = tt
repeated_names-AreNew block kind i seen (n ∷ ns) h =
    let (here, later) = append-silent (issue_if (contains n seen) _ _) _ h in
    (
      issue_if-silent (contains n seen) _ _ here,
      repeated_names-AreNew block kind (suc i) (add n seen) ns later,
    )

pub AreNew-repeated_names :
    (block : String) (kind : String → IssueKind) (i : ℕ) (seen ns : List String)
    → AreNew seen ns
    → repeated_names block kind i seen ns ≡ []
unfolding repeated_names
AreNew-repeated_names block kind i seen [] h = refl
AreNew-repeated_names block kind i seen (n ∷ ns) (here, later) =
    silent-append (silent-issue_if _ _ here)
      (AreNew-repeated_names block kind (suc i) (add n seen) ns later)

pub AreNew-append :
    (seen a b : List String) → AreNew seen a → AreNew (seen_after seen a) b → AreNew seen (a ++ b)
unfolding seen_after
AreNew-append seen [] b _ k = k
AreNew-append seen (n ∷ a) b (new, h) k = (new, AreNew-append (add n seen) a b h k)

pub seen_after-append :
    (seen a b : List String) → seen_after seen (a ++ b) ≡ seen_after (seen_after seen a) b
unfolding seen_after
seen_after-append seen [] b = refl
seen_after-append seen (n ∷ a) b = seen_after-append (add n seen) a b

-- A name of `seen` is not among the new ones.
seen-AreNew :
    (m : String) (seen ns : List String)
    → contains m seen ≡ true
    → AreNew seen ns
    → contains m ns ≡ false
seen-AreNew m seen [] h _ = refl
seen-AreNew m seen (n ∷ ns) h (new, k) = elim (Bool-cases (str_eq n m)) [
  | inl e ↦ absurd (
      let same : n ≡ m = ground (arith, eq_iff n m) in
      let old : contains n seen ≡ true = rw same h in cc)
  | inr e ↦ rw e (seen-AreNew m (add n seen) ns (rw contains-add (ground (arith, h))) k)
]

pub AreNew-Distinct : (seen ns : List String) → AreNew seen ns → Distinct ns
AreNew-Distinct seen [] _ = tt
AreNew-Distinct seen (n ∷ ns) (new, h) = (
  seen-AreNew n (add n seen) ns (rw contains-add (ground (arith, eq_iff n n))) h,
  AreNew-Distinct (add n seen) ns h,
)
