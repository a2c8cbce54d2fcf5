-- ===== src/History/Removal.antt =====
-- What a removal that wrote leaves of the services that it found.
use launch_pad.Prelude.{
  length-filter, Bool, true, inl, inr, ◌<◌, arith, ◌==◌, Bool-cases, filter, length, if_true,
  if_false, if◌then◌else◌, String, Option, none, some, List, ◌≡◌, refl, sym, ◌∙◌,
}
use mathlib.Core.Path.{subst}
use launch_pad.Prelude.Occurs.{Occurs, contains_iff}
use launch_pad.Merge.{is_other}
use launch_pad.Merge.Partial.{find_service}
use launch_pad.Service.{ServiceConfig, DesiredState}
use launch_pad.Publish.{Stored}
use launch_pad.Undeploy.{should_remove, services_after_removal}
use launch_pad.Undeploy.Laws.{
  filter_other-services_after_removal, find_service-services_after_removal,
}
use launch_pad.History.{removal, nothing, write, if_there, decide_removal}
use launch_pad.History.Invariant.{removal-write}

-- A name that the removal is of: each one where no names are given.
abbrev pub IsNamed : Option (List String) → String → Type 0
IsNamed none n = Unit
IsNamed (some ns) n = Occurs n ns

should_remove_sound :
    (names : Option (List String)) (n : String) → should_remove names n ≡ true → IsNamed names n
unfolding should_remove
should_remove_sound none n h = tt
should_remove_sound (some ns) n h = (contains_iff n ns).0 h

should_remove_complete :
    (names : Option (List String)) (n : String) → IsNamed names n → should_remove names n ≡ true
unfolding should_remove
should_remove_complete none n h = refl
should_remove_complete (some ns) n h = (contains_iff n ns).1 h

module _ {Body : Type 0} (etag : Body → String) (parse : Body → Option DesiredState) where
  -- What stands behind a removal that wrote.
  pub record IsRemoval (owner : String) (names : Option (List String)) (replaced : Stored Body)
      (after : List ServiceConfig) : Type 0 where
    pub body : Body
    pub state : DesiredState
    pub there : replaced ≡ some body
    pub parsed : parse body ≡ some state
    pub others : filter (is_other owner) after ≡ filter (is_other owner) state.services
    pub gone : (n : String) → IsNamed names n → find_service owner n after ≡ none
    pub kept :
        (n : String)
        → ¬ IsNamed names n
        → find_service owner n after ≡ find_service owner n state.services
    pub fewer : length after < length state.services

  removal-shrinks :
      (existing after : List ServiceConfig) (p : ServiceConfig → Bool)
      → removal existing (filter p existing) ≡ write after
      → length after < length existing
  removal-shrinks existing after p h =
      elim (Bool-cases (length (filter p existing) == length existing)) [
        | inl e ↦ absurd (let k : nothing ≡ write after = sym (if_true _ _ e) ∙ h in cc)
        | inr e ↦
            let same = removal-write existing (filter p existing) after h in
            let le = length-filter p existing in
            subst (λ ss. length ss < length existing) same (ground (arith, le, e))
      ]

  IsRemoval-there :
      (owner : String) (names : Option (List String)) (body : Body) (replaced : Stored Body)
      (state : DesiredState) (after : List ServiceConfig)
      → replaced ≡ some body
      → parse body ≡ some state
      → removal state.services (services_after_removal state.services owner names) ≡ write after
      → IsRemoval owner names replaced after
  unfolding services_after_removal
  IsRemoval-there owner names body replaced state after there parsed h =
      let e = removal-write state.services _ after h in
      let at : (n : String)
          → find_service owner n after
            ≡ (if should_remove names n then none else find_service owner n state.services) =
        λ n. rw (← e) (find_service-services_after_removal owner names n state.services) in
      record {
        body = body;
        state = state;
        there = there;
        parsed = parsed;
        others = rw (← e) (filter_other-services_after_removal owner names state.services);
        gone = λ n named. at n ∙ if_true _ _ (should_remove_complete names n named);
        kept = λ n other. elim (Bool-cases (should_remove names n)) [
          | inl k ↦ absurd (other (should_remove_sound names n k))
          | inr k ↦ at n ∙ if_false _ _ k
        ];
        fewer = removal-shrinks state.services after _ h;
      }

  decide_removal-IsRemoval :
      (owner : String) (names : Option (List String)) (body : Body) (replaced : Stored Body)
      (state : Option DesiredState) (after : List ServiceConfig)
      → replaced ≡ some body
      → parse body ≡ state
      → decide_removal owner names state ≡ write after
      → IsRemoval owner names replaced after
  unfolding decide_removal
  decide_removal-IsRemoval owner names body replaced none after there parsed h = absurd (cc)
  decide_removal-IsRemoval owner names body replaced (some s) after there parsed h =
      IsRemoval-there owner names body replaced s after there parsed h

  pub IsRemoval-of :
      (owner : String) (names : Option (List String)) (read replaced : Stored Body)
      (after : List ServiceConfig)
      → if_there etag parse (λ body. decide_removal owner names (parse body)) read ≡ write after
      → read ≡ replaced
      → IsRemoval owner names replaced after
  IsRemoval-of owner names none replaced after h same = absurd (cc)
  IsRemoval-of owner names (some body) replaced after h same =
      decide_removal-IsRemoval owner names body replaced (parse body) after (sym same) refl h
