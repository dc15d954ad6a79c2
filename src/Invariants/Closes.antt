-- ===== src/Invariants/Closes.antt =====
-- crates/camp-core/src/ledger/fold.rs (`bead_closed`): what a close that passes its checks says.
use gascamp.Common.{
  ◌≡◌, refl, String, Bool, true, not, ◌&&◌, ◌||◌, Option, none, some, List, is_some, is_text,
  contains, arith, ◌==◌, differs,
}
use gascamp.Error.{ok, >>=-eq-ok, refuse_if-eq-ok}
use gascamp.Vocab.{camp_outcomes, camp_work_outcomes, camp_final_dispositions, camp_failure_classes}
use gascamp.Event.{Event}
use gascamp.Payload.{BeadClosed}
use gascamp.Fold.Closing.{check_class, check_work, check_close}

-- NULL, or one of the words
abbrev pub one_of : List String → Option String → Bool
one_of words none = true
one_of words (some s) = contains words s

-- What the work axis of a close says, against the outcome.
pub record IsCoherentWork (outcome work_outcome work_commit work_branch : Option String)
    : Type 0 where
  pub known : one_of camp_work_outcomes work_outcome ≡ true
  pub shipped_passes : is_text "shipped" work_outcome ≡ true → is_text "pass" outcome ≡ true
  pub no_op_passes : is_text "no-op" work_outcome ≡ true → is_text "pass" outcome ≡ true
  pub blocked_fails : is_text "blocked" work_outcome ≡ true → is_text "fail" outcome ≡ true
  pub abandoned_fails : is_text "abandoned" work_outcome ≡ true → is_text "fail" outcome ≡ true
  pub shipped_has_artifact :
      is_text "shipped" work_outcome ≡ true → (is_some work_commit && is_some work_branch) ≡ true
  pub only_shipped_has_artifact :
      (is_some work_commit || is_some work_branch) ≡ true → is_text "shipped" work_outcome ≡ true

-- What the verdict of a close must say.
pub record IsCoherentClose
    (outcome work_outcome work_commit work_branch final_disposition : Option String) : Type 0 where
  pub outcome_known : one_of camp_outcomes outcome ≡ true
  pub disposition_known : one_of camp_final_dispositions final_disposition ≡ true
  pub disposition_fails : is_some final_disposition ≡ true → is_text "fail" outcome ≡ true
  pub work : IsCoherentWork outcome work_outcome work_commit work_branch

module _ {V : Type 0} (e : Event V) where
  check_class_lem :
      (field outcome : String) (words : List String) (c : Option String)
      → check_class e field outcome words c ≡ ok tt
      → (one_of words c ≡ true) × (is_some c ≡ true → (outcome == "fail") ≡ true)
  unfolding check_class
  check_class_lem field outcome words none h = (refl, λ x. absurd (cc))
  check_class_lem field outcome words (some c) h = (ground arith, λ x. ground arith)

  check_work-IsCoherent :
      (p : BeadClosed V) (wo : Option String)
      → check_work e p wo ≡ ok tt
      → IsCoherentWork (some p.outcome) wo p.work_commit p.work_branch
  unfolding check_work
  check_work-IsCoherent p none h = record {
    known = refl;
    shipped_passes = λ x. absurd (cc);
    no_op_passes = λ x. absurd (cc);
    blocked_fails = λ x. absurd (cc);
    abandoned_fails = λ x. absurd (cc);
    shipped_has_artifact = λ x. absurd (cc);
    only_shipped_has_artifact = λ x. ground arith;
  }
  check_work-IsCoherent p (some wo) h = record {
    known = ground arith;
    shipped_passes = λ x. ground arith;
    no_op_passes = λ x. ground arith;
    blocked_fails = λ x.
        ground (arith, differs wo "blocked" "shipped" refl x, differs wo "blocked" "no-op" refl x);
    abandoned_fails = λ x.
        ground
          (arith, differs wo "abandoned" "shipped" refl x, differs wo "abandoned" "no-op" refl x);
    shipped_has_artifact = λ x. ground arith;
    only_shipped_has_artifact = λ x. ground arith;
  }

  pub check_close-IsCoherent :
      (p : BeadClosed V)
      → check_close e p ≡ ok tt
      → IsCoherentClose
          (some p.outcome)
          p.work_outcome
          p.work_commit
          p.work_branch
          p.final_disposition
  unfolding check_close
  check_close-IsCoherent p h =
      let (known, h₁) = refuse_if-eq-ok (not (contains camp_outcomes p.outcome)) _ _ h in
      let (x, classed, h₂) =
        >>=-eq-ok (check_class e "failure_class" p.outcome camp_failure_classes p.failure_class) _
          h₁ in
      let (y, disposed, h₃) =
        >>=-eq-ok
          (check_class e "final_disposition" p.outcome camp_final_dispositions p.final_disposition)
          _ h₂ in
      let disposition =
        check_class_lem "final_disposition" p.outcome camp_final_dispositions p.final_disposition
          disposed in
      record {
        outcome_known = ground arith;
        disposition_known = disposition.0;
        disposition_fails = disposition.1;
        work = check_work-IsCoherent p p.work_outcome h₃;
      }
