-- ===== src/Vocab.antt =====
-- crates/camp-core/src/vocab.rs: the closed vocabularies that the fold validates against, and the
-- causes of a failed control request.
pub mod Causes
use gascamp.Common.{
  ◌≡◌, refl, String, ℕ, Bool, true, false, Option, none, some, List, [], ◌∷◌, find, find-key,
}

abbrev pub camp_outcomes : List String
camp_outcomes = "pass" ∷ "fail" ∷ "skipped" ∷ []

abbrev pub camp_work_outcomes : List String
camp_work_outcomes = "shipped" ∷ "no-op" ∷ "blocked" ∷ "abandoned" ∷ []

abbrev pub camp_final_dispositions : List String
camp_final_dispositions = "hard_fail" ∷ "soft_fail" ∷ []

abbrev pub camp_run_dispositions : List String
camp_run_dispositions = "pass" ∷ "hard_fail" ∷ "soft_fail" ∷ []

abbrev pub camp_failure_classes : List String
camp_failure_classes = "transient" ∷ []

pub data ControlFailureCause : Type 0 where
  silence_timeout ceiling_timeout session_ended write_failed : ControlFailureCause
  unknown_request unparsable dialog_refused permission_unanswerable : ControlFailureCause

unfoldable pub ordinal : ControlFailureCause → ℕ
ordinal silence_timeout = 0
ordinal ceiling_timeout = 1
ordinal session_ended = 2
ordinal write_failed = 3
ordinal unknown_request = 4
ordinal unparsable = 5
ordinal dialog_refused = 6
ordinal permission_unanswerable = 7

abbrev pub all_causes : List ControlFailureCause
all_causes =
    silence_timeout ∷ ceiling_timeout ∷ session_ended ∷ write_failed ∷ unknown_request ∷ unparsable
    ∷ dialog_refused ∷ permission_unanswerable ∷ []

unfoldable pub cause_as_str : ControlFailureCause → String
cause_as_str silence_timeout = "silence_timeout"
cause_as_str ceiling_timeout = "ceiling_timeout"
cause_as_str session_ended = "session_ended"
cause_as_str write_failed = "write_failed"
cause_as_str unknown_request = "unknown_request"
cause_as_str unparsable = "unparsable"
cause_as_str dialog_refused = "dialog_refused"
cause_as_str permission_unanswerable = "permission_unanswerable"

unfoldable pub parse_cause : String → Option ControlFailureCause
unfolding cause_as_str find
parse_cause s = find cause_as_str s all_causes

unfoldable pub is_terminal : ControlFailureCause → Bool
is_terminal silence_timeout = false
is_terminal ceiling_timeout = false
is_terminal session_ended = true
is_terminal write_failed = true
is_terminal unknown_request = true
is_terminal unparsable = true
is_terminal dialog_refused = true
is_terminal permission_unanswerable = true
