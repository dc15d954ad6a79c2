-- ===== src/Vocab/Causes.antt =====
-- The causes of a failed control request, as they are written in the log.
use gascamp.Common.{◌≡◌, refl, String, some, find, find-key}
use gascamp.Vocab.{
  ControlFailureCause, silence_timeout, ceiling_timeout, session_ended, write_failed,
  unknown_request, unparsable, dialog_refused, permission_unanswerable, all_causes, cause_as_str,
  parse_cause,
}

-- Reading a cause back from its word gives the cause.
pub parse_cause-cause_as_str : (c : ControlFailureCause) → parse_cause (cause_as_str c) ≡ some c
unfolding parse_cause cause_as_str find
parse_cause-cause_as_str silence_timeout = refl
parse_cause-cause_as_str ceiling_timeout = refl
parse_cause-cause_as_str session_ended = refl
parse_cause-cause_as_str write_failed = refl
parse_cause-cause_as_str unknown_request = refl
parse_cause-cause_as_str unparsable = refl
parse_cause-cause_as_str dialog_refused = refl
parse_cause-cause_as_str permission_unanswerable = refl

-- Only the word of a cause is read as it: two words never name one cause.
cause_as_str-parse_cause :
    (s : String) (c : ControlFailureCause) → parse_cause s ≡ some c → cause_as_str c ≡ s
unfolding parse_cause
cause_as_str-parse_cause s c h = find-key cause_as_str s all_causes c h
