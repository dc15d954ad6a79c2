-- ===== src/Examples/Sessions.antt =====
-- Runs of the reads of sessions and of permission requests.
use gascamp.Common
use gascamp.Common.{
  ◌≡◌, refl, List, ℕ, ◌&&◌, ◌||◌, String, false, Option, none, some, [], ◌∷◌, All, any, contains,
  is_some,
}
use gascamp.Event.{EventType, EventInput}
use gascamp.Ledger.{Db, new_db, append_batch}
use gascamp.Ledger.Reached.{Reached}
use gascamp.Schema.{Tables, no_rows, Session, live, pos}
use gascamp.Ids
use gascamp.Ledger.Names
use gascamp.Ledger.Names.{session_prefix, session_number, highest_number, next_session_name}
use gascamp.Ledger.Names.Fresh.{IsApart, next_session_name-fresh}
use gascamp.Ledger.Blocked.{
  blocked_sessions, permission_exists, permission_decider, pending_permission_for_session,
}
use gascamp.Ledger.Blocked.Reads.{lives, blocked_sessions_lem}
use gascamp.Fold.Permissions.{is_pending_request}
use gascamp.Invariants.Requests.{requests_agree}
use gascamp.Examples.Camp.{Json, a_request, an_answer, json, input, waking}

abbrev session_named : String → Session
session_named name = record {
  name = name;
  agent = "dev";
  rig = none;
  claude_session_id = none;
  transcript_path = none;
  pid = none;
  status = live;
  bead = none;
  spawned_ts = "t";
  ended_ts = none;
}

abbrev two_sessions : Tables
two_sessions = record no_rows {
  sessions = session_named "camp/dev/7" ∷ session_named "camp/dev/x" ∷ [];
}

highest : highest_number "dev" (session_prefix "camp" "dev") 0 two_sessions.sessions ≡ 7
unfolding highest_number session_number Common.strip_prefix Names.parse_signed
    Ids.Unsigned.parse_unsigned Ids.Unsigned.digits_of Ids.all_digits Ids.digits_value
highest = refl

next_session_name-fresh_example :
    (n : ℕ) × (session_number
        (session_prefix "camp" "dev")
        (next_session_name two_sessions "camp" "dev")
      ≡ some (pos n))
    × All
        (IsApart "dev"
          (session_prefix "camp" "dev")
          n
          (next_session_name two_sessions "camp" "dev"))
        two_sessions.sessions
next_session_name-fresh_example =
    next_session_name-fresh two_sessions "camp" "dev" (omega (Common.arith, highest))

blocked_sessions_lem_example : contains (blocked_sessions two_sessions) "camp/dev/7" ≡ (
    is_some (pending_permission_for_session two_sessions "camp/dev/7")
    && lives two_sessions "camp/dev/7")
blocked_sessions_lem_example = blocked_sessions_lem two_sessions "camp/dev/7"

-- a session wakes and makes two requests, the first of which is answered
abbrev a_request_named : String → EventInput Json
a_request_named id =
    input EventType.permission_pending "gc-1"
      (a_request (record { session = "camp/dev/1"; request_id = id; tool_name = "Bash" }))

abbrev asking : List (EventInput Json)
asking =
    input EventType.session_woke "gc-1" waking
    ∷ a_request_named "r1"
    ∷ a_request_named "r2"
    ∷ input EventType.permission_decided "gc-1" (
        an_answer (record {
          session = "camp/dev/1";
          request_id = "r1";
          decision = "allow";
          decided_by = "ops";
          reason = none;
        }))
    ∷ []

abbrev asked : Db Json
asked = (append_batch json "t" asking (new_db Json)).1

requests_agree_example :
    (permission_exists asked.tables "r1" ≡ (
      is_some (permission_decider asked.tables "r1")
      || any (is_pending_request "r1") asked.tables.permissions))
    × ((is_some (permission_decider asked.tables "r1")
          && any (is_pending_request "r1") asked.tables.permissions)
        ≡ false)
    × ((session : String)
        → pending_permission_for_session asked.tables session ≡ some "r1"
        → permission_decider asked.tables "r1" ≡ none)
requests_agree_example = requests_agree json (Reached.batch "t" asking Reached.start) "r1"
