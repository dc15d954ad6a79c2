-- ===== src/Fold/Sessions.antt =====
-- crates/camp-core/src/ledger/fold.rs: the session registry (`session_woke`, `session_pid`,
-- `session_ended`, `session_nudged`).
use gascamp.Common.{
  String, Bool, not, ◌&&◌, Option, none, some, List, [], ◌∷◌, ◌++◌, is_some, is_none, is_blank,
  is_text, contains, ◌==◌, update_where,
}
use gascamp.Error.{
  Result, ok, err, unknown_session, invalid_transition, session_registered, blank_text, unknown_via,
  session_already_ended, refuse_if, ◌>>=◌, ◌>>◌,
}
use gascamp.Event.{Event}
use gascamp.Schema.{
  Tables, Bead, open', is_in_progress, Session, SessionStatus, live, crashed, session_row,
}
use gascamp.Payload.{Serde, SessionWoke}
use gascamp.Fold.Guards.{bad, payload}
use gascamp.Fold.Rows.{update_beads, with_failure, without_failure}

unfoldable pub new_session : SessionWoke → String → Session
new_session p ts = record {
  name = p.name;
  agent = p.agent;
  rig = p.rig;
  claude_session_id = p.claude_session_id;
  transcript_path = p.transcript_path;
  pid = p.pid;
  status = live;
  bead = p.bead;
  spawned_ts = ts;
  ended_ts = none;
}

unfoldable pub insert_session : Session → Tables → Tables
insert_session s t = record t { sessions = t.sessions ++ s ∷ [] }

unfoldable pub update_sessions : (Session → Bool) → (Session → Session) → Tables → Tables
update_sessions p f t = record t { sessions = update_where p f t.sessions }

abbrev pub with_name : String → Session → Bool
with_name name s = s.name == name

-- a dispatch that succeeded clears the marker of its bead
unfoldable pub clear_failure : Option String → Tables → Tables
clear_failure none t = t
clear_failure (some bead) t = update_beads (with_failure bead) without_failure t

abbrev pub ended : SessionStatus → String → Session → Session
ended status ts s = record s { status = status; ended_ts = some ts }

-- `WHERE claimed_by = ?2 AND status = 'in_progress'`
abbrev pub is_held_by : String → Bead → Bool
is_held_by name b = is_text name b.claimed_by && is_in_progress b.status

abbrev pub released : String → Bead → Bead
released ts b = record b { status = open'; claimed_by = none; updated_ts = ts }

-- the bead is the work; the session is disposable
unfoldable pub release : SessionStatus → String → String → Tables → Tables
release crashed name ts t = update_beads (is_held_by name) (released ts) t
release _ name ts t = t

abbrev pub session_status : Option Session → Option SessionStatus
session_status none = none
session_status (some s) = some s.status

unfoldable pub end_at :
    SessionStatus → String → String → Tables → Option SessionStatus → Result Tables
end_at status ts name t none = err (unknown_session name)
end_at status ts name t (some live) =
    ok (release status name ts (update_sessions (with_name name) (ended status ts) t))
end_at status ts name t (some _) = err (invalid_transition name session_already_ended)

abbrev pub nudge_vias : List String
nudge_vias = "stdin" ∷ "resume" ∷ []

module _ (S : Serde) where
  open S use {Value}

  unfoldable pub session_woke : Event Value → Tables → Result Tables
  session_woke e t = do
    p ← payload e (S.as_session_woke e.payload)
    refuse_if (is_some (session_row t p.name)) (bad e (session_registered p.name))
    ok (clear_failure p.bead (insert_session (new_session p e.ts) t))

  -- `UPDATE sessions ...`, and no row changed is an error
  unfoldable pub session_pid : Event Value → Tables → Result Tables
  session_pid e t = do
    p ← payload e (S.as_session_pid e.payload)
    refuse_if (is_none (session_row t p.name)) (unknown_session p.name)
    ok (update_sessions (with_name p.name) (λ s. record s { pid = some p.pid }) t)

  unfoldable pub session_ended : SessionStatus → Event Value → Tables → Result Tables
  session_ended status e t = do
    p ← payload e (S.as_session_end e.payload)
    end_at status e.ts p.name t (session_status (session_row t p.name))

  unfoldable pub session_nudged : Tables → Event Value → Result (Unit {0})
  session_nudged t e = do
    p ← payload e (S.as_session_nudged e.payload)
    refuse_if (is_blank p.text) (bad e blank_text)
    refuse_if (not (contains nudge_vias p.via)) (bad e (unknown_via p.via))
    refuse_if (is_none (session_row t p.session)) (unknown_session p.session)
