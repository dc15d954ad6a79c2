-- ===== src/Invariants/Crash.antt =====
-- What the end of a session leaves behind: the bead is the work, and the session is disposable.
use gascamp.Common.{
  ◌≡◌, refl, ◌∙◌, String, Option, none, some, arith, find-update_where, find-key, Option-cases, inl,
  inr, is_text, ◌&&◌, if◌then◌else◌, eq_iff,
}
use gascamp.Error.{ok, >>=-eq-ok}
use gascamp.Event.{Event, EventType}
use gascamp.Schema.{
  Tables, Bead, Session, SessionStatus, live, stopped, crashed, open', is_in_progress, bead_row,
  session_row, session_key,
}
use gascamp.Payload.{Serde, SessionEnd, parsed}
use gascamp.Fold.{apply, handle}
use gascamp.Fold.Guards.{payload}
use gascamp.Fold.Rows.{update_beads}
use gascamp.Fold.Sessions.{
  session_ended, end_at, release, is_held_by, released, ended, update_sessions, with_name,
  session_status,
}
use gascamp.Invariants.Rows.{row-update_beads}

-- the row of a bead after a crash of the session: the bead that it worked on is open again
abbrev pub freed : String → String → Option Bead → Option Bead
freed name ts none = none
freed name ts (some b) =
    if is_text name b.claimed_by && is_in_progress b.status
    then some (record b { status = open'; claimed_by = none; updated_ts = ts })
    else some b

-- the rows of beads after an end with this status
abbrev pub bead_after : SessionStatus → String → String → Option Bead → Option Bead
bead_after crashed name ts row = freed name ts row
bead_after _ name ts row = row

-- A session that was live has ended with this status, and the beads are as this leaves them.
pub record HasEnded (status : SessionStatus) (name ts : String) (t u : Tables) : Type 0 where
  pub session : Session
  pub row : session_row t name ≡ some session
  pub was_live : session.status ≡ live
  pub row' : session_row u name ≡ some (record session { status = status; ended_ts = some ts })
  pub beads : (id : String) → bead_row u id ≡ bead_after status name ts (bead_row t id)

ended_row :
    (status : SessionStatus) (ts name : String) (t : Tables) (s : Session)
    → session_row t name ≡ some s
    → session_row (update_sessions (with_name name) (ended status ts) t) name
      ≡ some (ended status ts s)
unfolding update_sessions
ended_row status ts name t s row =
    find-update_where session_key (with_name name) (ended status ts) (λ s. refl) name t.sessions
    ∙ (let key : s.name ≡ name = find-key session_key name t.sessions s row in
        ground (arith, row, key, eq_iff s.name name))

released_at :
    (status : SessionStatus) (ts name : String) (t : Tables) (s : Session)
    → session_row t name ≡ some s
    → s.status ≡ live
    → HasEnded status name ts t
        (release status name ts (update_sessions (with_name name) (ended status ts) t))
unfolding release update_sessions update_beads
released_at live ts name t s row was = record {
  session = s;
  row = row;
  was_live = was;
  row' = ended_row live ts name t s row;
  beads = λ id. refl;
}
released_at stopped ts name t s row was = record {
  session = s;
  row = row;
  was_live = was;
  row' = ended_row stopped ts name t s row;
  beads = λ id. refl;
}
released_at crashed ts name t s row was = record {
  session = s;
  row = row;
  was_live = was;
  row' = ended_row crashed ts name t s row;
  beads = λ id.
      row-update_beads (is_held_by name) (released ts) (λ b. refl)
        (update_sessions (with_name name) (ended crashed ts) t) id
      ∙ elim (Option-cases (bead_row t id)) [
        | inl gone ↦ rw gone refl
        | inr (b, there) ↦ rw there (ground arith)
      ];
}

end_at-HasEnded :
    (status : SessionStatus) (ts name : String) (t u : Tables)
    → end_at status ts name t (session_status (session_row t name)) ≡ ok u
    → HasEnded status name ts t u
unfolding end_at
end_at-HasEnded status ts name t u h = elim (Option-cases (session_row t name)) [
  | inl gone ↦ absurd (ground (arith, gone, h))
  | inr (s, row) ↦ go s row s.status refl
]
  where
    go :
        (s : Session)
        → session_row t name ≡ some s
        → (x : SessionStatus) → s.status ≡ x
        → HasEnded status name ts t u
    go s row live was =
        let left : release status name ts (update_sessions (with_name name) (ended status ts) t)
            ≡ u =
          ground (arith, row, was, h) in
        rw (← left) (released_at status ts name t s row was)
    go s row stopped was = absurd (ground (arith, row, was, h))
    go s row crashed was = absurd (ground (arith, row, was, h))

session_ended-HasEnded :
    (S : Serde) (e : Event S.Value) (p : SessionEnd) (t u : Tables)
    → S.as_session_end e.payload ≡ parsed p
    → (status : SessionStatus) → session_ended S status e t ≡ ok u
    → HasEnded status p.name e.ts t u
unfolding session_ended
session_ended-HasEnded S e p t u decoded status h =
    let (q, read, h') = >>=-eq-ok (payload e (S.as_session_end e.payload)) _ h in
    let same : q ≡ p = ground arith in end_at-HasEnded status e.ts p.name t u (rw same at h')

-- An event `session.stopped` or `session.crashed` that is accepted ends a live session, with the status that
-- its name says and its time. After a crash each bead that the session held in progress is open again and
-- unclaimed, and every other bead is as before; after a stop all beads are as before.
pub session_end_lem :
    (S : Serde) (e : Event S.Value) (p : SessionEnd) (t u : Tables)
    → S.as_session_end e.payload ≡ parsed p
    → apply S e t ≡ ok u
    → (e.kind ≡ EventType.session_crashed → HasEnded crashed p.name e.ts t u)
      × (e.kind ≡ EventType.session_stopped → HasEnded stopped p.name e.ts t u)
unfolding apply handle
session_end_lem S e p t u decoded h = (
  λ kind. session_ended-HasEnded S e p t u decoded crashed (rw (← h) (rw (apply, kind) refl)),
  λ kind. session_ended-HasEnded S e p t u decoded stopped (rw (← h) (rw (apply, kind) refl)),
)
