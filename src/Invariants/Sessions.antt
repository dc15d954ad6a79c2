-- ===== src/Invariants/Sessions.antt =====
-- The life of a session: a session that has ended stays ended, and what a crash leaves behind.
use gascamp.Common.{
  ◌≡◌, refl, sym, ap, ◌∙◌, String, Bool, true, false, Option, some, arith, changed, find-append,
  find-update_where, find-key, Bool-cases, inl, inr, eq_iff,
}
use gascamp.Schema.{Tables, Session, SessionStatus, live, is_live, session_key, session_row}
use gascamp.Payload.{Serde}
use gascamp.Event.{Event}
use gascamp.Error.{ok}
use gascamp.Fold.{apply}
use gascamp.Fold.Rows
use gascamp.Fold.Sessions
use gascamp.Fold.Sessions.{with_name, update_sessions}
use gascamp.Fold.Write.{Write, Writes-keep}
use gascamp.Fold.Write.Apply.{apply-Writes}

-- The session has ended, with this status and at this time.
pub record IsOver (name : String) (status : SessionStatus) (ended_ts : Option String) (t : Tables)
    : Type 0 where
  pub session : Session
  pub row : session_row t name ≡ some session
  pub over : is_live status ≡ false
  pub at : session.status ≡ status
  pub since : session.ended_ts ≡ ended_ts

row-update_sessions :
    (p : Session → Bool) (f : Session → Session)
    → ((s : Session) → (f s).name ≡ s.name)
    → (t : Tables) (name : String)
    → session_row (update_sessions p f t) name ≡ changed p f (session_row t name)
unfolding update_sessions
row-update_sessions p f keeps t name = find-update_where session_key p f keeps name t.sessions

module _ (name : String) (status : SessionStatus) (ts : Option String) (t : Tables)
    (h : IsOver name status ts t) where
  IsOver-update_sessions :
      (p : Session → Bool) (f : Session → Session)
      → ((s : Session) → (f s).name ≡ s.name)
      → (p h.session ≡ true
          → ((f h.session).status ≡ h.session.status)
            × ((f h.session).ended_ts ≡ h.session.ended_ts))
      → IsOver name status ts (update_sessions p f t)
  IsOver-update_sessions p f keeps kept = elim (Bool-cases (p h.session)) [
    | inl e ↦ record {
      session = f h.session;
      row = row-update_sessions p f keeps t name ∙ (rw h.row (rw e));
      over = h.over;
      at = (kept e).0 ∙ h.at;
      since = (kept e).1 ∙ h.since;
    }
    | inr e ↦ record {
      session = h.session;
      row = row-update_sessions p f keeps t name ∙ (rw h.row (rw e));
      over = h.over;
      at = h.at;
      since = h.since;
    }
  ]

  -- the live row of another session is not this one
  not_live :
      (n : String) (s : Session) {A : Type 0}
      → session_row t n ≡ some s
      → s.status ≡ live
      → with_name n h.session ≡ true
      → A
  not_live n s there alive same = absurd (
      let key : h.session.name ≡ name = find-key session_key name t.sessions h.session h.row in
      let same' : h.session.name ≡ n = (eq_iff h.session.name n).0 same in
      let row : session_row t n ≡ some h.session = ap (session_row t) (sym same' ∙ key) ∙ h.row in
      let q : s ≡ h.session = ground arith in
      let bad : status ≡ live = sym h.at ∙ sym (ap (λ (x : Session). x.status) q) ∙ alive in
      let worse : is_live live ≡ false = rw bad at h.over in cc worse)

Write-IsOver :
    (name : String) (status : SessionStatus) (ts : Option String) {V : Type 0}
    {created : Option String} (t u : Tables)
    → Write V created t u
    → IsOver name status ts t
    → IsOver name status ts u
unfolding Rows.insert_bead Rows.update_beads Rows.insert_dep Rows.insert_search
    Rows.rewrite_body_search_row Sessions.insert_session
Write-IsOver name status ts t u (Write.register p ts' fresh) h = record {
  session = h.session;
  row = find-append session_key name t.sessions _ ∙ (rw h.row);
  over = h.over;
  at = h.at;
  since = h.since;
}
Write-IsOver name status ts t u (Write.set_pid n pid) h =
    IsOver-update_sessions name status ts t h _ _ (λ s. refl) (λ _. (refl, refl))
Write-IsOver name status ts t u (Write.finish n ts' st s there alive final) h =
    IsOver-update_sessions name status ts t h _ _ (λ s. refl)
      (λ same. not_live name status ts t h n s there alive same)
Write-IsOver name status ts t u _ h = record {
  session = h.session;
  row = h.row;
  over = h.over;
  at = h.at;
  since = h.since;
}

-- No accepted event makes a session that has ended live again, or changes how and when it ended.
pub ended_is_final :
    (S : Serde) (e : Event S.Value) (t : Tables) {u : Tables} (name : String)
    (status : SessionStatus) (ended_ts : Option String)
    → apply S e t ≡ ok u
    → IsOver name status ended_ts t
    → IsOver name status ended_ts u
ended_is_final S e t name status ended_ts h over =
    Writes-keep (IsOver name status ended_ts) (Write-IsOver name status ended_ts)
      (apply-Writes S e t h) over
