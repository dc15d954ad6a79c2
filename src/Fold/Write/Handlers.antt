-- ===== src/Fold/Write/Handlers.antt =====
-- Each handler, when it accepts an event, has executed statements of `Write` and nothing else.
pub mod Loops
use mathlib.Core.Path.{subst}
use gascamp.Common.{
  ◌≡◌, refl, ap, String, Bool, true, false, not, Option, none, some, is_some, is_none, is_blank,
  is_empty, Bool-cases, inl, inr, contains, any, arith, find-append, ◌==◌, eq_refl, ◌&&◌,
}
use gascamp.Error.{Result, ok, err, ◌>>=◌, ◌>>◌, >>=-eq-ok, refuse_if, refuse_if-eq-ok, ok_or-eq-ok}
use gascamp.Schema.{
  Tables, Bead, bead_key, bead_row, BeadStatus, open', in_progress, closed, body, close, Session,
  SessionStatus, live, stopped, crashed, session_row, permission_row, is_live,
}
use gascamp.Event.{Event}
use gascamp.Payload.{Serde, BeadCreated, BeadClaimed, BeadClosed}
use gascamp.Ids.{bump_counter, parse_bead_id}
use gascamp.Fold.Guards.{bead_status, status_of, required_bead, payload, known_bead, non_empty}
use gascamp.Fold.Rows
use gascamp.Fold.Rows.{new_bead, search_text, update_beads, with_id, index_reason}
use gascamp.Fold.Closing.{check_close, closed_with, close_at, bead_closed}
use gascamp.Fold.Beads.{
  bead_types, is_blank_title, insert_deps, claim_at, bead_created, bead_claimed, bead_updated,
}
use gascamp.Fold.Metadata.{write_each, update_each}
use gascamp.Fold.Dispatch.{dispatch_failed, dispatch_rearmed}
use gascamp.Fold.Sessions
use gascamp.Fold.Sessions.{
  session_status, new_session, clear_failure, end_at, release, update_sessions, with_name, ended,
  session_woke, session_pid, session_ended,
}
use gascamp.Fold.Permissions.{
  is_live_session, is_blank_reason, is_pending_request, permission_decisions, permission_pending,
  permission_decided,
}
use gascamp.Fold.Write.{Write, Writes, done, next, Writes-append}
use gascamp.Fold.Write

pub ok_injective : {t u : Tables} → ok t ≡ ok u → t ≡ u
ok_injective h = cc

pub none_of_not_some {ℓ} : {A : Type ℓ} (o : Option A) → is_some o ≡ false → o ≡ none
none_of_not_some none h = refl
none_of_not_some (some a) h = absurd (cc)

pub true_of_not-false : (b : Bool) → not b ≡ false → b ≡ true
true_of_not-false true h = refl
true_of_not-false false h = absurd (cc)

claim_at-Writes :
    {V : Type 0} {created : Option String} (e : Event V) (id : String) (p : BeadClaimed)
    (t : Tables) {u : Tables} (s : Option BeadStatus)
    → bead_status t id ≡ s
    → claim_at e id p t s ≡ ok u
    → Writes V created t u
unfolding claim_at
claim_at-Writes e id p t none hs h = absurd (cc)
claim_at-Writes {V} {created} e id p t (some open') hs h =
    subst (λ v. Writes V created t v) (ground arith)
      (next (next done (Write.claim id e.ts p hs)) (Write.clear id))
claim_at-Writes e id p t (some in_progress) hs h = absurd (cc)
claim_at-Writes e id p t (some closed) hs h = absurd (cc)

index_reason-Writes :
    {V : Type 0} {created : Option String} (id : String) (reason : Option String) {t u : Tables}
    → Writes V created t u
    → Writes V created t (index_reason id reason u)
unfolding index_reason
index_reason-Writes id none ws = ws
index_reason-Writes {V} {created} id (some reason) {t} {u} ws =
    elim (Bool-cases (is_empty reason)) [
      | inl e ↦ rw e ws
      | inr e ↦
          rw e (next ws (Write.index (record { bead_id = id; kind = close; content = reason })))
    ]

close_at-Writes :
    {V : Type 0} {created : Option String} (e : Event V) (id : String) (p : BeadClosed V)
    (t : Tables) {u : Tables} (s : Option BeadStatus)
    → check_close e p ≡ ok tt
    → bead_status t id ≡ s
    → close_at e id p t s ≡ ok u
    → Writes V created t u
unfolding close_at
close_at-Writes e id p t none hc hs h = absurd (cc)
close_at-Writes {V} {created} e id p t (some open') hc hs h =
    subst (λ v. Writes V created t v) (ground arith)
      (index_reason-Writes id p.reason (next done (Write.close id e p open' hc hs refl)))
close_at-Writes {V} {created} e id p t (some in_progress) hc hs h =
    subst (λ v. Writes V created t v) (ground arith)
      (index_reason-Writes id p.reason (next done (Write.close id e p in_progress hc hs refl)))
close_at-Writes e id p t (some closed) hc hs h = absurd (cc)

end_at-Writes :
    {V : Type 0} {created : Option String} (status : SessionStatus) (ts name : String) (t : Tables)
    {u : Tables} (o : Option Session)
    → is_live status ≡ false
    → session_row t name ≡ o
    → end_at status ts name t (session_status o) ≡ ok u
    → Writes V created t u
unfolding end_at release
end_at-Writes status ts name t none dead ho h = absurd (cc)
end_at-Writes {V} {created} status ts name t {u} (some s) dead ho h = go s.status refl h
  where
    finished :
        s.status ≡ live → Writes V created t (update_sessions (with_name name) (ended status ts) t)
    finished l = next done (Write.finish name ts status s ho l dead)

    go :
        (x : SessionStatus)
        → s.status ≡ x
        → end_at status ts name t (some x) ≡ ok u
        → Writes V created t u
    go live l h' = by_status status refl
      where
        by_status : (y : SessionStatus) → status ≡ y → Writes V created t u
        by_status live e = absurd (cc)
        by_status stopped e = subst (λ v. Writes V created t v) (ground arith) (finished l)
        by_status crashed e =
            subst (λ v. Writes V created t v) (ground arith)
              (next (finished l) (Write.release name ts))
    go stopped l h' = absurd (cc)
    go crashed l h' = absurd (cc)

clear_failure-Writes :
    {V : Type 0} {created : Option String} (bead : Option String) {t u : Tables}
    → Writes V created t u
    → Writes V created t (clear_failure bead u)
unfolding clear_failure
clear_failure-Writes none ws = ws
clear_failure-Writes (some id) ws = next ws (Write.clear id)

module _ (S : Serde) (e : Event S.Value) (t : Tables) {u : Tables} {created : Option String} where
  pub bead_claimed-Writes : bead_claimed S e t ≡ ok u → Writes S.Value created t u
  unfolding bead_claimed
  bead_claimed-Writes h =
      let (id, hid, h₁) = >>=-eq-ok (required_bead e) _ h in
      let (p, hp, h₂) = >>=-eq-ok (payload e (S.as_bead_claimed e.payload)) _ h₁ in
      claim_at-Writes e id p t (bead_status t id) refl h₂

  pub bead_closed-Writes : bead_closed S e t ≡ ok u → Writes S.Value created t u
  unfolding bead_closed
  bead_closed-Writes h =
      let (id, hid, h₁) = >>=-eq-ok (required_bead e) _ h in
      let (p, hp, h₂) = >>=-eq-ok (payload e (S.as_bead_closed e.payload)) _ h₁ in
      let (x, checked, h₃) = >>=-eq-ok (check_close e p) _ h₂ in
      close_at-Writes e id p t (bead_status t id) checked refl h₃

  pub dispatch_failed-Writes : dispatch_failed S e t ≡ ok u → Writes S.Value created t u
  unfolding dispatch_failed
  dispatch_failed-Writes h =
      let (id, hid, h₁) = >>=-eq-ok (required_bead e) _ h in
      let (x, known, h₂) = >>=-eq-ok (known_bead t id) _ h₁ in
      let (p, hp, h₃) = >>=-eq-ok (payload e (S.as_dispatch_failed e.payload)) _ h₂ in
      let (y, full, h₄) = >>=-eq-ok (non_empty e "reason" p.reason) _ h₃ in
      subst (λ v. Writes S.Value created t v) (ok_injective h₄)
        (next done (Write.fail id e.ts p.reason))

  pub dispatch_rearmed-Writes : dispatch_rearmed S e t ≡ ok u → Writes S.Value created t u
  unfolding dispatch_rearmed
  dispatch_rearmed-Writes h =
      let (id, hid, h₁) = >>=-eq-ok (required_bead e) _ h in
      let (x, known, h₂) = >>=-eq-ok (known_bead t id) _ h₁ in
      let (p, hp, h₃) = >>=-eq-ok (payload e (S.as_dispatch_rearmed e.payload)) _ h₂ in
      let (y, full, h₄) = >>=-eq-ok (non_empty e "previous_reason" p.previous_reason) _ h₃ in
      subst (λ v. Writes S.Value created t v) (ok_injective h₄) (next done (Write.rearm id e.ts))

  pub session_woke-Writes : session_woke S e t ≡ ok u → Writes S.Value created t u
  unfolding session_woke
  session_woke-Writes h =
      let (p, hp, h₁) = >>=-eq-ok (payload e (S.as_session_woke e.payload)) _ h in
      let (fresh, h₂) = refuse_if-eq-ok (is_some (session_row t p.name)) _ _ h₁ in
      subst (λ v. Writes S.Value created t v) (ok_injective h₂)
        (clear_failure-Writes p.bead (next done (Write.register p e.ts (none_of_not_some _ fresh))))

  pub session_pid-Writes : session_pid S e t ≡ ok u → Writes S.Value created t u
  unfolding session_pid
  session_pid-Writes h =
      let (p, hp, h₁) = >>=-eq-ok (payload e (S.as_session_pid e.payload)) _ h in
      let (known, h₂) = refuse_if-eq-ok (is_none (session_row t p.name)) _ _ h₁ in
      subst (λ v. Writes S.Value created t v) (ok_injective h₂)
        (next done (Write.set_pid p.name p.pid))

  pub session_ended-Writes :
      (status : SessionStatus)
      → is_live status ≡ false
      → session_ended S status e t ≡ ok u
      → Writes S.Value created t u
  unfolding session_ended
  session_ended-Writes status dead h =
      let (p, hp, h₁) = >>=-eq-ok (payload e (S.as_session_end e.payload)) _ h in
      end_at-Writes status e.ts p.name t (session_row t p.name) dead refl h₁

  pub permission_pending-Writes : permission_pending S e t ≡ ok u → Writes S.Value created t u
  unfolding permission_pending
  permission_pending-Writes h =
      let (p, hp, h₁) = >>=-eq-ok (payload e (S.as_permission_pending e.payload)) _ h in
      let (alive, h₂) = refuse_if-eq-ok (not (any (is_live_session p.session) t.sessions)) _ _ h₁ in
      let (fresh, h₃) = refuse_if-eq-ok (is_some (permission_row t p.request_id)) _ _ h₂ in
      subst (λ v. Writes S.Value created t v) (ok_injective h₃)
        (next done (Write.ask p e.ts (true_of_not-false _ alive) (none_of_not_some _ fresh)))

  pub permission_decided-Writes : permission_decided S e t ≡ ok u → Writes S.Value created t u
  unfolding permission_decided
  permission_decided-Writes h =
      let (p, hp, h₁) = >>=-eq-ok (payload e (S.as_permission_decided e.payload)) _ h in
      let (known, h₂) = refuse_if-eq-ok (not (contains permission_decisions p.decision)) _ _ h₁ in
      let (x, reasoned, h₃) =
        >>=-eq-ok (refuse_if (p.decision == "deny" && is_blank_reason p.reason) _) _ h₂ in
      let (y, waiting, h₄) =
        >>=-eq-ok (refuse_if (not (any (is_pending_request p.request_id) t.permissions)) _) _ h₃ in
      subst (λ v. Writes S.Value created t v) (ok_injective h₄)
        (next done (Write.decide p e.ts (true_of_not-false _ known)))
