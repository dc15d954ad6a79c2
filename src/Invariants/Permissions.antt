-- ===== src/Invariants/Permissions.antt =====
-- The life of a permission request: the first answer wins, and a drain reservation keeps its holder.
use gascamp.Common.{
  Option, ◌≡◌, refl, ◌∙◌, String, some, arith, changed, find-append, find-update_where,
}
use gascamp.Schema.{Tables, Permission, decided, permission_key, permission_row}
use gascamp.Payload.{Serde}
use gascamp.Event.{Event}
use gascamp.Error.{ok}
use gascamp.Fold.{apply}
use gascamp.Fold.Rows
use gascamp.Fold.Sessions
use gascamp.Fold.Permissions.{is_pending_request, decided_as}
use gascamp.Fold.Write.{Write, Writes-keep}
use gascamp.Fold.Write.Apply.{apply-Writes}

-- The request has this row, and it is decided.
pub record IsDecided (id : String) (p : Permission) (t : Tables) : Type 0 where
  pub row : permission_row t id ≡ some p
  pub answered : p.status ≡ decided

decided_stays :
    (id : String) (p : Permission) (f : Permission → Permission)
    → p.status ≡ decided
    → changed (is_pending_request id) f (some p) ≡ some p
decided_stays id p f h = ground arith

Write-IsDecided :
    (id : String) (p : Permission) {V : Type 0} {created : Option String} (t u : Tables)
    → Write V created t u
    → IsDecided id p t
    → IsDecided id p u
unfolding Rows.insert_bead Rows.update_beads Rows.insert_dep Rows.insert_search
    Rows.rewrite_body_search_row Sessions.insert_session Sessions.update_sessions
Write-IsDecided id p t u (Write.ask q ts alive fresh) h = record {
  row = find-append permission_key id t.permissions _ ∙ (rw h.row);
  answered = h.answered;
}
Write-IsDecided id p t u (Write.decide d ts known) h = record {
  row =
      find-update_where permission_key (is_pending_request d.request_id) (decided_as d ts)
        (λ r. refl) id t.permissions
      ∙ (rw h.row (decided_stays d.request_id p (decided_as d ts) h.answered));
  answered = h.answered;
}
Write-IsDecided id p t u _ h = record { row = h.row; answered = h.answered }

-- No accepted event changes any column of a permission request that has been decided.
pub first_answer_wins :
    (S : Serde) (e : Event S.Value) (t : Tables) {u : Tables} (id : String) (p : Permission)
    → apply S e t ≡ ok u
    → IsDecided id p t
    → IsDecided id p u
first_answer_wins S e t id p h answered =
    Writes-keep (IsDecided id p) (Write-IsDecided id p) (apply-Writes S e t h) answered
