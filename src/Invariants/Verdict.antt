-- ===== src/Invariants/Verdict.antt =====
-- The life of a bead: a close is final.
use gascamp.Common.{
  ◌≡◌, refl, sym, ap, ◌∙◌, String, Bool, true, false, Option, some, arith, Bool-cases, inl, inr,
}
use gascamp.Schema
use gascamp.Schema.{Tables, Bead, BeadStatus, open', in_progress, closed, bead_row}
use gascamp.Payload.{Serde}
use gascamp.Event.{Event}
use gascamp.Error.{ok}
use gascamp.Fold.{apply}
use gascamp.Fold.Guards.{bead_status}
use gascamp.Fold.Rows
use gascamp.Fold.Rows.{with_id, update_beads}
use gascamp.Fold.Sessions
use gascamp.Fold.Sessions.{is_held_by}
use gascamp.Fold.Write.{Write, Writes-keep}
use gascamp.Fold.Write.Apply.{apply-Writes}
use gascamp.Invariants.Rows.{
  row-update_beads, row-insert_bead, row_of_with_id, status_of_row, KeepsId,
}

-- What a close says of a bead.
pub record Verdict : Type 0 where
  pub outcome : Option String
  pub close_reason : Option String
  pub work_outcome : Option String
  pub work_commit : Option String
  pub work_branch : Option String
  pub final_disposition : Option String
  pub closed_ts : Option String

abbrev pub verdict : Bead → Verdict
verdict b = record {
  outcome = b.outcome;
  close_reason = b.close_reason;
  work_outcome = b.work_outcome;
  work_commit = b.work_commit;
  work_branch = b.work_branch;
  final_disposition = b.final_disposition;
  closed_ts = b.closed_ts;
}

-- The bead is closed, with this verdict.
pub record IsSettled (id : String) (v : Verdict) (t : Tables) : Type 0 where
  pub bead : Bead
  pub row : bead_row t id ≡ some bead
  pub is_closed : bead.status ≡ closed
  pub says : verdict bead ≡ v

module _ (id : String) (v : Verdict) (t : Tables) (h : IsSettled id v t) where
  -- An UPDATE that does not reach closed beads, or leaves their verdicts alone.
  IsSettled-update_beads :
      (p : Bead → Bool) (f : Bead → Bead)
      → KeepsId f
      → (p h.bead ≡ true → ((f h.bead).status ≡ closed) × (verdict (f h.bead) ≡ verdict h.bead))
      → IsSettled id v (update_beads p f t)
  IsSettled-update_beads p f keeps kept = elim (Bool-cases (p h.bead)) [
    | inl e ↦ record {
      bead = f h.bead;
      row = row-update_beads p f keeps t id ∙ (rw h.row (rw e));
      is_closed = (kept e).0;
      says = (kept e).1 ∙ h.says;
    }
    | inr e ↦ record {
      bead = h.bead;
      row = row-update_beads p f keeps t id ∙ (rw h.row (rw e));
      is_closed = h.is_closed;
      says = h.says;
    }
  ]

  -- a statement on a bead that is not closed
  not_this :
      (j : String) (s : BeadStatus) {A : Type 0}
      → bead_status t j ≡ some s
      → Schema.is_closed s ≡ false
      → with_id j h.bead ≡ true
      → A
  not_this j s at alive same = absurd (
      let there = row_of_with_id t id j h.bead h.row same in
      let e : h.bead.status ≡ s = status_of_row t j there at in
      let c : closed ≡ s = sym h.is_closed ∙ e in cc (ap Schema.is_closed c))

released_is_not_closed :
    (name : String) (b : Bead) → b.status ≡ closed → is_held_by name b ≡ true → ⊥
released_is_not_closed name b c h = ground arith

Write-IsSettled :
    (id : String) (v : Verdict) {V : Type 0} {created : Option String} (t u : Tables)
    → Write V created t u
    → IsSettled id v t
    → IsSettled id v u
unfolding Rows.insert_dep Rows.insert_search Rows.rewrite_body_search_row Sessions.insert_session
    Sessions.update_sessions
Write-IsSettled id v t u (Write.insert_bead i r ts p made fresh b c) h = record {
  bead = h.bead;
  row = row-insert_bead _ t id ∙ (rw h.row);
  is_closed = h.is_closed;
  says = h.says;
}
Write-IsSettled id v t u (Write.claim i ts p at) h =
    IsSettled-update_beads id v t h _ _ (λ b. refl) (λ e. not_this id v t h i open' at refl e)
Write-IsSettled id v t u (Write.clear i) h =
    IsSettled-update_beads id v t h _ _ (λ b. refl) (λ e. (h.is_closed, refl))
Write-IsSettled id v t u (Write.patch i ts p a) h =
    IsSettled-update_beads id v t h _ _ (λ b. refl) (λ e. (h.is_closed, refl))
Write-IsSettled id v t u (Write.close i e p s checked at alive) h =
    IsSettled-update_beads id v t h _ _ (λ b. refl) (λ same. not_this id v t h i s at alive same)
Write-IsSettled id v t u (Write.fail i ts r) h =
    IsSettled-update_beads id v t h _ _ (λ b. refl) (λ e. (h.is_closed, refl))
Write-IsSettled id v t u (Write.rearm i ts) h =
    IsSettled-update_beads id v t h _ _ (λ b. refl) (λ e. (h.is_closed, refl))
Write-IsSettled id v t u (Write.release n ts) h =
    IsSettled-update_beads id v t h _ _ (λ b. refl)
      (λ e. absurd (released_is_not_closed n h.bead h.is_closed e))
Write-IsSettled id v t u _ h = record {
  bead = h.bead;
  row = h.row;
  is_closed = h.is_closed;
  says = h.says;
}

-- No accepted event changes the status or the verdict of a closed bead.
pub close_is_final :
    (S : Serde) (e : Event S.Value) (t : Tables) {u : Tables} (id : String) (v : Verdict)
    → apply S e t ≡ ok u
    → IsSettled id v t
    → IsSettled id v u
close_is_final S e t id v h settled =
    Writes-keep (IsSettled id v) (Write-IsSettled id v) (apply-Writes S e t h) settled
