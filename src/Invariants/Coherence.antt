-- ===== src/Invariants/Coherence.antt =====
-- The columns of one bead agree: the CHECK constraints of schema.rs, and the rules of a close.
use gascamp.Common.{
  ◌≡◌, refl, ◌∙◌, String, Bool, true, false, ◌&&◌, Option, none, some, is_some, is_none, is_blank,
  contains, arith, changed, or_else, when_key, Bool-cases, inl, inr, find, ◌==◌,
}
use gascamp.Schema.{Tables, no_rows, Bead, open', in_progress, is_closed, bead_row}
use gascamp.Payload.{Serde, BeadCreated, BeadClaimed, BeadClosed, BeadUpdated}
use gascamp.Fold.Rows
use gascamp.Fold.Rows.{
  new_bead, patched, claimed, with_id, with_failure, without_failure, update_beads,
}
use gascamp.Fold.Beads.{bead_types, is_blank_title}
use gascamp.Fold.Closing.{closed_with}
use gascamp.Fold.Sessions
use gascamp.Fold.Sessions.{is_held_by, released}
use gascamp.Fold.Write.{Write}
use gascamp.Ledger.{Db}
use gascamp.Ledger.Reached.{Reached, Reached-tables}
use gascamp.Invariants.Rows.{
  KeepsId, row-update_beads, row-insert_bead, row_of_with_id, status_of_row,
}
use gascamp.Invariants.Closes.{IsCoherentClose, check_close-IsCoherent}

-- What holds of every row of `beads`.
pub record IsCoherent (b : Bead) : Type 0 where
  pub typed : contains bead_types b.kind ≡ true
  pub titled : is_blank b.title ≡ false
  pub open_unclaimed : b.status ≡ open' → b.claimed_by ≡ none
  pub in_progress_claimed : b.status ≡ in_progress → is_some b.claimed_by ≡ true
  pub outcome_iff_closed : is_some b.outcome ≡ is_closed b.status
  pub stamp_iff_closed : is_some b.closed_ts ≡ is_closed b.status
  pub no_early_verdict :
      is_closed b.status ≡ false
      → (is_none b.work_outcome && is_none b.work_commit && is_none b.final_disposition) ≡ true
  pub close :
      is_closed b.status ≡ true
      → IsCoherentClose b.outcome b.work_outcome b.work_commit b.work_branch b.final_disposition

-- Every row that a SELECT by id returns.
AllCoherent : Tables → Type 0
AllCoherent t = (id : String) (b : Bead) → bead_row t id ≡ some b → IsCoherent b

updated :
    (p : Bead → Bool) (f : Bead → Bead) (t : Tables)
    → KeepsId f
    → ((id : String) (b : Bead)
        → bead_row t id ≡ some b
        → p b ≡ true
        → IsCoherent b
        → IsCoherent (f b))
    → AllCoherent t
    → AllCoherent (update_beads p f t)
unfolding AllCoherent
updated p f t keeps good h id b row = go (bead_row t id) refl (row-update_beads p f keeps t id)
  where
    go :
        (r : Option Bead)
        → bead_row t id ≡ r
        → bead_row (update_beads p f t) id ≡ changed p f r
        → IsCoherent b
    go none e q = absurd (cc)
    go (some x) e q = elim (Bool-cases (p x)) [
      | inl y ↦ (let same : f x ≡ b = ground arith in rw (← same) (good id x e y (h id x e)))
      | inr n ↦ (let same : x ≡ b = ground arith in rw (← same) (h id x e))
    ]

new_bead-IsCoherent :
    (id rig ts : String) (p : BeadCreated)
    → contains bead_types p.bead_type ≡ true
    → is_blank p.title ≡ false
    → IsCoherent (new_bead id rig p ts)
unfolding new_bead
new_bead-IsCoherent id rig ts p typed titled = record {
  typed = typed;
  titled = titled;
  open_unclaimed = λ _. refl;
  in_progress_claimed = λ x. absurd (cc x);
  outcome_iff_closed = refl;
  stamp_iff_closed = refl;
  no_early_verdict = λ _. refl;
  close = λ x. absurd (cc x);
}

module _ (b : Bead) (c : IsCoherent b) where
  claimed-IsCoherent :
      (ts : String) (p : BeadClaimed) → b.status ≡ open' → IsCoherent (claimed ts p b)
  claimed-IsCoherent ts p at = record {
    typed = c.typed;
    titled = c.titled;
    open_unclaimed = λ x. absurd (cc x);
    in_progress_claimed = λ _. refl;
    outcome_iff_closed = c.outcome_iff_closed ∙ (rw at);
    stamp_iff_closed = c.stamp_iff_closed ∙ (rw at);
    no_early_verdict = λ _. c.no_early_verdict (rw at);
    close = λ x. absurd (cc x);
  }

  patched-IsCoherent :
      (ts : String) (p : BeadUpdated) → is_blank_title p.title ≡ false → IsCoherent (patched ts p b)
  patched-IsCoherent ts p titled = record {
    typed = c.typed;
    titled = ground (arith, c.titled);
    open_unclaimed = c.open_unclaimed;
    in_progress_claimed = c.in_progress_claimed;
    outcome_iff_closed = c.outcome_iff_closed;
    stamp_iff_closed = c.stamp_iff_closed;
    no_early_verdict = c.no_early_verdict;
    close = c.close;
  }

  closed-IsCoherent :
      {V : Type 0} (ts : String) (p : BeadClosed V)
      → IsCoherentClose
          (some p.outcome)
          p.work_outcome
          p.work_commit
          p.work_branch
          p.final_disposition
      → IsCoherent (closed_with ts p b)
  closed-IsCoherent ts p close = record {
    typed = c.typed;
    titled = c.titled;
    open_unclaimed = λ x. absurd (cc x);
    in_progress_claimed = λ x. absurd (cc x);
    outcome_iff_closed = refl;
    stamp_iff_closed = refl;
    no_early_verdict = λ x. absurd (cc x);
    close = λ _. close;
  }

  released-IsCoherent : (ts : String) → b.status ≡ in_progress → IsCoherent (released ts b)
  released-IsCoherent ts at = record {
    typed = c.typed;
    titled = c.titled;
    open_unclaimed = λ _. refl;
    in_progress_claimed = λ x. absurd (cc x);
    outcome_iff_closed = c.outcome_iff_closed ∙ (rw at);
    stamp_iff_closed = c.stamp_iff_closed ∙ (rw at);
    no_early_verdict = λ _. c.no_early_verdict (rw at);
    close = λ x. absurd (cc x);
  }

  -- the marker of a failed dispatch and the time of the last change are free
  marked-IsCoherent :
      (failure : Option String) (ts : String)
      → IsCoherent (record b { dispatch_failure = failure; updated_ts = ts })
  marked-IsCoherent failure ts = record {
    typed = c.typed;
    titled = c.titled;
    open_unclaimed = c.open_unclaimed;
    in_progress_claimed = c.in_progress_claimed;
    outcome_iff_closed = c.outcome_iff_closed;
    stamp_iff_closed = c.stamp_iff_closed;
    no_early_verdict = c.no_early_verdict;
    close = c.close;
  }

held_is_in_progress : (name : String) (b : Bead) → is_held_by name b ≡ true → b.status ≡ in_progress
held_is_in_progress name b h = ground arith

inserted :
    (x : Bead) (t : Tables) → IsCoherent x → AllCoherent t → AllCoherent (Rows.insert_bead x t)
unfolding AllCoherent
inserted x t new h id b row = go (bead_row t id) refl (row-insert_bead x t id)
  where
    go :
        (r : Option Bead)
        → bead_row t id ≡ r
        → bead_row (Rows.insert_bead x t) id ≡ or_else r (when_key (x.id == id) x)
        → IsCoherent b
    go none e q = elim (Bool-cases (x.id == id)) [
      | inl y ↦ (let same : x ≡ b = ground arith in rw (← same) new)
      | inr n ↦ absurd (ground arith)
    ]
    go (some y) e q = let same : y ≡ b = ground arith in rw (← same) (h id y e)

Write-AllCoherent :
    {V : Type 0} {created : Option String} (t u : Tables)
    → Write V created t u
    → AllCoherent t
    → AllCoherent u
unfolding Rows.insert_dep Rows.insert_search Rows.rewrite_body_search_row Sessions.insert_session
    Sessions.update_sessions AllCoherent
Write-AllCoherent t u (Write.insert_bead i r ts p made fresh typed titled) h =
    inserted _ t (new_bead-IsCoherent i r ts p typed titled) h
Write-AllCoherent t u (Write.claim i ts p at) h =
    updated _ _ t (λ b. refl)
      (λ id b row same c.
        claimed-IsCoherent b c ts p (status_of_row t i (row_of_with_id t id i b row same) at))
      h
Write-AllCoherent t u (Write.clear i) h =
    updated _ _ t (λ b. refl) (λ id b row q c. marked-IsCoherent b c none b.updated_ts) h
Write-AllCoherent t u (Write.patch i ts p titled) h =
    updated _ _ t (λ b. refl) (λ id b row q c. patched-IsCoherent b c ts p titled) h
Write-AllCoherent t u (Write.close i e p s checked at alive) h =
    updated _ _ t (λ b. refl)
      (λ id b row q c. closed-IsCoherent b c e.ts p (check_close-IsCoherent e p checked)) h
Write-AllCoherent t u (Write.fail i ts r) h =
    updated _ _ t (λ b. refl) (λ id b row q c. marked-IsCoherent b c (some r) ts) h
Write-AllCoherent t u (Write.rearm i ts) h =
    updated _ _ t (λ b. refl) (λ id b row q c. marked-IsCoherent b c none ts) h
Write-AllCoherent t u (Write.release n ts) h =
    updated _ _ t (λ b. refl)
      (λ id b row q c. released-IsCoherent b c ts (held_is_in_progress n b q)) h
Write-AllCoherent t u _ h = h

none_coherent : AllCoherent no_rows
unfolding AllCoherent find
none_coherent id b row = absurd (cc)

-- In every history the columns of every bead agree: its type and title are valid; an open bead has
-- no claimant and one in progress has one; exactly a closed bead has an outcome and a time of
-- closing; before the close there is no work outcome, work commit or final disposition; and after it
-- the words are in their vocabularies, a work outcome and a final disposition fit the outcome, and
-- exactly shipped work has a commit and a branch.
pub beads-IsCoherent :
    (S : Serde) {db : Db S.Value}
    → Reached S db
    → (id : String) (b : Bead) → bead_row db.tables id ≡ some b
    → IsCoherent b
unfolding AllCoherent
beads-IsCoherent S =
    Reached-tables S AllCoherent none_coherent (λ created t u w. Write-AllCoherent t u w)
