-- ===== src/Fold/Closing.antt =====
-- crates/camp-core/src/ledger/fold.rs: closing a bead (`bead_closed`), and what a close must say.
use gascamp.Common.{
  String, Bool, not, ◌&&◌, ◌||◌, Option, none, some, List, is_some, contains, ◌==◌,
}
use gascamp.Error.{
  Result, ok, err, unknown_bead, invalid_transition, bead_already_closed, not_in_vocabulary,
  requires_outcome, artifact_without_shipped, shipped_without_artifact, artifact_not_allowed,
  refuse_if, ◌>>=◌, ◌>>◌,
}
use gascamp.Vocab.{camp_outcomes, camp_work_outcomes, camp_final_dispositions, camp_failure_classes}
use gascamp.Event.{Event}
use gascamp.Schema.{Tables, Bead, BeadStatus, closed}
use gascamp.Payload.{Serde, BeadClosed}
use gascamp.Fold.Guards.{bad, payload, required_bead, bead_status}
use gascamp.Fold.Rows.{update_beads, with_id, index_reason}

abbrev pub wants_pass : String → Bool
wants_pass wo = wo == "shipped" || wo == "no-op"

module _ {V : Type 0} where
  -- the vocabulary of an optional field, and the outcome that the field requires
  unfoldable pub check_class :
      Event V → String → String → List String → Option String → Result (Unit {0})
  check_class e field outcome vocabulary none = ok tt
  check_class e field outcome vocabulary (some c) = do
    refuse_if (not (contains vocabulary c)) (bad e (not_in_vocabulary field c))
    refuse_if (not (outcome == "fail")) (bad e (requires_outcome "fail" outcome))

  unfoldable pub check_work : Event V → BeadClosed V → Option String → Result (Unit {0})
  check_work e p none =
      refuse_if (is_some p.work_commit || is_some p.work_branch) (bad e artifact_without_shipped)
  check_work e p (some wo) = do
    refuse_if (not (contains camp_work_outcomes wo)) (bad e (not_in_vocabulary "work_outcome" wo))
    refuse_if (wants_pass wo && not (p.outcome == "pass"))
        (bad e (requires_outcome "pass" p.outcome))
    refuse_if (not (wants_pass wo) && not (p.outcome == "fail"))
        (bad e (requires_outcome "fail" p.outcome))
    refuse_if (wo == "shipped" && not (is_some p.work_commit && is_some p.work_branch))
        (bad e shipped_without_artifact)
    refuse_if (not (wo == "shipped") && (is_some p.work_commit || is_some p.work_branch))
        (bad e (artifact_not_allowed wo))

  unfoldable pub check_close : Event V → BeadClosed V → Result (Unit {0})
  check_close e p = do
    refuse_if (not (contains camp_outcomes p.outcome))
        (bad e (not_in_vocabulary "outcome" p.outcome))
    check_class e "failure_class" p.outcome camp_failure_classes p.failure_class
    check_class e "final_disposition" p.outcome camp_final_dispositions p.final_disposition
    check_work e p p.work_outcome

  abbrev pub closed_with : String → BeadClosed V → Bead → Bead
  closed_with ts p b = record b {
    status = closed;
    outcome = some p.outcome;
    close_reason = p.reason;
    work_outcome = p.work_outcome;
    work_commit = p.work_commit;
    work_branch = p.work_branch;
    final_disposition = p.final_disposition;
    closed_ts = some ts;
    updated_ts = ts;
  }

  unfoldable pub close_at :
      Event V → String → BeadClosed V → Tables → Option BeadStatus → Result Tables
  close_at e id p t none = err (unknown_bead id)
  close_at e id p t (some closed) = err (invalid_transition id bead_already_closed)
  close_at e id p t (some _) =
      ok (index_reason id p.reason (update_beads (with_id id) (closed_with e.ts p) t))

module _ (S : Serde) where
  open S use {Value}

  unfoldable pub bead_closed : Event Value → Tables → Result Tables
  bead_closed e t = do
    id ← required_bead e
    p ← payload e (S.as_bead_closed e.payload)
    check_close e p
    close_at e id p t (bead_status t id)
