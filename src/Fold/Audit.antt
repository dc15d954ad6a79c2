-- ===== src/Fold/Audit.antt =====
-- crates/camp-core/src/ledger/fold.rs: the events that are recorded and change no state table. Each
-- handler reads the payload, and the tables where a bead is named, and refuses or passes.
use gascamp.Common.{
  String, Bool, true, false, not, ◌&&◌, ◌||◌, Option, none, some, List, [], ◌∷◌, is_some, is_none,
  is_empty, contains, ◌==◌, eqb,
}
use gascamp.Error.{
  Result, ok, missing_rig_name, unknown_action, nudge_failed_without_error, via_not_allowed,
  attempts_start_at_one, no_evidence, empty_error, not_the_root, not_in_vocabulary, not_a_seq,
  unknown_cause, refuse_if, ◌>>=◌, ◌>>◌,
}
use gascamp.Vocab.{camp_outcomes, camp_run_dispositions, parse_cause}
use gascamp.Event.{Event}
use gascamp.Schema.{Tables, ℤ, pos, negsuc}
use gascamp.Payload.{Serde, Decoded}
use gascamp.Ids.{validate_prefix}
use gascamp.Fold.Guards.{bad, payload, required_bead, known_bead, non_empty}
use gascamp.Fold.Orders.{none_or_empty}

abbrev pub stall_actions : List String
stall_actions = "nudge" ∷ "nudge_failed" ∷ "restart" ∷ "exhausted" ∷ "annotate" ∷ []

-- `cause_seq < 1`
abbrev pub below_one : ℤ → Bool
below_one (pos n) = eqb n 0
below_one (negsuc _) = true

abbrev pub is_true : Option Bool → Bool
is_true (some b) = b
is_true none = false

-- present, and empty
abbrev pub some_empty : Option String → Bool
some_empty none = false
some_empty (some s) = is_empty s

module _ {V : Type 0} where
  abbrev pub known_if_named : Event V → Tables → Option String → Result (Unit {0})
  known_if_named e t none = ok tt
  known_if_named e t (some bead) = known_bead t bead

  abbrev pub step_non_empty : Event V → Option String → Result (Unit {0})
  step_non_empty e none = ok tt
  step_non_empty e (some step) = non_empty e "step" step

  -- parse and discard: the parse is the validation
  unfoldable pub audit {ℓ} : {A : Type ℓ} → Event V → Decoded A → Result (Unit {0})
  audit e d = do p ← payload e d; ok tt

module _ (S : Serde) where
  open S use {Value}

  unfoldable pub rig_added : Event Value → Result (Unit {0})
  rig_added e = do
    refuse_if (is_none e.rig) (bad e missing_rig_name)
    p ← payload e (S.as_rig_added e.payload)
    non_empty e "path" p.path
    validate_prefix p.prefix

  unfoldable pub campd_autostarted : Event Value → Result (Unit {0})
  campd_autostarted e = do
    p ← payload e (S.as_campd_autostarted e.payload)
    non_empty e "verb" p.verb

  unfoldable pub run_cooked : Event Value → Result (Unit {0})
  run_cooked e = do
    p ← payload e (S.as_run_cooked e.payload)
    non_empty e "run_id" p.run_id
    non_empty e "formula" p.formula
    non_empty e "root" p.root

  unfoldable pub formula_refused : Event Value → Result (Unit {0})
  formula_refused e = do
    p ← payload e (S.as_formula_refused e.payload)
    non_empty e "formula" p.formula
    non_empty e "key" p.key
    non_empty e "reason" p.reason
    step_non_empty e p.step

  unfoldable pub worker_milestone : Tables → Event Value → Result (Unit {0})
  worker_milestone t e = do
    p ← payload e (S.as_worker_milestone e.payload)
    non_empty e "text" p.text
    known_if_named e t e.bead

  unfoldable pub worktree_kept : Tables → Event Value → Result (Unit {0})
  worktree_kept t e = do
    bead ← required_bead e
    known_bead t bead
    p ← payload e (S.as_worktree_kept e.payload)
    non_empty e "path" p.path
    non_empty e "reason" p.reason

  unfoldable pub bead_worktree_reaped : Tables → Event Value → Result (Unit {0})
  bead_worktree_reaped t e = do
    bead ← required_bead e
    known_bead t bead
    p ← payload e (S.as_bead_worktree_reaped e.payload)
    non_empty e "path" p.path

  unfoldable pub agent_stalled : Tables → Event Value → Result (Unit {0})
  agent_stalled t e = do
    bead ← required_bead e
    known_bead t bead
    p ← payload e (S.as_agent_stalled e.payload)
    non_empty e "session" p.session
    non_empty e "agent" p.agent
    non_empty e "threshold" p.threshold
    refuse_if (not (contains stall_actions p.action)) (bad e (unknown_action p.action))
    refuse_if (p.action == "nudge_failed" && none_or_empty p.error)
        (bad e nudge_failed_without_error)
    refuse_if (is_some p.via && not (p.action == "nudge" || p.action == "nudge_failed"))
        (bad e via_not_allowed)

  unfoldable pub patrol_degraded : Event Value → Result (Unit {0})
  patrol_degraded e = do p ← payload e (S.as_patrol_degraded e.payload); non_empty e "error" p.error

  unfoldable pub dispatch_live_tree : Tables → Event Value → Result (Unit {0})
  dispatch_live_tree t e = do
    bead ← required_bead e
    known_bead t bead
    p ← payload e (S.as_dispatch_live_tree e.payload)
    non_empty e "path" p.path
    non_empty e "agent" p.agent

  unfoldable pub check_passed : Tables → Event Value → Result (Unit {0})
  check_passed t e = do
    bead ← required_bead e
    known_bead t bead
    p ← payload e (S.as_check_passed e.payload)
    non_empty e "run_id" p.run_id
    non_empty e "step_id" p.step_id
    refuse_if (eqb p.attempt 0) (bad e attempts_start_at_one)

  unfoldable pub check_failed : Tables → Event Value → Result (Unit {0})
  check_failed t e = do
    bead ← required_bead e
    known_bead t bead
    p ← payload e (S.as_check_failed e.payload)
    non_empty e "run_id" p.run_id
    non_empty e "step_id" p.step_id
    refuse_if (eqb p.attempt 0) (bad e attempts_start_at_one)
    refuse_if
        (is_none p.exit_code && is_none p.signal && not (is_true p.timed_out) && is_none p.error)
        (bad e no_evidence)
    refuse_if (some_empty p.error) (bad e empty_error)

  unfoldable pub run_finalized : Tables → Event Value → Result (Unit {0})
  run_finalized t e = do
    bead ← required_bead e
    known_bead t bead
    p ← payload e (S.as_run_finalized e.payload)
    non_empty e "run_id" p.run_id
    non_empty e "root" p.root
    refuse_if (not (bead == p.root)) (bad e (not_the_root bead p.root))
    refuse_if (not (contains camp_outcomes p.outcome))
        (bad e (not_in_vocabulary "outcome" p.outcome))
    refuse_if (not (contains camp_run_dispositions p.final_disposition))
        (bad e (not_in_vocabulary "final_disposition" p.final_disposition))
    refuse_if (below_one p.cause_seq) (bad e not_a_seq)

  unfoldable pub control_failed : Event Value → Result (Unit {0})
  control_failed e = do
    p ← payload e (S.as_control_failed e.payload)
    non_empty e "reason" p.reason
    refuse_if (is_none (parse_cause p.cause)) (bad e (unknown_cause p.cause))
