-- ===== src/Run/DeadEnd/Closes.antt =====
-- crates/camp-core/src/formula/runtime.rs: what the batch of `dead_end_inputs` closes.
use gascamp.Common.{
  ◌≡◌, refl, true, some, ◌∷◌, All, ◌∙◌, ℕ, String, List, [], ◌++◌, ◌&&◌, any, contains, is_text,
}
use gascamp.Schema.{Tables, Bead, bead_row}
use gascamp.Event.{EventType}
use gascamp.Run.DeadEnd.{
  Input, close_data, finalized_data, run_bead_ids, skip_steps, dead_end_inputs,
}
use gascamp.Run.DeadEnd.Loop.{is_skip, skips, skip_steps-only, skip_steps-skips, skip_steps-notes}
use gascamp.Run.DeadEnd.Stranded.{is_stranded, closes_row, notes_rows}
use gascamp.Run.DeadEnd.Root.{IsRun, finds_root, is_left_open, left_open}

-- The two events that end the run at its root.
abbrev pub root_ends : String → ℕ → String → String → Bead → List String → List Input
root_ends run cause_seq reason root b skipped =
    record {
      kind = EventType.bead_closed;
      rig = some b.rig;
      actor = "campd";
      bead = some root;
      payload = close_data "fail" reason;
    }
    ∷ record {
      kind = EventType.run_finalized;
      rig = some b.rig;
      actor = "campd";
      bead = some root;
      payload = finalized_data (record {
        run_id = run;
        root = root;
        outcome = "fail";
        final_disposition = "hard_fail";
        cause_seq = cause_seq;
        soft_failed = [];
        skipped = skipped;
      });
    }
    ∷ []

-- The batch: the inputs that close the beads of the run as skipped, and those that end it at the root.
pub record IsDeadEnd (t : Tables) (run : String) (cause_seq : ℕ) (reason root : String) (b : Bead)
    (inputs : List Input) : Type 0 where
  pub closes : List Input
  pub skipped : List String
  pub all : inputs ≡ closes ++ root_ends run cause_seq reason root b skipped
  pub only : All (λ i. is_skip reason i ≡ true) closes
  pub closes_open :
      (id : String) → any (skips reason id) closes ≡ is_left_open run root (bead_row t id)
  pub skipped_open :
      (s : String)
      → contains skipped s ≡ any (λ b. is_stranded run b && is_text s b.step_id) t.beads

-- For a run whose root is not closed and is its only bead without a step, as a run without members is: the
-- batch first closes as skipped, and does nothing else, exactly the beads of the run other than the root that
-- are not closed; then it closes the root as failed and ends the run there as a hard failure, with the steps of those beads listed as skipped.
pub dead_end_inputs-IsDeadEnd :
    (t : Tables) (run : String) (cause_seq : ℕ) (reason root : String) (b : Bead)
    → IsRun t run root b
    → IsDeadEnd t run cause_seq reason root b (dead_end_inputs t run cause_seq reason)
unfolding dead_end_inputs any
dead_end_inputs-IsDeadEnd t run cause_seq reason root b r =
    let beads = run_bead_ids t run in
    let batch = skip_steps t reason beads ([], []) in
    record {
      closes = batch.0;
      skipped = batch.1;
      all = rw (dead_end_inputs, finds_root t run root b r, r.row, r.going) refl;
      only = skip_steps-only t reason beads ([], []) tt;
      closes_open = λ id.
          skip_steps-skips t reason id beads ([], [])
          ∙ closes_row t run id r.keys
          ∙ left_open t run root id b r;
      skipped_open = λ s. skip_steps-notes t reason s beads ([], []) ∙ notes_rows t run s r.keys;
    }
