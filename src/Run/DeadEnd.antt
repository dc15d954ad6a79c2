-- ===== src/Run/DeadEnd.antt =====
-- crates/camp-core/src/formula/runtime.rs: `run_bead_ids` and `dead_end_inputs`. The JSON objects that
-- the batch carries are constructors.
pub mod Loop
pub mod Stranded
pub mod Root
pub mod Closes
use Prim.Native.Nat.{Ordering}
use Prim.Native.String.{compare}
use gascamp.Common.{
  ℕ, String, Bool, true, false, Option, none, some, List, [], ◌∷◌, ◌++◌, map, select, contains,
  is_text, if◌then◌else◌,
}
use gascamp.Event.{EventInput, EventType}
use gascamp.Schema.{Tables, Bead, is_closed}
use gascamp.Readiness.{BeadRow, get_bead}

-- the object of the `run.finalized` event
pub record Finalized : Type 0 where
  pub run_id : String
  pub root : String
  pub outcome : String
  pub final_disposition : String
  pub cause_seq : ℕ
  pub soft_failed : List String
  pub skipped : List String

pub data DeadEndData : Type 0 where
  close_data : (outcome reason : String) → DeadEndData
  finalized_data : Finalized → DeadEndData

abbrev pub Input : Type 0
Input = EventInput DeadEndData

abbrev pub StepBead : Type 0
StepBead = String × Option String

-- ORDER BY id
unfoldable pub insert_by_id : StepBead → List StepBead → List StepBead
insert_by_id b [] = b ∷ []
insert_by_id b (x ∷ rest) =
    let later = insert_by_id b rest in
    elim (compare b.0 x.0) [ Ordering.gt ↦ x ∷ later | _ ↦ b ∷ x ∷ rest ]

unfoldable pub order_by_id : List StepBead → List StepBead
order_by_id [] = []
order_by_id (b ∷ rest) = insert_by_id b (order_by_id rest)

unfoldable pub run_bead_ids : Tables → String → List StepBead
run_bead_ids t run =
    order_by_id (map (λ b. (b.id, b.step_id)) (select (λ b. is_text run b.run_id) t.beads))

-- `beads.iter().find(|(_, step)| step.is_none())`
unfoldable pub root_of : List StepBead → Option String
root_of [] = none
root_of ((id, none) ∷ rest) = some id
root_of ((id, some step) ∷ rest) = root_of rest

abbrev pub campd_input : EventType → BeadRow → String → DeadEndData → Input
campd_input kind row bead data' = record {
  kind = kind;
  rig = some row.rig;
  actor = "campd";
  bead = some bead;
  payload = data';
}

-- the inputs and the steps that the loop has gathered
abbrev pub Batch : Type 0
Batch = List Input × List String

abbrev pub noted : String → List String → List String
noted step skipped = if contains skipped step then skipped else skipped ++ step ∷ []

-- a pass of the loop on a bead that has a step
abbrev pub skip_row : String → String → String → Option BeadRow → Batch → Batch
skip_row reason id step none batch = batch
skip_row reason id step (some row) batch = if is_closed row.status then batch else (
  batch.0 ++ campd_input EventType.bead_closed row id (close_data "skipped" reason) ∷ [],
  noted step batch.1,
)

unfoldable pub skip_steps : Tables → String → List StepBead → Batch → Batch
skip_steps t reason [] batch = batch
skip_steps t reason ((id, none) ∷ rest) batch = skip_steps t reason rest batch
skip_steps t reason ((id, some step) ∷ rest) batch =
    skip_steps t reason rest (skip_row reason id step (get_bead t id) batch)

-- what is pushed after the loop
abbrev pub root_inputs : String → ℕ → String → String → BeadRow → List String → List Input
root_inputs run cause_seq reason root row skipped =
    campd_input EventType.bead_closed row root (close_data "fail" reason)
    ∷ campd_input EventType.run_finalized row root (
        finalized_data (record {
          run_id = run;
          root = root;
          outcome = "fail";
          final_disposition = "hard_fail";
          cause_seq = cause_seq;
          soft_failed = [];
          skipped = skipped;
        }))
    ∷ []

unfoldable pub dead_end_inputs : Tables → String → ℕ → String → List Input
dead_end_inputs t run cause_seq reason =
    let beads = run_bead_ids t run in
    elim (root_of beads) [
      | none ↦ []
      | some root ↦ elim (get_bead t root) [
        | none ↦ []
        | some row ↦
            if is_closed row.status
            then []
            else (let batch = skip_steps t reason beads ([], []) in
                batch.0 ++ root_inputs run cause_seq reason root row batch.1)
      ]
    ]
