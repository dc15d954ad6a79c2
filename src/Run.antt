-- ===== src/Run.antt =====
-- crates/camp-core/src/formula/runtime.rs: the reads of a run on the ledger, and the verdict that
-- finalizes it. `fields` stands for serde_json: the texts of a payload's JSON object, by key.
pub mod Needs
pub mod Finalization
pub mod Labels
pub mod DeadEnd
use gascamp.Common.{
  ℕ, zero, suc, String, Bool, true, false, not, ◌&&◌, Option, none, some, List, [], ◌∷◌, ◌++◌, map,
  find, any, select, is_text, is_none, length, if◌then◌else◌, ◌==◌, is_some,
}
use gascamp.Error.{Result, ok, err, corrupt, ok_or, ◌>>=◌, ◌>>◌}
use gascamp.Event.{Event, EventType, as_str}
use gascamp.Schema.{Tables, Bead, is_closed, bead_row}
use gascamp.Ledger.{Db}
use gascamp.Readiness.{BeadRow, get_bead, is_run_root}

pub record RunMembership : Type 0 where
  pub run_id : String
  pub step_id : Option String

unfoldable pub run_membership : Tables → String → Option RunMembership
run_membership t bead = elim (bead_row t bead) [
  | none ↦ none
  | some b ↦ elim b.run_id [
    | none ↦ none
    | some run ↦ some (record { run_id = run; step_id = b.step_id })
  ]
]

abbrev pub is_of_step : String → String → Bead → Bool
is_of_step run step b = is_text run b.run_id && is_text step b.step_id

abbrev pub is_kind_of : {V : Type 0} → EventType → Event V → Bool
is_kind_of kind e = as_str e.kind == as_str kind

-- the JOIN: the bead of a `bead.created` event, if it is one of the step's
abbrev pub created_in : {V : Type 0} → Tables → String → String → Event V → Bool
created_in t run step e = elim e.bead [
  | none ↦ false
  | some id ↦
      is_kind_of EventType.bead_created e
      && elim (bead_row t id) [ none ↦ false | some b ↦ is_of_step run step b ]
]

abbrev pub ids_of : {V : Type 0} → List (Event V) → List String
ids_of [] = []
ids_of (e ∷ rest) = elim e.bead [ none ↦ ids_of rest | some id ↦ id ∷ ids_of rest ]

unfoldable pub rows_of : Tables → List String → Result (List BeadRow)
rows_of t [] = ok []
rows_of t (id ∷ rest) = do
  row ← ok_or (get_bead t id) (corrupt "bead vanished mid-query")
  rows ← rows_of t rest
  ok (row ∷ rows)

-- in the order of `e.seq`, that of the log
unfoldable pub run_step_beads : {V : Type 0} → Db V → String → String → Result (List BeadRow)
run_step_beads db run step =
    rows_of db.tables (ids_of (select (created_in db.tables run step) db.events))

unfoldable pub attempts : {V : Type 0} → Db V → String → String → String → Result (List BeadRow)
attempts db run step anchor = do
  rows ← run_step_beads db run step
  ok (select (λ (b : BeadRow). not (b.id == anchor)) rows)

abbrev pub is_event_of : {V : Type 0} → EventType → String → Event V → Bool
is_event_of kind bead e = is_text bead e.bead && is_kind_of kind e

abbrev pub first_payload : {V : Type 0} → List (Event V) → Option V
first_payload [] = none
first_payload (e ∷ _) = some e.payload

unfoldable pub last_payload : {V : Type 0} → List (Event V) → Option V
last_payload [] = none
last_payload (e ∷ rest) = elim (last_payload rest) [ none ↦ some e.payload | some v ↦ some v ]

unfoldable pub created_event_data : {V : Type 0} → Db V → String → Option V
created_event_data db bead =
    first_payload (select (is_event_of EventType.bead_created bead) db.events)

unfoldable pub close_event_data : {V : Type 0} → Db V → String → Option V
close_event_data db bead = last_payload (select (is_event_of EventType.bead_closed bead) db.events)

abbrev pub has_outcome : String → BeadRow → Bool
has_outcome outcome b = is_closed b.status && is_text outcome b.outcome

unfoldable pub check_runs_used : List BeadRow → ℕ
check_runs_used rows = length (select (has_outcome "pass") rows)

module _ {V : Type 0} (fields : V → String → Option String) where
  abbrev pub field_is : String → String → Option V → Bool
  field_is key word none = false
  field_is key word (some data') = is_text word (fields data' key)

  abbrev pub is_transient_fail : Db V → BeadRow → Bool
  is_transient_fail db b =
      has_outcome "fail" b && field_is "failure_class" "transient" (close_event_data db b.id)

  unfoldable pub transient_fails_used : Db V → List BeadRow → ℕ
  transient_fails_used db rows = length (select (is_transient_fail db) rows)
