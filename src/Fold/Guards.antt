-- ===== src/Fold/Guards.antt =====
-- crates/camp-core/src/ledger/fold.rs: the checks that the handlers share.
use gascamp.Common.{String, Option, none, some, is_empty, is_none}
use gascamp.Error.{
  CoreError, Reason, Result, ok, err, invalid_event_data, malformed, missing_bead_id, empty,
  unknown_bead, refuse_if, ok_or,
}
use gascamp.Event.{Event, as_str}
use gascamp.Schema.{Tables, Bead, BeadStatus, bead_row}
use gascamp.Payload.{Decoded, parsed, refused}

module _ {V : Type 0} where
  abbrev pub bad : Event V → Reason → CoreError
  bad e r = invalid_event_data (as_str e.kind) r

  abbrev pub payload {ℓ} : {A : Type ℓ} → Event V → Decoded A → Result A
  payload e (parsed p) = ok p
  payload e (refused why) = err (bad e (malformed why))

  abbrev pub required_bead : Event V → Result String
  required_bead e = ok_or e.bead (bad e missing_bead_id)

  abbrev pub non_empty : Event V → String → String → Result (Unit {0})
  non_empty e field value = refuse_if (is_empty value) (bad e (empty field))

abbrev pub status_of : Option Bead → Option BeadStatus
status_of none = none
status_of (some b) = some b.status

-- `SELECT status FROM beads WHERE id = ?1`
abbrev pub bead_status : Tables → String → Option BeadStatus
bead_status t id = status_of (bead_row t id)

abbrev pub known_bead : Tables → String → Result (Unit {0})
known_bead t id = refuse_if (is_none (bead_status t id)) (unknown_bead id)
