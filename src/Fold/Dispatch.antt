-- ===== src/Fold/Dispatch.antt =====
-- crates/camp-core/src/ledger/fold.rs: the marker of a failed dispatch (`dispatch_failed`,
-- `dispatch_rearmed`).
use gascamp.Common.{String, some}
use gascamp.Error.{Result, ok, ◌>>=◌, ◌>>◌}
use gascamp.Event.{Event}
use gascamp.Schema.{Tables, Bead}
use gascamp.Payload.{Serde}
use gascamp.Fold.Guards.{payload, required_bead, known_bead, non_empty}
use gascamp.Fold.Rows.{update_beads, with_id, with_failure}
use gascamp.Common.{none}

abbrev pub failed_with : String → String → Bead → Bead
failed_with ts reason b = record b { dispatch_failure = some reason; updated_ts = ts }

abbrev pub rearmed : String → Bead → Bead
rearmed ts b = record b { dispatch_failure = none; updated_ts = ts }

module _ (S : Serde) where
  open S use {Value}

  unfoldable pub dispatch_failed : Event Value → Tables → Result Tables
  dispatch_failed e t = do
    bead ← required_bead e
    known_bead t bead
    p ← payload e (S.as_dispatch_failed e.payload)
    non_empty e "reason" p.reason
    ok (update_beads (with_id bead) (failed_with e.ts p.reason) t)

  unfoldable pub dispatch_rearmed : Event Value → Tables → Result Tables
  dispatch_rearmed e t = do
    bead ← required_bead e
    known_bead t bead
    p ← payload e (S.as_dispatch_rearmed e.payload)
    non_empty e "previous_reason" p.previous_reason
    ok (update_beads (with_failure bead) (rearmed e.ts) t)
