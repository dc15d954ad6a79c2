-- ===== src/Examples/Log.antt =====
-- Runs of the ledger.
use gascamp.Common
use gascamp.Common.{◌≡◌, ◌↔◌, refl, ℕ, List, [], ◌∷◌, ◌++◌, ◌⊎◌, length}
use gascamp.Error.{CoreError, Result, ok, err}
use gascamp.Event.{Event}
use gascamp.Ids
use gascamp.Fold
use gascamp.Fold.Beads
use gascamp.Fold.Metadata
use gascamp.Fold.Rows
use gascamp.Ledger
use gascamp.Ledger.{Db, new_db, append_batch, append, append_on, in_transaction}
use gascamp.Ledger.Log.{IsCommitted, append_batch_atomic}
use gascamp.Refold.{RefoldReport, build_shadow, refold_check, refold_repair}
use gascamp.Refold.Exact.{build_shadow_exact}
use gascamp.Refold.Drift.{AgreeWith, refold_check_lem}
use gascamp.Refold.Repair.{refold_repair_exact}
use gascamp.Schema.{no_rows}
use gascamp.Examples.History.{camp, camp_reached}
use gascamp.Examples.Camp.{Json, json, two_beads}

append_batch_atomic_example :
    ((e : CoreError) × (append_batch json "t" two_beads (new_db Json) ≡ (err e, new_db Json)))
    ⊎ ((seqs : List ℕ) × (db' : Db Json) × (append_batch json "t" two_beads (new_db Json)
          ≡ (ok seqs, db'))
        × IsCommitted json "t" two_beads (new_db Json) seqs db')
append_batch_atomic_example = append_batch_atomic json "t" two_beads (new_db Json)

build_shadow_exact_example : build_shadow json camp ≡ ok (length camp.events, camp.tables)
build_shadow_exact_example = build_shadow_exact json camp_reached

-- the same log, with the state tables lost
abbrev lost : Db Json
lost = record camp { tables = no_rows }

lost_replays : build_shadow json lost ≡ ok (length camp.events, camp.tables)
unfolding build_shadow
lost_replays = unfold build_shadow in build_shadow_exact json camp_reached

refold_check_lem_example :
    (report : RefoldReport) × (refold_check json lost ≡ ok report)
    × (report.events_replayed ≡ length camp.events)
    × ((report.drift ≡ []) ↔ AgreeWith no_rows camp.tables)
refold_check_lem_example = refold_check_lem json lost (length camp.events) camp.tables lost_replays

refold_repair_exact_example :
    refold_repair json lost
    ≡ ok (
      record { events_replayed = length camp.events; drift = [] },
      record lost { tables = camp.tables },
    )
refold_repair_exact_example =
    refold_repair_exact json lost (length camp.events) camp.tables lost_replays

-- a consumer that remembers the numbers of the events that it has seen
abbrev remember : Event Json → List ℕ → Db Json → Result (Db Json) × List ℕ
remember e seen db = (ok db, seen ++ e.seq ∷ [])
