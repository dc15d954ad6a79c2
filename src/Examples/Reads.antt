-- ===== src/Examples/Reads.antt =====
-- Runs of the queries, of the ids and of the patrol.
use gascamp.Common
use gascamp.Common.{
  ◌≡◌, refl, ◌↔◌, ◌≤◌, ◌+◌, ◌*◌, Option, none, some, List, [], ◌∷◌, String, Bool, true, false, ◌&&◌,
  any, contains,
}
use gascamp.Error.{ok}
use gascamp.Event.{EventType, parse, as_str}
use gascamp.Event.Names.{parse_iff}
use gascamp.Ids
use gascamp.Ids.{parse_bead_id, bead_id, next_bead_id}
use gascamp.Ids.Counting.{high_of, next_number}
use gascamp.Invariants.Numbers.{next_bead_id-fresh}
use gascamp.Ids.RoundTrip.{parse_bead_id-bead_id}
use gascamp.Fold
use gascamp.Fold.Beads
use gascamp.Fold.Metadata
use gascamp.Fold.Rows
use gascamp.Fold.Rows.{is_dep}
use gascamp.Ledger
use gascamp.Ledger.{Db, new_db, append_batch}
use gascamp.Schema.{bead_row}
use gascamp.Readiness
use gascamp.Readiness.{
  is_ready, ready_beads, dispatchable_beads, newly_ready, ready_task_count, open_task_count,
}
use gascamp.Readiness.Queries.{
  lists, is_ready-ready_beads, IsDispatchable, dispatchable_beads-IsDispatchable,
}
use gascamp.Readiness.Unblocking.{has_passed, says_yes, newly_ready_lem, no_pass_unblocks_nothing}
use gascamp.Patrol.Timers.{Entry, stall, release}
use gascamp.Patrol.Timers.Firing.{IsFired, fire_due-IsFired}
use gascamp.Patrol.Ladder.{new_ladder}
use gascamp.Patrol.Ladder.Budget.{
  Call, fire, activity, closed, reloaded, ordered_for, closes, restarts_bounded,
}
use gascamp.Examples.History.{camp, camp_reached, first_bead, first_row}
use gascamp.Examples.Camp.{json}

is_ready-ready_beads_example :
    is_ready camp.tables "gc-1" ≡ ok (lists "gc-1" (ready_beads camp.tables none))
is_ready-ready_beads_example = is_ready-ready_beads json camp_reached "gc-1" first_bead first_row

first_listed : lists "gc-1" (dispatchable_beads camp.tables) ≡ true
unfolding append_batch Ledger.insert_all Ledger.insert_and_fold Ledger.committed Fold.apply
    Fold.handle Beads.bead_created Beads.insert_deps Metadata.write_each Rows.insert_bead
    Rows.new_bead Rows.insert_search Rows.insert_dep Ids.bump_counter Ids.parse_bead_id
    Ids.split_once Ids.parse_number Ids.all_digits Ids.leading_zero Ids.parse_i64 Ids.digits_value
    Ids.is_prefix Ids.all_alphanumeric Ids.raise Common.find Common.update_where Common.any
    Common.is_blank new_db Readiness.dispatchable_beads Common.select Readiness.order_by
    Readiness.insert_in_order
first_listed = refl

dispatchable_beads-IsDispatchable_example :
    IsDispatchable json camp_reached "gc-1" first_bead first_row
dispatchable_beads-IsDispatchable_example =
    dispatchable_beads-IsDispatchable json camp_reached "gc-1" first_bead first_row first_listed

newly_ready_lem_example :
    (ids : List String) × (newly_ready camp.tables "gc-1" ≡ ok ids)
    × ((id : String)
        → contains ids id
          ≡ (any (is_dep id "gc-1") camp.tables.deps && says_yes (is_ready camp.tables id)))
newly_ready_lem_example = newly_ready_lem json camp_reached "gc-1"

no_pass_unblocks_nothing_example : newly_ready camp.tables "gc-1" ≡ ok []
no_pass_unblocks_nothing_example = no_pass_unblocks_nothing json camp_reached "gc-1" first_waits
  where
    first_waits : has_passed (bead_row camp.tables "gc-1") ≡ false
    first_waits = rw first_row refl

parse_bead_id-bead_id_example : parse_bead_id (bead_id "gc" 42) ≡ some ("gc", 42)
parse_bead_id-bead_id_example =
    parse_bead_id-bead_id "gc" 42 (unfold Ids.is_prefix Ids.all_alphanumeric in refl)
      (omega Common.arith)

abbrev calls : List (String × Call)
calls =
    ("gc-1", fire)
    ∷ ("gc-2", fire)
    ∷ ("gc-1", fire)
    ∷ ("gc-1", reloaded 2)
    ∷ ("gc-1", activity)
    ∷ ("gc-1", closed)
    ∷ ("gc-1", fire)
    ∷ []

restarts_bounded_example : ordered_for "gc-1" calls (new_ladder 1) ≤ 2 + 2 * closes "gc-1" calls
restarts_bounded_example =
    restarts_bounded "gc-1" calls 1 2 (omega Common.arith) (omega Common.arith, tt)

abbrev timers : List Entry
timers =
    record { session = "camp/dev/1"; kind = stall; deadline = 30; threshold = 10 }
    ∷ record { session = "camp/dev/2"; kind = release; deadline = 20; threshold = 5 }
    ∷ []

fire_due-IsFired_example : IsFired 25 timers
fire_due-IsFired_example = fire_due-IsFired 25 timers

third_id : next_bead_id camp.tables "gc" ≡ ok "gc-3"
unfolding append_batch Ledger.insert_all Ledger.insert_and_fold Ledger.committed Fold.apply
    Fold.handle Beads.bead_created Beads.insert_deps Metadata.write_each Rows.insert_bead
    Rows.new_bead Rows.insert_search Rows.insert_dep Ids.bump_counter Ids.parse_bead_id
    Ids.split_once Ids.parse_number Ids.all_digits Ids.leading_zero Ids.parse_i64 Ids.digits_value
    Ids.is_prefix Ids.all_alphanumeric Ids.raise Common.find Common.update_where Common.any
    Common.is_blank new_db next_bead_id Ids.validate_prefix Ids.counter_high Ids.numbered
    Ids.decimal Ids.decimal_fuel Ids.digit
third_id = refl

next_bead_id-fresh_example :
    (bead_row camp.tables "gc-3" ≡ none)
    × (parse_bead_id "gc-3" ≡ next_number (high_of camp.tables.counters "gc") "gc")
next_bead_id-fresh_example = next_bead_id-fresh json camp_reached "gc" "gc-3" third_id

parse_iff_example :
    (parse "bead.closed" ≡ ok EventType.bead_closed)
    ↔ (as_str EventType.bead_closed ≡ "bead.closed")
parse_iff_example = parse_iff "bead.closed" EventType.bead_closed
