-- ===== src/Examples/DeadEnds.antt =====
-- Runs of the batch that ends a run which cannot advance.
use gascamp.Common
use gascamp.Common.{◌≡◌, refl, String, false, Option, none, some, List, [], ◌∷◌}
use gascamp.Schema.{Tables, no_rows, Bead}
use gascamp.Run.DeadEnd
use gascamp.Run.DeadEnd.{root_of, run_bead_ids, dead_end_inputs}
use gascamp.Run.DeadEnd.Root.{IsRun}
use gascamp.Run.DeadEnd.Closes.{IsDeadEnd, dead_end_inputs-IsDeadEnd}
use gascamp.Examples.History.{first_bead}

abbrev in_run : String → Option String → Bead
in_run id step = record first_bead { id = id; run_id = some "r"; step_id = step }

abbrev a_run : Tables
a_run = record no_rows {
  beads = in_run "gc-1" none ∷ in_run "gc-2" (some "build") ∷ in_run "gc-3" (some "test") ∷ [];
}

is_run : IsRun a_run "r" "gc-1" (in_run "gc-1" none)
unfolding Common.find
is_run = record {
  keys = (refl, (refl, (refl, tt)));
  row = refl;
  of_run = refl;
  no_step = refl;
  going = refl;
  only = (refl, (refl, (refl, tt)));
}

dead_end_inputs-IsDeadEnd_example :
    IsDeadEnd a_run "r" 7 "gone" "gc-1" (in_run "gc-1" none) (dead_end_inputs a_run "r" 7 "gone")
dead_end_inputs-IsDeadEnd_example =
    dead_end_inputs-IsDeadEnd a_run "r" 7 "gone" "gc-1" (in_run "gc-1" none) is_run

-- A member of the run has no step either, and the text of its id may come before that of the root.
abbrev with_member : Tables
with_member = record no_rows {
  beads = in_run "gc-9" none ∷ in_run "gc-10" (some "build") ∷ in_run "gc-12" none ∷ [];
}

member_is_first : root_of (run_bead_ids with_member "r") ≡ some "gc-12"
unfolding root_of run_bead_ids DeadEnd.order_by_id DeadEnd.insert_by_id Common.select
member_is_first = refl
