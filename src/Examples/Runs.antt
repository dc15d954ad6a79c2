-- ===== src/Examples/Runs.antt =====
-- Runs of the walk along needs, of the verdict of a run, and of labels and actors.
use mathlib.Core.Path.{subst}
use gascamp.Common
use gascamp.Common.{
  ◌==◌, ◌≡◌, refl, ℕ, ◌≤◌, Option, none, some, List, [], ◌∷◌, String, Bool, true, false, ◌&&◌,
  contains, arith, ◌↔◌, All, not, any, eq_iff, is_empty, if◌then◌else◌,
}
use gascamp.Error.{Result, ok}
use gascamp.Schema.{Tables, Bead, BeadStatus, open', closed, no_rows, ℤ, pos}
use gascamp.Ids.{i64_max}
use gascamp.Ids.Unsigned.{u64_max}
use gascamp.Ledger.{Db}
use gascamp.Run.Needs
use gascamp.Run.Needs.{unsatisfiable}
use gascamp.Run.Needs.Verdict.{WaitsFor, one, more, Needs, Unsatisfiable, Satisfiable}
use gascamp.Run.Needs.Returns.{IsVerdict, unsatisfiable-IsVerdict, unsatisfiable_iff}
use gascamp.Run.Finalization.{RunContext, RunVerdict, finalization}
use gascamp.Run.Finalization.Verdicts.{IsExplained, finalization-IsExplained}
use gascamp.Run.Labels.{
  drain_label, parse_drain_label, bond_label, parse_bond_label, labels_read_back,
}
use gascamp.Orders.{
  PendingCook, cook_actor, parse_cook_actor, unresponded_fires, responded, fire_response_exists,
}
use gascamp.Orders.Actors.{parse_cook_actor-cook_actor}
use gascamp.Orders.Pending.{is_fired, is_queued, unresponded_fires_lem}
use gascamp.Orders
use gascamp.Ids
use gascamp.Ids.Unsigned
use gascamp.Ledger
use gascamp.Event
use gascamp.Event.{Event, EventType}
use gascamp.Examples.Camp.{Json, null}
use gascamp.Examples.History.{camp}

abbrev bead : String → BeadStatus → Option String → Bead
bead id status outcome = record {
  id = id;
  rig = "gc";
  kind = "task";
  title = id;
  description = "";
  status = status;
  assignee = none;
  claimed_by = none;
  outcome = outcome;
  close_reason = none;
  work_outcome = none;
  work_commit = none;
  work_branch = none;
  final_disposition = none;
  dispatch_failure = none;
  labels = [];
  run_id = none;
  step_id = none;
  created_ts = "t";
  updated_ts = "t";
  closed_ts = none;
}

-- a run of two steps: the first has failed, and the second needs it
abbrev tables : Tables
tables = record no_rows {
  beads = bead "gc-1" open' none ∷ bead "gc-2" closed (some "fail") ∷ bead "gc-3" open' none ∷ [];
  deps = record { bead_id = "gc-3"; needs_id = "gc-2" } ∷ [];
}

unsatisfiable-IsVerdict_example :
    (r : Result Bool) × (unsatisfiable tables "gc-3" ≡ some r) × IsVerdict tables "gc-3" r
unsatisfiable-IsVerdict_example = unsatisfiable-IsVerdict tables "gc-3"

third_never : unsatisfiable tables "gc-3" ≡ some (ok true)
unfolding unsatisfiable Needs.unsatisfiable_walk Needs.unsatisfiable_needs Common.find Common.select
third_never = refl

only_row : (b c : String) → Needs tables b c → (("gc-3" == b) && (c == "gc-2")) ≡ true
unfolding Common.select
only_row b c h = ground (arith, h)

waits_only : {b c : String} → WaitsFor tables b c → (("gc-3" == b) && (c == "gc-2")) ≡ true
waits_only {b} {c} (one n o) = only_row b c n
waits_only {b} {c} (more mid w n o) = absurd (
    let first = waits_only w in
    let later = only_row mid c n in
    let same : mid ≡ "gc-2" = (eq_iff mid "gc-2").0 (ground (arith, first)) in
    let other : ("gc-3" == "gc-2") ≡ true =
      subst (λ m. ("gc-3" == m) ≡ true) same (ground (arith, later)) in
    cc)

no_cycle : (b : String) → ¬ WaitsFor tables b b
no_cycle b w = absurd (
    let both = waits_only w in
    let same : b ≡ "gc-2" = (eq_iff b "gc-2").0 (ground (arith, both)) in
    let other : ("gc-3" == "gc-2") ≡ true =
      subst (λ m. ("gc-3" == m) ≡ true) same (ground (arith, both)) in
    cc)

unsatisfiable_iff_example :
    ((unsatisfiable tables "gc-3" ≡ some (ok true)) ↔ Unsatisfiable tables "gc-3")
    × ((unsatisfiable tables "gc-3" ≡ some (ok false)) ↔ Satisfiable tables "gc-3")
unsatisfiable_iff_example = unsatisfiable_iff tables no_cycle "gc-3"

abbrev run : RunContext
run = record {
  run_id = "run-1";
  root = "gc-1";
  steps = "build" ∷ "test" ∷ [];
  anchors = record { step = "build"; bead = "gc-2" } ∷ record { step = "test"; bead = "gc-3" } ∷ [];
}

abbrev db : Db Json
db = record camp { tables = tables }

abbrev no_texts : Json → String → Option String
no_texts _ _ = none

abbrev no_ints : Json → String → Option ℤ
no_ints _ _ = none

finalization-IsExplained_example :
    (r : Result RunVerdict) × (finalization no_texts db run ≡ some r)
    × IsExplained no_texts db run r
finalization-IsExplained_example =
    finalization-IsExplained no_texts db run (unfold Common.find in (refl, (refl, tt)))

labels_read_back_example :
    (parse_drain_label (drain_label "gc-7" 3) ≡ some ("gc-7", 3))
    × (parse_bond_label (bond_label "gc-7" 3) ≡ some ("gc-7", 3))
    × (parse_bond_label (drain_label "gc-7" 3) ≡ none)
    × (parse_drain_label (bond_label "gc-7" 3) ≡ none)
labels_read_back_example = labels_read_back "gc-7" 3 refl (omega arith)

parse_cook_actor-cook_actor_example :
    parse_cook_actor (cook_actor "nightly" 41) ≡ some ("nightly", pos 41)
parse_cook_actor-cook_actor_example = parse_cook_actor-cook_actor "nightly" 41 refl (omega arith)

abbrev order_event : ℕ → EventType → String → Event Json
order_event seq kind actor = record {
  seq = seq;
  ts = "t";
  kind = kind;
  rig = none;
  actor = actor;
  bead = none;
  payload = null;
}

-- a fire that was cooked, and one that was not
abbrev fires : Db Json
fires = record camp {
  events =
      order_event 7 EventType.order_fired "campd"
      ∷ order_event 8 EventType.run_cooked "order:nightly:7"
      ∷ order_event 9 EventType.order_fired "campd"
      ∷ [];
}

abbrev nightly : Json → String → Option String
nightly _ key = if key == "order" then some "nightly" else none

abbrev left : List PendingCook
left = record { order = "nightly"; fired_seq = 9 } ∷ []

left_pending : unresponded_fires nightly no_ints fires ≡ ok left
unfolding unresponded_fires Orders.collect Orders.responded Orders.pending_cook_from_fired
    Orders.parse_cook_actor Orders.parse_signed Ledger.events_of_type Common.select Common.any
    Common.strip_prefix Common.rsplit_once Unsigned.parse_unsigned Unsigned.digits_of Ids.all_digits
    Ids.digits_value Event.as_str
left_pending = refl

unresponded_fires_lem_example :
    (is_queued nightly no_ints 9 left ≡ (
      any (is_fired nightly no_ints 9) fires.events
      && not (responded nightly no_ints fires (pos 9))))
    × ((name : String)
        → (not (is_empty name)
            && fire_response_exists nightly no_ints fires name 9
            && is_queued nightly no_ints 9 left)
          ≡ false)
unresponded_fires_lem_example =
    unresponded_fires_lem nightly no_ints fires left 9 left_pending (omega arith)
