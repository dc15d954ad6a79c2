-- ===== src/Examples/Life.antt =====
-- Runs of the state tables.
use gascamp.Common
use gascamp.Common.{◌≡◌, refl, none, some, List, [], ◌∷◌, String, false}
use gascamp.Error.{ok}
use gascamp.Event.{EventType, Event}
use gascamp.Fold
use gascamp.Fold.{apply}
use gascamp.Fold.Beads
use gascamp.Fold.Sessions
use gascamp.Fold.Metadata
use gascamp.Fold.Rows
use gascamp.Fold.Metadata.{write_meta, column_of, meta_value, put_meta, exclusive_drain_reservation}
use gascamp.Fold.Metadata.Reservation.{write_meta_lem}
use gascamp.Fold.Sessions.{session_ended, is_held_by, released}
use gascamp.Invariants.Crash.{HasEnded, session_end_lem}
use gascamp.Payload.{SessionEnd}
use gascamp.Schema.{
  Tables, no_rows, Bead, in_progress, closed, Session, live, stopped, crashed, Permission, decided,
}
use gascamp.Invariants.Integrity.{HasReferences, references_hold, HasKeys, keys_unique}
use gascamp.Invariants.Verdict.{verdict, IsSettled, close_is_final}
use gascamp.Invariants.Coherence.{IsCoherent, beads-IsCoherent}
use gascamp.Invariants.Permissions.{IsDecided, first_answer_wins}
use gascamp.Invariants.Sessions.{IsOver, ended_is_final}
use gascamp.Examples.History.{camp, camp_reached, first_bead, first_row}
use gascamp.Examples.Camp.{Json, json, event, a_patch, an_end, null, waking, tables_or}

references_hold_example : HasReferences camp.tables
references_hold_example = references_hold json camp_reached

keys_unique_example : HasKeys camp.tables
keys_unique_example = keys_unique json camp_reached

beads-IsCoherent_example : IsCoherent first_bead
beads-IsCoherent_example = beads-IsCoherent json camp_reached "gc-1" first_bead first_row

-- a closed bead, and an update of its title
abbrev closed_bead : Bead
closed_bead = record first_bead { status = closed; outcome = some "pass"; closed_ts = some "t" }

abbrev closed_camp : Tables
closed_camp = record no_rows { beads = closed_bead ∷ [] }

abbrev retitled : Event Json
retitled =
    event EventType.bead_updated "gc-1"
      (a_patch (record { title = some "New"; description = none; metadata = [] }))

abbrev after_retitled : Tables
after_retitled = tables_or (apply json retitled closed_camp) closed_camp

accepted_retitled : apply json retitled closed_camp ≡ ok after_retitled
unfolding Fold.apply Fold.handle Beads.bead_updated Metadata.update_each Rows.update_beads
    Rows.rewrite_body_search_row Common.find Common.update_where Common.delete_where Common.is_blank
accepted_retitled = refl

close_is_final_example : IsSettled "gc-1" (verdict closed_bead) after_retitled
close_is_final_example =
    close_is_final json retitled closed_camp "gc-1" (verdict closed_bead) accepted_retitled
      (record {
        bead = closed_bead;
        row = unfold Common.find in refl;
        is_closed = refl;
        says = refl;
      })

-- a decided permission request, and a session that has ended
abbrev answered : Permission
answered = record {
  request_id = "r1";
  session = "camp/dev/1";
  tool_name = "Bash";
  status = decided;
  decision = some "allow";
  decided_by = some "alice";
  requested_ts = "t";
  decided_ts = some "t";
}

abbrev over : Session
over = record {
  name = "camp/dev/0";
  agent = "dev";
  rig = none;
  claude_session_id = none;
  transcript_path = none;
  pid = none;
  status = stopped;
  bead = none;
  spawned_ts = "t";
  ended_ts = some "u";
}

abbrev quiet_camp : Tables
quiet_camp = record no_rows { permissions = answered ∷ []; sessions = over ∷ [] }

abbrev woken : Event Json
woken = event EventType.session_woke "gc-1" waking

abbrev after_woken : Tables
after_woken = tables_or (apply json woken quiet_camp) quiet_camp

accepted_woken : apply json woken quiet_camp ≡ ok after_woken
unfolding Fold.apply Fold.handle Sessions.session_woke Sessions.clear_failure
    Sessions.insert_session Sessions.new_session Common.find
accepted_woken = refl

first_answer_wins_example : IsDecided "r1" answered after_woken
first_answer_wins_example =
    first_answer_wins json woken quiet_camp "r1" answered accepted_woken
      (record { row = unfold Common.find in refl; answered = refl })

ended_is_final_example : IsOver "camp/dev/0" stopped (some "u") after_woken
ended_is_final_example =
    ended_is_final json woken quiet_camp "camp/dev/0" stopped (some "u") accepted_woken (record {
      session = over;
      row = unfold Common.find in refl;
      over = refl;
      at = refl;
      since = refl;
    })

-- a drain reserves the first bead
abbrev reserving : Event Json
reserving = event EventType.bead_updated "gc-1" null

abbrev after_reserving : Tables
after_reserving =
    tables_or (write_meta reserving "gc-1" exclusive_drain_reservation "gc-9" closed_camp)
      closed_camp

accepted_reserving :
    write_meta reserving "gc-1" exclusive_drain_reservation "gc-9" closed_camp ≡ ok after_reserving
unfolding write_meta column_of meta_value put_meta
accepted_reserving = refl

write_meta_lem_example :
    (meta_value "gc-1" exclusive_drain_reservation after_reserving.bead_meta ≡ some "gc-9")
    × ((holder : String)
        → exclusive_drain_reservation ≡ exclusive_drain_reservation
        → meta_value "gc-1" exclusive_drain_reservation closed_camp.bead_meta ≡ some holder
        → holder ≡ "gc-9")
write_meta_lem_example =
    write_meta_lem reserving "gc-1" exclusive_drain_reservation "gc-9" closed_camp after_reserving
      accepted_reserving

-- a session crashes while it holds a bead
abbrev held_bead : Bead
held_bead = record first_bead { status = in_progress; claimed_by = some "camp/dev/2" }

abbrev busy : Session
busy = record over { name = "camp/dev/2"; status = live; ended_ts = none }

abbrev busy_camp : Tables
busy_camp = record no_rows { beads = held_bead ∷ []; sessions = busy ∷ [] }

abbrev crash : SessionEnd
crash = record {
  name = "camp/dev/2";
  exit_code = none;
  signal = none;
  reason = none;
  cause_seq = none;
}

abbrev crash_event : Event Json
crash_event = event EventType.session_crashed "gc-1" (an_end crash)

abbrev after_crash : Tables
after_crash = tables_or (apply json crash_event busy_camp) busy_camp

accepted_crash : apply json crash_event busy_camp ≡ ok after_crash
unfolding Fold.apply Fold.handle session_ended Sessions.end_at Sessions.release
    Sessions.update_sessions Rows.update_beads Common.find Common.update_where
accepted_crash = refl

session_end_lem_example :
    (crash_event.kind ≡ EventType.session_crashed
      → HasEnded crashed "camp/dev/2" "t" busy_camp after_crash)
    × (crash_event.kind ≡ EventType.session_stopped
        → HasEnded stopped "camp/dev/2" "t" busy_camp after_crash)
session_end_lem_example =
    session_end_lem json crash_event crash busy_camp after_crash refl accepted_crash
