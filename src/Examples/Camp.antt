-- ===== src/Examples/Camp.antt =====
-- A payload format with the payloads of a few events, and a camp.
use gascamp.Common.{String, Option, none, some, List, [], ◌∷◌}
use gascamp.Error.{Result, ok, err}
use gascamp.Event.{EventType, Event, EventInput}
use gascamp.Schema.{Tables}
use gascamp.Payload.{
  Serde, Decoded, parsed, refused, BeadCreated, BeadClaimed, BeadUpdated, BeadClosed, SessionWoke,
  SessionEnd, PermissionPending, PermissionDecided,
}

-- `a_close` carries the outcome.
pub data Json : Type 0 where
  null : Json
  a_bead : BeadCreated → Json
  a_claim : BeadClaimed → Json
  a_patch : BeadUpdated → Json
  a_session : SessionWoke → Json
  an_end : SessionEnd → Json
  a_request : PermissionPending → Json
  an_answer : PermissionDecided → Json
  a_close : String → Json

abbrev pub decode {ℓ} : {A : Type ℓ} → Option A → Decoded A
decode (some a) = parsed a
decode none = refused "not of this shape"

abbrev bead_created_of : Json → Option BeadCreated
bead_created_of (a_bead p) = some p
bead_created_of _ = none

abbrev bead_claimed_of : Json → Option BeadClaimed
bead_claimed_of (a_claim p) = some p
bead_claimed_of _ = none

abbrev bead_updated_of : Json → Option BeadUpdated
bead_updated_of (a_patch p) = some p
bead_updated_of _ = none

abbrev session_woke_of : Json → Option SessionWoke
session_woke_of (a_session p) = some p
session_woke_of _ = none

abbrev session_end_of : Json → Option SessionEnd
session_end_of (an_end p) = some p
session_end_of _ = none

abbrev permission_pending_of : Json → Option PermissionPending
permission_pending_of (a_request p) = some p
permission_pending_of _ = none

abbrev permission_decided_of : Json → Option PermissionDecided
permission_decided_of (an_answer p) = some p
permission_decided_of _ = none

abbrev bead_closed_of : Json → Option (BeadClosed Json)
bead_closed_of (a_close outcome) = some (record {
  outcome = outcome;
  reason = none;
  failure_class = none;
  final_disposition = none;
  output = none;
  work_outcome = none;
  work_commit = none;
  work_branch = none;
})
bead_closed_of _ = none

abbrev pub json : Serde
json = record {
  Value = Json;
  as_bead_created = λ v. decode (bead_created_of v);
  as_bead_claimed = λ v. decode (bead_claimed_of v);
  as_bead_updated = λ v. decode (bead_updated_of v);
  as_bead_closed = λ v. decode (bead_closed_of v);
  as_rig_added = λ _. decode none;
  as_campd_autostarted = λ _. decode none;
  as_run_cooked = λ _. decode none;
  as_formula_refused = λ _. decode none;
  as_worker_milestone = λ _. decode none;
  as_worktree_kept = λ _. decode none;
  as_bead_worktree_reaped = λ _. decode none;
  as_agent_stalled = λ _. decode none;
  as_patrol_degraded = λ _. decode none;
  as_dispatch_failed = λ _. decode none;
  as_dispatch_rearmed = λ _. decode none;
  as_dispatch_live_tree = λ _. decode none;
  as_check_passed = λ _. decode none;
  as_check_failed = λ _. decode none;
  as_run_finalized = λ _. decode none;
  as_session_woke = λ v. decode (session_woke_of v);
  as_session_nudged = λ _. decode none;
  as_session_pid = λ _. decode none;
  as_session_end = λ v. decode (session_end_of v);
  as_order_fired = λ _. decode none;
  as_order_completed = λ _. decode none;
  as_order_failed = λ _. decode none;
  as_config_changed = λ _. decode none;
  as_session_interrupted = λ _. decode none;
  as_control_responded = λ _. decode none;
  as_control_failed = λ _. decode none;
  as_subscriber_dropped = λ _. decode none;
  as_shim_refused = λ _. decode none;
  as_worker_drain_acked = λ _. decode none;
  as_permission_pending = λ v. decode (permission_pending_of v);
  as_permission_decided = λ v. decode (permission_decided_of v);
  as_permission_saturated = λ _. decode none;
}

abbrev pub tables_or : Result Tables → Tables → Tables
tables_or (ok t) _ = t
tables_or (err _) t = t

abbrev task : String → List String → Json
task title needs = a_bead (record {
  title = title;
  bead_type = "task";
  description = "";
  needs = needs;
  labels = [];
  assignee = none;
  run_id = none;
  step_id = none;
  metadata = [];
})

abbrev pub input : EventType → String → Json → EventInput Json
input kind bead payload = record {
  kind = kind;
  rig = some "gc";
  actor = "test";
  bead = some bead;
  payload = payload;
}

abbrev pub event : EventType → String → Json → Event Json
event kind bead payload = record {
  seq = 1;
  ts = "t";
  kind = kind;
  rig = some "gc";
  actor = "test";
  bead = some bead;
  payload = payload;
}

-- two beads, the second needs the first
abbrev pub two_beads : List (EventInput Json)
two_beads =
    input EventType.bead_created "gc-1" (task "First" [])
    ∷ input EventType.bead_created "gc-2" (task "Second" ("gc-1" ∷ []))
    ∷ []

abbrev pub first_closed : String → EventInput Json
first_closed outcome = input EventType.bead_closed "gc-1" (a_close outcome)

abbrev pub waking : Json
waking = a_session (record {
  name = "camp/dev/1";
  agent = "dev";
  rig = none;
  claude_session_id = none;
  transcript_path = none;
  pid = none;
  bead = none;
  worktree = none;
  base = none;
  model = none;
  permission_mode = none;
  allowed_tools = none;
})
