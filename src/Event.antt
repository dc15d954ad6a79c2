-- ===== src/Event.antt =====
-- crates/camp-core/src/event.rs: the event types and their spellings, and the events.
pub mod Names
use gascamp.Common.{String, ℕ, Option, List, [], ◌∷◌, find}
use gascamp.Error.{Result, unknown_event_type, ok_or}

pub data EventType : Type 0 where
  bead_created bead_claimed bead_updated bead_closed : EventType
  session_woke session_pid session_stopped session_crashed : EventType
  session_nudged campd_started campd_stopped campd_autostarted : EventType
  rig_added run_cooked order_fired order_completed : EventType
  order_failed config_changed worker_milestone worktree_kept : EventType
  bead_worktree_reaped dispatch_failed dispatch_live_tree dispatch_rearmed : EventType
  check_passed check_failed run_finalized agent_stalled : EventType
  patrol_degraded session_stream_capped session_interrupted control_responded : EventType
  control_failed subscriber_dropped import_added import_refused : EventType
  formula_refused shim_refused worker_drain_acked permission_pending : EventType
  permission_decided permission_saturated : EventType

abbrev pub all_types : List EventType
all_types =
    bead_created ∷ bead_claimed ∷ bead_updated ∷ bead_closed ∷ session_woke ∷ session_pid
    ∷ session_stopped ∷ session_crashed ∷ session_nudged ∷ campd_started ∷ campd_stopped
    ∷ campd_autostarted ∷ rig_added ∷ run_cooked ∷ order_fired ∷ order_completed ∷ order_failed
    ∷ config_changed ∷ worker_milestone ∷ worktree_kept ∷ bead_worktree_reaped ∷ dispatch_failed
    ∷ dispatch_live_tree ∷ dispatch_rearmed ∷ check_passed ∷ check_failed ∷ run_finalized
    ∷ agent_stalled ∷ patrol_degraded ∷ session_stream_capped ∷ session_interrupted
    ∷ control_responded ∷ control_failed ∷ subscriber_dropped ∷ import_added ∷ import_refused
    ∷ formula_refused ∷ shim_refused ∷ worker_drain_acked ∷ permission_pending ∷ permission_decided
    ∷ permission_saturated ∷ []

unfoldable pub as_str : EventType → String
as_str bead_created = "bead.created"
as_str bead_claimed = "bead.claimed"
as_str bead_updated = "bead.updated"
as_str bead_closed = "bead.closed"
as_str session_woke = "session.woke"
as_str session_pid = "session.pid"
as_str session_stopped = "session.stopped"
as_str session_crashed = "session.crashed"
as_str session_nudged = "session.nudged"
as_str campd_started = "campd.started"
as_str campd_stopped = "campd.stopped"
as_str campd_autostarted = "campd.autostarted"
as_str rig_added = "rig.added"
as_str run_cooked = "run.cooked"
as_str order_fired = "order.fired"
as_str order_completed = "order.completed"
as_str order_failed = "order.failed"
as_str config_changed = "config.changed"
as_str worker_milestone = "worker.milestone"
as_str worktree_kept = "worktree.kept"
as_str bead_worktree_reaped = "bead.worktree.reaped"
as_str dispatch_failed = "dispatch.failed"
as_str dispatch_live_tree = "dispatch.live_tree"
as_str dispatch_rearmed = "dispatch.rearmed"
as_str check_passed = "check.passed"
as_str check_failed = "check.failed"
as_str run_finalized = "run.finalized"
as_str agent_stalled = "agent.stalled"
as_str patrol_degraded = "patrol.degraded"
as_str session_stream_capped = "session.stream_capped"
as_str session_interrupted = "session.interrupted"
as_str control_responded = "control.responded"
as_str control_failed = "control.failed"
as_str subscriber_dropped = "subscriber.dropped"
as_str import_added = "import.added"
as_str import_refused = "import.refused"
as_str formula_refused = "formula.refused"
as_str shim_refused = "shim.refused"
as_str worker_drain_acked = "worker.drain_acked"
as_str permission_pending = "permission.pending"
as_str permission_decided = "permission.decided"
as_str permission_saturated = "permission.saturated"

unfoldable pub parse : String → Result EventType
parse s = ok_or (find as_str s all_types) (unknown_event_type s)

-- A committed event, one row of `events`. `V` is the type of JSON values (`serde_json::Value`).
pub record Event (V : Type 0) : Type 0 where
  pub seq : ℕ
  pub ts : String
  pub kind : EventType
  pub rig : Option String
  pub actor : String
  pub bead : Option String
  pub payload : V

-- An event that is about to be appended: the ledger assigns `seq` and `ts`.
pub record EventInput (V : Type 0) : Type 0 where
  pub kind : EventType
  pub rig : Option String
  pub actor : String
  pub bead : Option String
  pub payload : V
