-- ===== src/Fold.antt =====
-- crates/camp-core/src/ledger/fold.rs: `apply`, how each event changes the state tables. The
-- handlers are in the modules below.
pub mod Guards
pub mod Metadata
pub mod Rows
pub mod Closing
pub mod Beads
pub mod Dispatch
pub mod Sessions
pub mod Permissions
pub mod Orders
pub mod Audit
pub mod Write
use gascamp.Error.{Result, ok, ◌>>=◌, ◌>>◌}
use gascamp.Event.{Event, EventType}
use gascamp.Schema.{Tables, stopped, crashed}
use gascamp.Payload.{Serde}

module _ (S : Serde) where
  open S use {Value}

  -- the `match` on the event's type
  unfoldable pub handle : EventType → Event Value → Tables → Result Tables
  handle EventType.bead_created e t = Beads.bead_created S e t
  handle EventType.bead_claimed e t = Beads.bead_claimed S e t
  handle EventType.bead_updated e t = Beads.bead_updated S e t
  handle EventType.bead_closed e t = Closing.bead_closed S e t
  handle EventType.session_woke e t = Sessions.session_woke S e t
  handle EventType.session_pid e t = Sessions.session_pid S e t
  handle EventType.session_stopped e t = Sessions.session_ended S stopped e t
  handle EventType.session_crashed e t = Sessions.session_ended S crashed e t
  handle EventType.session_nudged e t = Sessions.session_nudged S t e >> ok t
  handle EventType.rig_added e t = Audit.rig_added S e >> ok t
  handle EventType.campd_autostarted e t = Audit.campd_autostarted S e >> ok t
  handle EventType.run_cooked e t = Audit.run_cooked S e >> ok t
  handle EventType.order_fired e t = Orders.order_fired S e >> ok t
  handle EventType.order_completed e t = Orders.order_completed S e >> ok t
  handle EventType.order_failed e t = Orders.order_failed S e >> ok t
  handle EventType.config_changed e t = Orders.config_changed S e >> ok t
  handle EventType.worker_milestone e t = Audit.worker_milestone S t e >> ok t
  handle EventType.worktree_kept e t = Audit.worktree_kept S t e >> ok t
  handle EventType.bead_worktree_reaped e t = Audit.bead_worktree_reaped S t e >> ok t
  handle EventType.dispatch_failed e t = Dispatch.dispatch_failed S e t
  handle EventType.dispatch_rearmed e t = Dispatch.dispatch_rearmed S e t
  handle EventType.dispatch_live_tree e t = Audit.dispatch_live_tree S t e >> ok t
  handle EventType.check_passed e t = Audit.check_passed S t e >> ok t
  handle EventType.check_failed e t = Audit.check_failed S t e >> ok t
  handle EventType.run_finalized e t = Audit.run_finalized S t e >> ok t
  handle EventType.agent_stalled e t = Audit.agent_stalled S t e >> ok t
  handle EventType.patrol_degraded e t = Audit.patrol_degraded S e >> ok t
  handle EventType.session_stream_capped e t = ok t
  handle EventType.campd_started e t = ok t
  handle EventType.campd_stopped e t = ok t
  handle EventType.session_interrupted e t =
      Audit.audit e (S.as_session_interrupted e.payload) >> ok t
  handle EventType.control_responded e t = Audit.audit e (S.as_control_responded e.payload) >> ok t
  handle EventType.control_failed e t = Audit.control_failed S e >> ok t
  handle EventType.subscriber_dropped e t =
      Audit.audit e (S.as_subscriber_dropped e.payload) >> ok t
  handle EventType.import_added e t = ok t
  handle EventType.import_refused e t = ok t
  handle EventType.formula_refused e t = Audit.formula_refused S e >> ok t
  handle EventType.shim_refused e t = Audit.audit e (S.as_shim_refused e.payload) >> ok t
  handle EventType.worker_drain_acked e t =
      Audit.audit e (S.as_worker_drain_acked e.payload) >> ok t
  handle EventType.permission_pending e t = Permissions.permission_pending S e t
  handle EventType.permission_decided e t = Permissions.permission_decided S e t
  handle EventType.permission_saturated e t =
      Audit.audit e (S.as_permission_saturated e.payload) >> ok t

  unfoldable pub apply : Event Value → Tables → Result Tables
  apply e t = handle e.kind e t
