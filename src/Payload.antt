-- ===== src/Payload.antt =====
-- crates/camp-core/src/ledger/fold.rs: the payload structs, one for each event that carries data. A
-- `BTreeMap` is the list of its entries in the order of iteration.
mod Control
pub use Control.*
use gascamp.Common.{ℕ, String, Bool, Option, List}
use gascamp.Schema.{ℤ}

pub record BeadCreated : Type 0 where
  pub title : String
  pub bead_type : String
  pub description : String
  pub needs : List String
  pub labels : List String
  pub assignee : Option String
  pub run_id : Option String
  pub step_id : Option String
  pub metadata : List (String × String)

pub record BeadClaimed : Type 0 where
  pub session : String
  pub work_branch : Option String

pub record BeadUpdated : Type 0 where
  pub title : Option String
  pub description : Option String
  pub metadata : List (String × Option String)

pub record BeadClosed (V : Type 0) : Type 0 where
  pub outcome : String
  pub reason : Option String
  pub failure_class : Option String
  pub final_disposition : Option String
  pub output : Option V
  pub work_outcome : Option String
  pub work_commit : Option String
  pub work_branch : Option String

pub record RigAdded : Type 0 where
  pub path : String
  pub prefix : String

pub record CampdAutostarted : Type 0 where
  pub verb : String

pub record RunCooked : Type 0 where
  pub run_id : String
  pub formula : String
  pub root : String
  pub steps : List (String × String)

pub record FormulaRefused : Type 0 where
  pub formula : String
  pub key : String
  pub reason : String
  pub step : Option String

pub record WorkerMilestone : Type 0 where
  pub text : String

pub record WorktreeKept : Type 0 where
  pub path : String
  pub reason : String

pub record BeadWorktreeReaped : Type 0 where
  pub path : String

pub record AgentStalled : Type 0 where
  pub session : String
  pub agent : String
  pub action : String
  pub threshold : String
  pub restarts : ℕ
  pub via : Option String
  pub error : Option String

pub record PatrolDegraded : Type 0 where
  pub error : String
  pub session : Option String

pub record DispatchFailed : Type 0 where
  pub reason : String

pub record DispatchRearmed : Type 0 where
  pub previous_reason : String

pub record DispatchLiveTree : Type 0 where
  pub path : String
  pub agent : String

pub record CheckPassed : Type 0 where
  pub run_id : String
  pub step_id : String
  pub attempt : ℕ

pub record CheckFailed : Type 0 where
  pub run_id : String
  pub step_id : String
  pub attempt : ℕ
  pub exit_code : Option ℤ
  pub signal : Option ℤ
  pub timed_out : Option Bool
  pub error : Option String
  pub log : Option String

pub record RunFinalized : Type 0 where
  pub run_id : String
  pub root : String
  pub outcome : String
  pub final_disposition : String
  pub cause_seq : ℤ
  pub soft_failed : List String
  pub skipped : List String

pub record SessionWoke : Type 0 where
  pub name : String
  pub agent : String
  pub rig : Option String
  pub claude_session_id : Option String
  pub transcript_path : Option String
  pub pid : Option ℤ
  pub bead : Option String
  pub worktree : Option String
  pub base : Option String
  pub model : Option String
  pub permission_mode : Option String
  pub allowed_tools : Option String

pub record SessionNudged : Type 0 where
  pub session : String
  pub via : String
  pub text : String

pub record SessionPid : Type 0 where
  pub name : String
  pub pid : ℤ
  pub bead : Option String

pub record SessionEnd : Type 0 where
  pub name : String
  pub exit_code : Option ℤ
  pub signal : Option ℤ
  pub reason : Option String
  pub cause_seq : Option ℤ

pub record OrderFired : Type 0 where
  pub order : String
  pub trigger : String
  pub scheduled_ts : Option String
  pub catch_up : Option Bool
  pub cause_seq : Option ℤ

pub record OrderCompleted : Type 0 where
  pub order : String
  pub fired_seq : ℤ
  pub root_bead : String
  pub run_id : String
  pub outcome : String

pub record OrderFailed : Type 0 where
  pub order : String
  pub fired_seq : ℤ
  pub error : Option String
  pub root_bead : Option String
  pub run_id : Option String
  pub outcome : Option String

pub record ConfigChanged : Type 0 where
  pub path : String
  pub applied : Bool
  pub orders : Option ℕ
  pub error : Option String

pub data Decoded {ℓ} (A : Type ℓ) : Type ℓ where
  parsed : A → Decoded A
  refused : String → Decoded A

-- `serde_json::from_value` at each payload type: the library and the code that it derives.
pub record Serde : Type 1 where
  pub Value : Type 0
  pub as_bead_created : Value → Decoded BeadCreated
  pub as_bead_claimed : Value → Decoded BeadClaimed
  pub as_bead_updated : Value → Decoded BeadUpdated
  pub as_bead_closed : Value → Decoded (BeadClosed Value)
  pub as_rig_added : Value → Decoded RigAdded
  pub as_campd_autostarted : Value → Decoded CampdAutostarted
  pub as_run_cooked : Value → Decoded RunCooked
  pub as_formula_refused : Value → Decoded FormulaRefused
  pub as_worker_milestone : Value → Decoded WorkerMilestone
  pub as_worktree_kept : Value → Decoded WorktreeKept
  pub as_bead_worktree_reaped : Value → Decoded BeadWorktreeReaped
  pub as_agent_stalled : Value → Decoded AgentStalled
  pub as_patrol_degraded : Value → Decoded PatrolDegraded
  pub as_dispatch_failed : Value → Decoded DispatchFailed
  pub as_dispatch_rearmed : Value → Decoded DispatchRearmed
  pub as_dispatch_live_tree : Value → Decoded DispatchLiveTree
  pub as_check_passed : Value → Decoded CheckPassed
  pub as_check_failed : Value → Decoded CheckFailed
  pub as_run_finalized : Value → Decoded RunFinalized
  pub as_session_woke : Value → Decoded SessionWoke
  pub as_session_nudged : Value → Decoded SessionNudged
  pub as_session_pid : Value → Decoded SessionPid
  pub as_session_end : Value → Decoded SessionEnd
  pub as_order_fired : Value → Decoded OrderFired
  pub as_order_completed : Value → Decoded OrderCompleted
  pub as_order_failed : Value → Decoded OrderFailed
  pub as_config_changed : Value → Decoded ConfigChanged
  pub as_session_interrupted : Value → Decoded SessionInterrupted
  pub as_control_responded : Value → Decoded ControlResponded
  pub as_control_failed : Value → Decoded ControlFailed
  pub as_subscriber_dropped : Value → Decoded SubscriberDropped
  pub as_shim_refused : Value → Decoded ShimRefused
  pub as_worker_drain_acked : Value → Decoded WorkerDrainAcked
  pub as_permission_pending : Value → Decoded PermissionPending
  pub as_permission_decided : Value → Decoded PermissionDecided
  pub as_permission_saturated : Value → Decoded PermissionSaturated
