-- ===== src/Schema.antt =====
-- crates/camp-core/src/ledger/schema.rs: the state tables of camp.db, each a list of rows. A status
-- column with a CHECK on its values is an enumeration; the other columns are texts as they are.
-- `labels` holds the list that the source stores as JSON text.
pub mod Rows
use gascamp.Common.{String, ℕ, Bool, true, false, Option, List, [], find}

pub data BeadStatus : Type 0 where
  open' in_progress closed : BeadStatus

abbrev pub is_open : BeadStatus → Bool
is_open open' = true
is_open _ = false

abbrev pub is_in_progress : BeadStatus → Bool
is_in_progress in_progress = true
is_in_progress _ = false

abbrev pub is_closed : BeadStatus → Bool
is_closed closed = true
is_closed _ = false

pub record Bead : Type 0 where
  pub id : String
  pub rig : String
  pub kind : String
  pub title : String
  pub description : String
  pub status : BeadStatus
  pub assignee : Option String
  pub claimed_by : Option String
  pub outcome : Option String
  pub close_reason : Option String
  pub work_outcome : Option String
  pub work_commit : Option String
  pub work_branch : Option String
  pub final_disposition : Option String
  pub dispatch_failure : Option String
  pub labels : List String
  pub run_id : Option String
  pub step_id : Option String
  pub created_ts : String
  pub updated_ts : String
  pub closed_ts : Option String

pub record Meta : Type 0 where
  pub bead_id : String
  pub key : String
  pub value : String

pub record Dep : Type 0 where
  pub bead_id : String
  pub needs_id : String

pub data SessionStatus : Type 0 where
  live stopped crashed : SessionStatus

abbrev pub is_live : SessionStatus → Bool
is_live live = true
is_live _ = false

pub data ℤ : Type 0 where
  pos : ℕ → ℤ
  negsuc : ℕ → ℤ

pub record Session : Type 0 where
  pub name : String
  pub agent : String
  pub rig : Option String
  pub claude_session_id : Option String
  pub transcript_path : Option String
  pub pid : Option ℤ
  pub status : SessionStatus
  pub bead : Option String
  pub spawned_ts : String
  pub ended_ts : Option String

pub data SearchKind : Type 0 where
  body close : SearchKind

pub record SearchRow : Type 0 where
  pub bead_id : String
  pub kind : SearchKind
  pub content : String

pub record Counter : Type 0 where
  pub prefix : String
  pub high : ℕ

pub data PermissionStatus : Type 0 where
  pending decided : PermissionStatus

abbrev pub is_pending : PermissionStatus → Bool
is_pending pending = true
is_pending decided = false

pub record Permission : Type 0 where
  pub request_id : String
  pub session : String
  pub tool_name : String
  pub status : PermissionStatus
  pub decision : Option String
  pub decided_by : Option String
  pub requested_ts : String
  pub decided_ts : Option String

-- The state tables: what a refold rebuilds from the event log.
pub record Tables : Type 0 where
  pub beads : List Bead
  pub bead_meta : List Meta
  pub deps : List Dep
  pub sessions : List Session
  pub search : List SearchRow
  pub counters : List Counter
  pub permissions : List Permission

-- What STATE_DDL creates.
abbrev pub no_rows : Tables
no_rows = record {
  beads = [];
  bead_meta = [];
  deps = [];
  sessions = [];
  search = [];
  counters = [];
  permissions = [];
}

-- The primary keys.
abbrev pub bead_key : Bead → String
bead_key b = b.id

abbrev pub session_key : Session → String
session_key s = s.name

abbrev pub counter_key : Counter → String
counter_key c = c.prefix

abbrev pub permission_key : Permission → String
permission_key p = p.request_id

abbrev pub bead_row : Tables → String → Option Bead
bead_row t id = find bead_key id t.beads

abbrev pub session_row : Tables → String → Option Session
session_row t name = find session_key name t.sessions

abbrev pub permission_row : Tables → String → Option Permission
permission_row t id = find permission_key id t.permissions
