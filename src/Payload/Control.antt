-- ===== src/Payload/Control.antt =====
-- crates/camp-core/src/ledger/fold.rs: the payload structs of the control and permission events.
use gascamp.Common.{ℕ, String, Bool, Option}

pub record SessionInterrupted : Type 0 where
  pub session : String
  pub request_id : String

pub record ControlResponded : Type 0 where
  pub session : String
  pub request_id : String
  pub verb : String
  pub ok : Bool
  pub detail : String
  pub late : Bool

pub record ControlFailed : Type 0 where
  pub session : Option String
  pub request_id : Option String
  pub verb : Option String
  pub cause : String
  pub reason : String

pub record SubscriberDropped : Type 0 where
  pub session : String
  pub subscription : String
  pub buffered_bytes : ℕ
  pub cap_bytes : ℕ

pub record ShimRefused : Type 0 where
  pub binding : Option String
  pub agent : Option String
  pub verb : String
  pub detail : String

pub record WorkerDrainAcked : Type 0 where
  pub session : String

pub record PermissionPending : Type 0 where
  pub session : String
  pub request_id : String
  pub tool_name : String

pub record PermissionDecided : Type 0 where
  pub session : String
  pub request_id : String
  pub decision : String
  pub decided_by : String
  pub reason : Option String

pub record PermissionSaturated : Type 0 where
  pub blocked : ℕ
  pub max_blocked : ℕ
