-- ===== src/Invariants.antt =====
-- What every history of the ledger keeps of the state tables.
pub mod Rows
pub mod Integrity
pub mod Numbers
pub mod Verdict
pub mod Closes
pub mod Coherence
pub mod Permissions
pub mod Requests
pub mod Sessions
pub mod Crash
