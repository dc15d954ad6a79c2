-- ===== src/Patrol.antt =====
-- crates/camp-core/src/patrol/: the machines of the health patrol.
pub mod Ladder
pub mod Timers
