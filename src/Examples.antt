-- ===== src/Examples.antt =====
-- Runs at concrete values: a small payload format and a camp with a few beads.
mod Camp
mod History
mod Log
mod Life
mod Reads
mod Sessions
mod Runs
mod DeadEnds
mod Crons
