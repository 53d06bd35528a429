-- ===== src/Jobs.antt =====
-- crates/tfls-state/src/jobs.rs: the priority queue of background work.
pub mod Queue
pub mod Invariant
pub mod Priority
pub mod Taken
pub mod Idle
mod Tests
