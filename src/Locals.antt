-- ===== src/Locals.antt =====
-- Dependency cycles among locals, crates/tfls-diag/src/cyclic_locals.rs.
pub mod Search
pub mod Cycle
pub mod Unvisited
pub mod Ends
pub mod Settled
pub mod Missed
pub mod Report
pub mod Sound
pub mod Silent
pub mod Reported
mod Tests
