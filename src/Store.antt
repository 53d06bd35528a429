-- ===== src/Store.antt =====
-- The state store, crates/tfls-state/src/store.rs.
pub mod Index
pub mod State
pub mod Entries
pub mod Consistent
pub mod History
pub mod Preserved
pub mod Refused
mod Tests
