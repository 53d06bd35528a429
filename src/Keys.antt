-- ===== src/Keys.antt =====
-- Duplicate keys of object literals, crates/tfls-diag/src/map_duplicate_keys.rs.
pub mod Quoted
pub mod Heredoc
pub mod Extract
pub mod Ends
pub mod Turns
pub mod Spans
pub mod Found
pub mod Distinct
mod Tests
