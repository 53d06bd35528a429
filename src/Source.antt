-- ===== src/Source.antt =====
-- The `source` strings of git modules, crates/tfls-diag/src/git_source.rs.
pub mod RefValue
pub mod Span
pub mod Query
mod Tests
