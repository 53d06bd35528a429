-- ===== src/Git.antt =====
-- References to git modules, crates/tfls-core/src/git_ref.rs.
pub mod Semver
pub mod Sha
pub mod Ref
pub mod Abbreviated
pub mod Namespace
pub mod Newer
pub mod Sorted
mod Tests
