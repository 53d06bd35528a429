-- ===== src/Version.antt =====
-- crates/tfls-core/src/version_constraint.rs: the grammar and the evaluator of version constraints.
pub mod Constraint
pub mod Parse
pub mod Cursor
pub mod Key
pub mod Satisfy
pub mod Order
pub mod Bounds
pub mod Greatest
pub mod Pessimistic
pub mod Pieces
pub mod Panics
pub mod BuildMetadata
pub mod Prerelease
pub mod Slots
pub mod Entry
pub mod RoundTrip
mod Tests
