-- ===== src/Types.antt =====
-- crates/tfls-core/src/variable_type.rs: the types of variables and the shapes of values.
pub mod Shape
pub mod Satisfy
pub mod Explain
pub mod MergeShapes
pub mod Reflexive
pub mod Explained
pub mod Merged
mod Tests
pub mod MergeTypes
pub mod Enough
pub mod Agree
pub mod MergedTypes
pub mod Equal
pub mod Conflict
