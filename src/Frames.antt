-- ===== src/Frames.antt =====
-- The frames of strings, heredocs and interpolations around a cursor,
-- crates/tfls-core/src/completion.rs.
pub mod Heredoc
pub mod Scan
pub mod Within
pub mod Ends
pub mod Comments
pub mod CommentEnds
pub mod Masks
pub mod Literals
mod Tests
