-- ===== src/Document.antt =====
-- Documents: their text, its positions, and the edits that the editor sends.
pub mod Rope
pub mod Position
pub mod Lines
pub mod Located
pub mod Column
pub mod Ascii
pub mod State
pub mod Versions
mod Tests
