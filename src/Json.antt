-- ===== src/Json.antt =====
-- `.tf.json` documents as HCL, crates/tfls-parser/src/json.rs.
pub mod Value
pub mod Write
pub mod Text
pub mod Read
pub mod Quoted
pub mod Literal
pub mod Steps
pub mod RoundTrip
pub mod Document
pub mod Conform
pub mod Blocks
pub mod Errors
pub mod Leaves
mod Tests
