-- ===== src/Tokens.antt =====
-- Semantic tokens, crates/tfls-lsp/src/handlers/semantic_tokens.rs.
pub mod Encode
pub mod Decode
mod Tests
