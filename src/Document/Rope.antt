-- ===== src/Document/Rope.antt =====
-- The ropey crate, as crates/tfls-parser/src/position.rs and crates/tfls-state/src/document.rs use
-- it.
use terraform_ls_rs.Base.{ℕ, ◌≤◌, true, ◌≡◌, length, Bytes, is_char_boundary}

-- A rope with its text. A `RopeSlice` is its text; `char` is the code point of a character.
pub record Ropey (Rope : Type 0) : Type 0 where
  pub from_str : Bytes → Rope
  pub to_string : Rope → Bytes
  pub byte_to_char : Rope → ℕ → ℕ
  -- `remove(start..end)` and `insert(start, text)`, at characters.
  pub remove : Rope → ℕ → ℕ → Rope
  pub insert : Rope → ℕ → Bytes → Rope
  pub len_chars : Bytes → ℕ
  pub char : Bytes → ℕ → ℕ
  -- `slice(..n)`.
  pub first_chars : Bytes → ℕ → Bytes
  pub len_utf16_cu : Bytes → ℕ
  pub utf16_cu_to_char : Bytes → ℕ → ℕ
  pub char_to_byte : Bytes → ℕ → ℕ
  -- A rope made from a text has this text, and `char_to_byte` is where a character of the slice
  -- begins, or its end.
  pub to_string-from_str : (text : Bytes) → to_string (from_str text) ≡ text
  pub char_to_byte-le : (slice : Bytes) (char_idx : ℕ) → char_to_byte slice char_idx ≤ length slice
  pub char_to_byte-is_boundary :
      (slice : Bytes) (char_idx : ℕ) → is_char_boundary slice (char_to_byte slice char_idx) ≡ true
