-- ===== src/Document/Position.antt =====
-- The conversions of crates/tfls-parser/src/position.rs.
use terraform_ls_rs.Base.{
  ℕ, zero, suc, ◌+◌, ◌-◌, ◌%◌, ◌^◌, ltb, ◌>>=◌, ◌&&◌, min, Option, none, some, List, [], ◌∷◌, ◌==◌,
  leb, if◌then◌else◌, Result, ok, err, Bytes, length, take, drop, get_elem?, is_char_boundary,
}
use terraform_ls_rs.Symbols.{Position, Range}
use terraform_ls_rs.Document.Rope.{Ropey}

-- `ParseError::LineOutOfBounds`, the one error of the conversion.
pub record LineOutOfBounds : Type 0 where
  pub line : ℕ
  pub total_lines : ℕ

-- `ParseError::ByteOffsetOutOfBounds`, the one error of the other conversion.
pub record ByteOffsetOutOfBounds : Type 0 where
  pub offset : ℕ
  pub length : ℕ

-- The starts of the lines after the first, for the text from the byte `byte_pos` on.
unfoldable pub line_starts_after : ℕ → Bytes → List ℕ
line_starts_after byte_pos [] = []
line_starts_after byte_pos (b ∷ text) =
    let starts = line_starts_after (byte_pos + 1) text in
    if b == b'\n' then (byte_pos + 1) ∷ starts else starts

unfoldable pub line_start_bytes : Bytes → List ℕ
unfolding line_starts_after
line_start_bytes text = 0 ∷ line_starts_after 0 text

abbrev pub or_total : ℕ → Option ℕ → ℕ
or_total total_bytes none = total_bytes
or_total total_bytes (some end) = end

-- `binary_search` of a sorted slice: where the element is, or where it would stand.
abbrev pub next_found : Result ℕ ℕ → Result ℕ ℕ
next_found (ok idx) = ok (idx + 1)
next_found (err idx) = err (idx + 1)

unfoldable pub binary_search : List ℕ → ℕ → Result ℕ ℕ
binary_search [] x = err 0
binary_search (y ∷ ys) x =
    if y == x then ok 0 else if ltb x y then err 0 else next_found (binary_search ys x)

-- Without a value the subtraction overflows.
abbrev pub line_index : Result ℕ ℕ → Option ℕ
line_index (ok idx) = some idx
line_index (err zero) = none
line_index (err (suc idx)) = some idx

module _ {Rope : Type 0} (ropey : Ropey Rope) where
  -- The characters of a line without its line break.
  unfoldable pub visible_chars : Bytes → ℕ
  visible_chars line =
      let n = ropey.len_chars line in
      if leb 1 n && ropey.char line (n - 1) == b'\n'
      then (if leb 1 (n - 1) && ropey.char line (n - 2) == b'\r' then n - 2 else n - 1)
      else n

  -- The byte of a column in a line.
  unfoldable pub byte_in_line : Bytes → ℕ → ℕ
  unfolding visible_chars
  byte_in_line line character =
      let visible_cu = ropey.len_utf16_cu (ropey.first_chars line (visible_chars line)) in
      ropey.char_to_byte line (ropey.utf16_cu_to_char line (min character visible_cu))

  -- From the start of the line on; without one the line is out of bounds.
  unfoldable pub offset_in_line : Bytes → Position → List ℕ → Option ℕ → Result ℕ LineOutOfBounds
  unfolding byte_in_line
  offset_in_line text pos line_starts none =
      err (record { line = pos.line; total_lines = length line_starts })
  offset_in_line text pos line_starts (some start) =
      let end = or_total (length text) (get_elem? line_starts (pos.line + 1)) in
      ok (start + byte_in_line (take (end - start) (drop start text)) pos.character)

  unfoldable pub lsp_position_to_byte_offset : Rope → Position → Result ℕ LineOutOfBounds
  unfolding line_start_bytes offset_in_line
  lsp_position_to_byte_offset rope pos =
      let line_starts = line_start_bytes (ropey.to_string rope) in
      offset_in_line (ropey.to_string rope) pos line_starts (get_elem? line_starts pos.line)

  -- `byte_slice(line_start_byte..offset).len_utf16_cu()`, on the text from the start of the line on
  -- and the bytes up to the offset. The slice panics where the offset is inside a character. The
  -- start of a line is never inside one.
  unfoldable pub column_in : Bytes → ℕ → Option ℕ
  unfolding is_char_boundary
  column_in lines n =
      if is_char_boundary lines n then some (ropey.len_utf16_cu (take n lines)) else none

  -- The position of an offset that is not behind the end. Without a value the program panics. Line
  -- and column are cast to `u32`.
  unfoldable pub position_in : Bytes → ℕ → Option Position
  unfolding line_start_bytes binary_search column_in
  position_in text offset =
      let line_starts = line_start_bytes text in
      line_index (binary_search line_starts offset) >>= (λ line_idx.
        get_elem? line_starts line_idx >>= (λ line_start_byte.
          column_in (drop line_start_byte text) (offset - line_start_byte) >>= (λ character.
            some (record { line = line_idx % 2 ^ 32; character = character % 2 ^ 32 }))))

  unfoldable pub byte_offset_to_lsp_position :
      Rope → ℕ → Option (Result Position ByteOffsetOutOfBounds)
  unfolding position_in
  byte_offset_to_lsp_position rope offset =
      let total_bytes = length (ropey.to_string rope) in
      let pos = position_in (ropey.to_string rope) offset in
      if ltb total_bytes offset
      then some (err (record { offset = offset; length = total_bytes }))
      else pos >>= (λ p. some (ok p))

  -- `?`, and the range of both ends.
  abbrev range_to :
      Position → Result Position ByteOffsetOutOfBounds → Result Range ByteOffsetOutOfBounds
  range_to start (ok end) = ok (record { start = start; end = end })
  range_to start (err e) = err e

  abbrev range_from :
      Result Position ByteOffsetOutOfBounds
      → Option (Result Position ByteOffsetOutOfBounds)
      → Option (Result Range ByteOffsetOutOfBounds)
  range_from (err e) end = some (err e)
  range_from (ok start) end = end >>= (λ e. some (range_to start e))

  unfoldable pub hcl_span_to_lsp_range : Rope → ℕ → ℕ → Option (Result Range ByteOffsetOutOfBounds)
  unfolding byte_offset_to_lsp_position
  hcl_span_to_lsp_range rope start end =
      byte_offset_to_lsp_position rope start
      >>= (λ s. range_from s (byte_offset_to_lsp_position rope end))
