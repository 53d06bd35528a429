-- ===== src/Document/Column.antt =====
-- The conversions of crates/tfls-parser/src/position.rs one after the other.
use terraform_ls_rs.Base.{
  ℕ, suc, ◌+◌, ◌-◌, ◌%◌, ◌^◌, ◌≤◌, ◌<◌, min, some, List, [], ◌∷◌, ◌++◌, ◌≡◌, ◌⊎◌, inl, inr, refl,
  sym, ap, ap₂, ◌∙◌, append_assoc, append-nil, ok, Bytes, length, take, drop, get_elem?,
  length-append, take-append, drop-append, true, is_char_boundary, arith,
}
use terraform_ls_rs.Symbols.{Position}
use terraform_ls_rs.Document.Rope.{Ropey}
use terraform_ls_rs.Document.Position.{
  or_total, visible_chars, byte_in_line, offset_in_line, lsp_position_to_byte_offset,
  line_starts_after, line_start_bytes, byte_offset_to_lsp_position,
}
use terraform_ls_rs.Document.Lines.{
  newlines, EndsLine, IsWithinLine, line_starts_after-append, line_starts_after-within,
  line_start_bytes-IsSplit,
}
use terraform_ls_rs.Document.Located.{Splits, position_of, converted, get_elem?-append}

-- What follows the offset: the rest of its line, to the line feed or the end of the text.
abbrev pub RestOfLine : Bytes → Bytes → Type 0
RestOfLine suffix after =
    (IsWithinLine suffix × (after ≡ []))
    ⊎ ((line : Bytes) × (suffix ≡ line ++ (10 ∷ [])) × IsWithinLine line)

-- The start after the offset is the end of its line.
next_start :
    (offset : ℕ) (suffix after : Bytes)
    → RestOfLine suffix after
    → or_total
        (offset + length (suffix ++ after))
        (get_elem? (line_starts_after offset (suffix ++ after)) 0)
      ≡ offset + length suffix
unfolding line_starts_after
next_start offset suffix after (inl (within, e)) =
    rw e (rw (append-nil suffix) (rw (line_starts_after-within offset suffix within) refl))
next_start offset suffix after (inr (line, e, within)) =
    let starts : line_starts_after offset (line ++ (10 ∷ after))
        ≡ (offset + length line + 1) ∷ line_starts_after (offset + length line + 1) after =
      line_starts_after-append offset line (10 ∷ after)
      ∙ ap (λ (l : List ℕ). l ++ line_starts_after (offset + length line) (10 ∷ after))
          (line_starts_after-within offset line within) in
    rw e (
      rw (append_assoc line (10 ∷ []) after)
        (rw starts (omega (arith, length-append line (10 ∷ [])))))

get_elem?-after :
    (xs : List ℕ) (y : ℕ) (ys : List ℕ)
    → get_elem? (xs ++ (y ∷ ys)) (length xs + 1) ≡ get_elem? ys 0
get_elem?-after [] y ys = refl
get_elem?-after (x ∷ xs) y ys =
    let e : length (x ∷ xs) + 1 ≡ suc (length xs + 1) = omega arith in
    rw e (get_elem?-after xs y ys)

-- A character that begins in the line, or at the end of the text, begins in the text.
is_char_boundary-append :
    (prefix suffix after : Bytes)
    → RestOfLine suffix after
    → is_char_boundary (prefix ++ suffix) (length prefix) ≡ true
    → is_char_boundary (prefix ++ (suffix ++ after)) (length prefix) ≡ true
unfolding is_char_boundary
is_char_boundary-append prefix [] after (inl (within, e)) h = rw e h
is_char_boundary-append prefix [] after (inr (line, e, within)) h =
    absurd (omega (arith, ap length e, length-append line (10 ∷ [])))
is_char_boundary-append prefix (b ∷ suffix) after rest h = ground (
  arith,
  get_elem?-append prefix b suffix,
  get_elem?-append prefix b (suffix ++ after),
  length-append prefix (b ∷ suffix),
  length-append prefix (b ∷ (suffix ++ after)),
)

mod_small : (n : ℕ) → n < 2 ^ 32 → n % 2 ^ 32 ≡ n
mod_small n h = omega arith

module _ {Rope : Type 0} (ropey : Ropey Rope) where
  -- The rope finds the byte of a column at the end of `prefix`, which is on the visible part of the
  -- line.
  abbrev pub IsColumn : Bytes → Bytes → Type 0
  IsColumn prefix suffix =
      let line = prefix ++ suffix in
      let cu = ropey.len_utf16_cu prefix in
      (ropey.char_to_byte line (ropey.utf16_cu_to_char line cu) ≡ length prefix)
      × (cu ≤ ropey.len_utf16_cu (ropey.first_chars line (visible_chars ropey line)))

  byte_in_line-IsColumn :
      (prefix suffix : Bytes)
      → IsColumn prefix suffix
      → byte_in_line ropey (prefix ++ suffix) (ropey.len_utf16_cu prefix) ≡ length prefix
  unfolding byte_in_line
  byte_in_line-IsColumn prefix suffix (found, visible) =
      let line = prefix ++ suffix in
      let e : min (ropey.len_utf16_cu prefix)
            (ropey.len_utf16_cu (ropey.first_chars line (visible_chars ropey line)))
          ≡ ropey.len_utf16_cu prefix =
        omega arith in
      ap (λ cu. ropey.char_to_byte line (ropey.utf16_cu_to_char line cu)) e ∙ found

  -- The slice of the line.
  cut_line :
      (before prefix suffix after : Bytes) (end : ℕ)
      → end ≡ length before + length prefix + length suffix
      → take (end - length before) (drop (length before) (before ++ (prefix ++ (suffix ++ after))))
        ≡ prefix ++ suffix
  cut_line before prefix suffix after end e =
      let n : end - length before ≡ length (prefix ++ suffix) =
        omega (arith, length-append prefix suffix) in
      rw n (
        rw (drop-append before (prefix ++ (suffix ++ after)))
          (rw (sym (append_assoc prefix suffix after)) (take-append (prefix ++ suffix) after)))

  offset_in_line-prefix :
      (before prefix suffix after : Bytes) (line : ℕ)
      → EndsLine before
      → IsWithinLine prefix
      → RestOfLine suffix after
      → IsColumn prefix suffix
      → line ≡ newlines before
      → let text = before ++ (prefix ++ (suffix ++ after)) in
        offset_in_line ropey text
          (record { line = line; character = ropey.len_utf16_cu prefix })
          (line_start_bytes text)
          (get_elem? (line_start_bytes text) line)
        ≡ ok (length before + length prefix)
  unfolding offset_in_line
  offset_in_line-prefix before prefix suffix after line ends within rest column l =
      let text = before ++ (prefix ++ (suffix ++ after)) in
      let offset = length before + length prefix in
      let later = line_starts_after offset (suffix ++ after) in
      let (earlier, starts, lines, below) =
        line_start_bytes-IsSplit before prefix (suffix ++ after) ends within in
      let start : get_elem? (line_start_bytes text) line ≡ some (length before) =
        ap₂ get_elem? starts (l ∙ sym lines) ∙ get_elem?-append earlier (length before) later in
      let next : get_elem? (line_start_bytes text) (line + 1) ≡ get_elem? later 0 =
        ap₂ get_elem? starts (ap (λ n. n + 1) (l ∙ sym lines))
        ∙ get_elem?-after earlier (length before) later in
      let total : length text ≡ offset + length (suffix ++ after) = omega (
        arith,
        length-append before (prefix ++ (suffix ++ after)),
        length-append prefix (suffix ++ after),
      ) in
      let end : or_total (length text) (get_elem? (line_start_bytes text) (line + 1))
          ≡ offset + length suffix =
        ap₂ or_total total next ∙ next_start offset suffix after rest in
      let cut =
        cut_line before prefix suffix after
          (or_total (length text) (get_elem? (line_start_bytes text) (line + 1))) end in
      rw start (
        ap (λ slice. ok (length before + byte_in_line ropey slice (ropey.len_utf16_cu prefix))) cut
        ∙ ap (λ n. ok (length before + n)) (byte_in_line-IsColumn prefix suffix column))

  -- An offset that is converted to a position and back is the same again, if the rope finds the byte
  -- of its column: the offset is at most the end of the visible part of its line, where a character
  -- begins, and line and column are below 2^32.
  pub lsp_position_to_byte_offset-byte_offset_to_lsp_position :
      (rope : Rope) (offset : ℕ) (before prefix suffix after : Bytes)
      → Splits (ropey.to_string rope) offset before prefix (suffix ++ after)
      → RestOfLine suffix after
      → IsColumn prefix suffix
      → newlines before < 2 ^ 32
      → ropey.len_utf16_cu prefix < 2 ^ 32
      → (pos : Position) × (byte_offset_to_lsp_position ropey rope offset ≡ some (ok pos))
        × (lsp_position_to_byte_offset ropey rope pos ≡ ok offset)
  unfolding lsp_position_to_byte_offset
  lsp_position_to_byte_offset-byte_offset_to_lsp_position rope offset before prefix suffix after s
        rest column lines cu =
      let pos : Position = record {
        line = newlines before;
        character = ropey.len_utf16_cu prefix;
      } in
      let same : position_of ropey before prefix ≡ pos =
        rw (mod_small (newlines before) lines)
          (rw (mod_small (ropey.len_utf16_cu prefix) cu) refl) in
      let line = prefix ++ suffix in
      let begins : is_char_boundary (prefix ++ (suffix ++ after)) (length prefix) ≡ true =
        is_char_boundary-append prefix suffix after rest (
          ap (is_char_boundary line) (sym column.0)
          ∙ ropey.char_to_byte-is_boundary line
              (ropey.utf16_cu_to_char line (ropey.len_utf16_cu prefix))) in
      (
        pos,
        converted ropey rope offset before prefix (suffix ++ after) s
            ∙ rw begins (ap (λ p. some (ok p)) same),
        ap
              (λ text.
                offset_in_line ropey text pos (line_start_bytes text)
                  (get_elem? (line_start_bytes text) pos.line))
              s.0
            ∙ offset_in_line-prefix before prefix suffix after (newlines before) s.2 s.3 rest column
                refl
            ∙ ap ok (sym s.1),
      )
