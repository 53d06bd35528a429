-- ===== src/Version/Cursor.antt =====
-- `cursor_slot`, crates/tfls-core/src/version_constraint.rs. The cursor stands between characters.
use terraform_ls_rs.Base.{
  ℕ, ◌+◌, min, Bool, ◌&&◌, ◌||◌, [], ◌∷◌, ◌==◌, leb, ltb, if◌then◌else◌, Bytes, length, take, drop,
  all, is_empty, is_ascii_whitespace, count_while,
}
use terraform_ls_rs.Version.Constraint.{CursorSlot, at_operator, after_operator, inside_version}
use terraform_ls_rs.Version.Parse.{detect_operator}

-- The loop that finds where the comma-separated piece at the cursor starts.
unfoldable pub piece_start_from : ℕ → ℕ → ℕ → Bytes → ℕ
piece_start_from byte_offset i start [] = start
piece_start_from byte_offset i start (b ∷ s) =
    let on = piece_start_from byte_offset (i + 1) (if b == b',' then i + 1 else start) s in
    if leb byte_offset i then start else on

abbrev pub is_operator_char : ℕ → Bool
is_operator_char b = b == b'~' || b == b'>' || b == b'<' || b == b'=' || b == b'!'

-- `cursor_slot` from the operator scan on, for the text of the piece up to the cursor.
unfoldable pub slot_of : Bytes → CursorSlot
unfolding detect_operator count_while
slot_of trimmed =
    let (op, op_len) = detect_operator trimmed in
    let after_op = drop op_len trimmed in
    let version_pre_ws = count_while is_ascii_whitespace after_op in
    let version_text_rel = drop version_pre_ws after_op in
    if is_empty trimmed
    then at_operator
    else if ltb op_len (length trimmed) && all is_operator_char trimmed
    then at_operator
    else if is_empty version_text_rel
    then (if op_len == 0
        then at_operator
        else if ltb 0 version_pre_ws || ltb 0 op_len
        then after_operator op
        else at_operator)
    else inside_version op version_text_rel

unfoldable pub cursor_slot : Bytes → ℕ → CursorSlot
unfolding piece_start_from count_while slot_of
cursor_slot input byte_offset =
    let offset = min byte_offset (length input) in
    let before_cursor = drop (piece_start_from offset 0 0 input) (take offset input) in
    slot_of (drop (count_while is_ascii_whitespace before_cursor) before_cursor)
