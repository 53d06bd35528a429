-- ===== src/Document/Located.antt =====
-- The conversion of offsets to positions, crates/tfls-parser/src/position.rs.
use terraform_ls_rs.Base.{
  ℕ, zero, suc, ◌+◌, ◌-◌, ◌%◌, ◌^◌, ◌≤◌, ◌<◌, Bool, false, Option, none, some, ◌>>=◌, List, [], ◌∷◌,
  ◌++◌, ◌≡◌, ◌⊎◌, inl, inr, refl, ap, ap₂, ◌∙◌, ltb, if◌then◌else◌, Bool-cases, ok, err, Bytes,
  length, drop, get_elem?, ℕ_discrete, length-append, take-append, drop-append, is_char_boundary,
  arith,
}
use terraform_ls_rs.Symbols.{Position}
use terraform_ls_rs.Document.Rope.{Ropey}
use terraform_ls_rs.Document.Position.{
  line_starts_after, line_start_bytes, binary_search, line_index, column_in, position_in,
  byte_offset_to_lsp_position,
}
use terraform_ls_rs.Document.Lines.{
  newlines, EndsLine, IsWithinLine, starts_above, line_index-binary_search,
  line_start_bytes-IsSplit,
}

pub get_elem?-append :
    (xs : List ℕ) (y : ℕ) (ys : List ℕ) → get_elem? (xs ++ (y ∷ ys)) (length xs) ≡ some y
get_elem?-append [] y ys = refl
get_elem?-append (x ∷ xs) y ys = get_elem?-append xs y ys

length-split :
    (before prefix rest : Bytes)
    → length before + length prefix ≤ length (before ++ (prefix ++ rest))
length-split before prefix rest =
    omega (arith, length-append before (prefix ++ rest), length-append prefix rest)

-- Where a text splits: at the last line feed before the offset, and at the offset.
abbrev pub Splits : Bytes → ℕ → Bytes → Bytes → Bytes → Type 0
Splits text offset before prefix rest =
    (text ≡ before ++ (prefix ++ rest))
    × (offset ≡ length before + length prefix)
    × EndsLine before
    × IsWithinLine prefix

-- One more byte in front.
Splits-cons :
    (b : ℕ) (text : Bytes) (offset : ℕ) (before prefix rest : Bytes)
    → Splits text offset before prefix rest
    → (before' : Bytes) × (prefix' : Bytes) × (rest' : Bytes) × Splits
        (b ∷ text)
        (suc offset)
        before'
        prefix'
        rest'
unfolding newlines
Splits-cons b text offset before prefix rest (e, o, inr (line, l), within) = (
  b ∷ before,
  prefix,
  rest,
  (ap (λ (t : Bytes). b ∷ t) e, omega arith, inr (b ∷ line, ap (λ (t : Bytes). b ∷ t) l), within),
)
Splits-cons b text offset before prefix rest (e, o, inl l, within) = elim (ℕ_discrete b 10) [
  | yes n ↦ (
    b ∷ [],
    prefix,
    rest,
    (
      ap (λ (t : Bytes). b ∷ t) (e ∙ ap (λ (t : Bytes). t ++ (prefix ++ rest)) l),
      omega (arith, ap length l),
      inr ([], ap (λ (c : ℕ). c ∷ []) n),
      within,
    ),
  )
  | no n ↦ (
    [],
    b ∷ prefix,
    rest,
    (
      ap (λ (t : Bytes). b ∷ t) (e ∙ ap (λ (t : Bytes). t ++ (prefix ++ rest)) l),
      omega (arith, ap length l),
      inl refl,
      ground arith,
    ),
  )
]

-- Every offset in a text splits it.
Splits-at :
    (text : Bytes) (offset : ℕ)
    → offset ≤ length text
    → (before : Bytes) × (prefix : Bytes) × (rest : Bytes) × Splits text offset before prefix rest
unfolding newlines
Splits-at text zero h = ([], [], text, (refl, refl, inl refl, refl))
Splits-at [] (suc offset) h = absurd (omega arith)
Splits-at (b ∷ text) (suc offset) h =
    let (before, prefix, rest, s) = Splits-at text offset (omega arith) in
    Splits-cons b text offset before prefix rest s

module _ {Rope : Type 0} (ropey : Ropey Rope) where
  -- The position of an offset: the line feeds before it, and the UTF-16 length of its line up to it.
  abbrev pub position_of : Bytes → Bytes → Position
  position_of before prefix = record {
    line = newlines before % 2 ^ 32;
    character = ropey.len_utf16_cu prefix % 2 ^ 32;
  }

  -- The column at the end of `prefix`, which starts its line.
  column_in-prefix :
      (before prefix rest : Bytes)
      → column_in ropey
          (drop (length before) (before ++ (prefix ++ rest)))
          (length before + length prefix - length before)
        ≡ (if is_char_boundary (prefix ++ rest) (length prefix)
            then some (ropey.len_utf16_cu prefix)
            else none)
  unfolding column_in
  column_in-prefix before prefix rest =
      let e : length before + length prefix - length before ≡ length prefix = omega arith in
      rw e (rw (drop-append before (prefix ++ rest)) (rw (take-append prefix rest) refl))

  position_in-prefix :
      (before prefix rest : Bytes)
      → EndsLine before
      → IsWithinLine prefix
      → position_in ropey (before ++ (prefix ++ rest)) (length before + length prefix) ≡ (
          if is_char_boundary (prefix ++ rest) (length prefix)
          then some (position_of before prefix)
          else none)
  unfolding position_in
  position_in-prefix before prefix rest ends within =
      let offset = length before + length prefix in
      let text = before ++ (prefix ++ rest) in
      let later = line_starts_after offset rest in
      let (earlier, starts, lines, below) =
        line_start_bytes-IsSplit before prefix rest ends within in
      let found : line_index (binary_search (line_start_bytes text) offset)
          ≡ some (length earlier) =
        ap (λ l. line_index (binary_search l offset)) starts
        ∙ line_index-binary_search earlier (length before) later offset below (omega arith)
            (starts_above offset offset rest (omega arith)) in
      let start : get_elem? (line_start_bytes text) (length earlier) ≡ some (length before) =
        ap (λ l. get_elem? l (length earlier)) starts
        ∙ get_elem?-append earlier (length before) later in
      rw found (
        rw start (
          rw (column_in-prefix before prefix rest)
            (elim (Bool-cases (is_char_boundary (prefix ++ rest) (length prefix))) [
              | inl begins ↦ rw begins (rw lines refl)
              | inr inside ↦ rw inside refl
            ])))

  pub converted :
      (rope : Rope) (offset : ℕ) (before prefix rest : Bytes)
      → Splits (ropey.to_string rope) offset before prefix rest
      → byte_offset_to_lsp_position ropey rope offset ≡ (
          if is_char_boundary (prefix ++ rest) (length prefix)
          then some (ok (position_of before prefix))
          else none)
  unfolding byte_offset_to_lsp_position
  converted rope offset before prefix rest (text, o, ends, within) =
      let total = length (ropey.to_string rope) in
      let fits : offset ≤ total = omega (arith, length-split before prefix rest, ap length text) in
      let inside : ltb total offset ≡ false = ground arith in
      let pos : position_in ropey (ropey.to_string rope) offset ≡ (
          if is_char_boundary (prefix ++ rest) (length prefix)
          then some (position_of before prefix)
          else none) =
        ap₂ (position_in ropey) text o ∙ position_in-prefix before prefix rest ends within in
      ap₂
        (λ (b : Bool) (q : Option Position).
          if b
          then some (err (record { offset = offset; length = total }))
          else q >>= (λ p. some (ok p)))
        inside pos
      ∙ elim (Bool-cases (is_char_boundary (prefix ++ rest) (length prefix))) [
        | inl begins ↦ rw begins refl
        | inr within ↦ rw within refl
      ]

  -- An offset behind the end of the text is an error. Any other splits the text at the last line
  -- feed before it and at itself. If it is inside a character then the conversion panics; otherwise
  -- its position is the number of line feeds before it and the UTF-16 length of the part of its line
  -- before it, each as a `u32`.
  pub byte_offset_to_lsp_position-Splits :
      (rope : Rope) (offset : ℕ)
      → ((length (ropey.to_string rope) < offset)
          × (byte_offset_to_lsp_position ropey rope offset
              ≡ some (err (record { offset = offset; length = length (ropey.to_string rope) }))))
        ⊎ ((before : Bytes) × (prefix : Bytes) × (rest : Bytes) × Splits
              (ropey.to_string rope)
              offset
              before
              prefix
              rest
            × (byte_offset_to_lsp_position ropey rope offset ≡ (
                if is_char_boundary (prefix ++ rest) (length prefix)
                then some (ok (position_of before prefix))
                else none)))
  unfolding byte_offset_to_lsp_position
  byte_offset_to_lsp_position-Splits rope offset =
      elim (Bool-cases (ltb (length (ropey.to_string rope)) offset)) [
        | inl out ↦ inl (ground arith, rw out refl)
        | inr inside ↦
            let (before, prefix, rest, s) =
              Splits-at (ropey.to_string rope) offset (ground arith) in
            inr (before, prefix, rest, s, converted rope offset before prefix rest s)
      ]
