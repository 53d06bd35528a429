-- ===== src/Keys/Turns.antt =====
-- Every turn of `extract_top_level_keys` of crates/tfls-diag/src/map_duplicate_keys.rs goes on by at
-- least one byte, within the text.
use terraform_ls_rs.Base.{
  ℕ, zero, suc, ◌+◌, ◌≤◌, true, Option, none, some, List, [], ◌∷◌, ◌≡◌, refl, ap, ◌==◌,
  if◌then◌else◌, Bytes, length, take, drop, count_while, split, extend_first, arith, Bool-cases,
  inl, inr, bytes_eq, starts_with,
}
use terraform_ls_rs.Keys.Heredoc.{
  is_ident_continue, is_blank_or_return, trimmed_line, terminator_end, heredoc_body, heredoc_at,
  skip_heredoc,
}
use terraform_ls_rs.Keys.Ends.{length-drop, count_while-le}

-- The number of bytes lies between the two bounds, if there is one.
abbrev pub Between : ℕ → ℕ → Option ℕ → Type 0
Between low high none = Unit
Between low high (some n) = (low ≤ n) × (n ≤ high)

-- The length of a text of these lines.
joined : List Bytes → ℕ
joined [] = 0
joined (line ∷ []) = length line
joined (line ∷ next ∷ lines) = length line + 1 + joined (next ∷ lines)

joined-extend_first :
    (b : ℕ) (p : Bytes) (ps : List Bytes) → joined (extend_first b (p ∷ ps)) ≡ suc (joined (p ∷ ps))
unfolding joined
joined-extend_first b p [] = refl
joined-extend_first b p (q ∷ ps) = omega arith

-- Bounds may be loosened.
widen :
    (low low' high high' : ℕ) (o : Option ℕ)
    → low' ≤ low
    → high ≤ high'
    → Between low high o
    → Between low' high' o
widen low low' high high' none h k b = tt
widen low low' high high' (some n) h k b = omega arith

split_first :
    (b sep : ℕ) (ps : List Bytes) (n : ℕ)
    → (p : Bytes) × (qs : List Bytes) × (ps ≡ p ∷ qs)
    → joined ps ≡ n
    → ((p : Bytes) × (qs : List Bytes) × ((if b == sep then [] ∷ ps else extend_first b ps)
          ≡ p ∷ qs))
      × (joined (if b == sep then [] ∷ ps else extend_first b ps) ≡ suc n)
split_first b sep ps n (p, qs, e) h = elim (Bool-cases (b == sep)) [
  | inl cut ↦ rw cut (([], ps, refl), rw e (unfold joined in omega (arith, ap joined e)))
  | inr on ↦
      rw on (rw e ((b ∷ p, qs, refl), omega (arith, joined-extend_first b p qs, ap joined e)))
]

split_lem :
    (sep : ℕ) (s : Bytes)
    → ((p : Bytes) × (qs : List Bytes) × (split sep s ≡ p ∷ qs)) × (joined (split sep s) ≡ length s)
unfolding split
split_lem sep [] = (([], [], refl), unfold joined in refl)
split_lem sep (b ∷ s) =
    let (cons, size) = split_lem sep s in split_first b sep (split sep s) (length s) cons size

terminator_end-Between :
    (offset : ℕ) (terminator : Bytes) (lines : List Bytes)
    → Between offset (offset + joined lines) (terminator_end offset terminator lines)
unfolding terminator_end joined
terminator_end-Between offset terminator [] = tt
terminator_end-Between offset terminator (line ∷ []) =
    elim (Bool-cases (bytes_eq (trimmed_line line) terminator)) [
      | inl found ↦ rw found (omega arith, omega arith)
      | inr other ↦ rw other tt
    ]
terminator_end-Between offset terminator (line ∷ next ∷ lines) =
    elim (Bool-cases (bytes_eq (trimmed_line line) terminator)) [
      | inl found ↦ rw found (omega arith, omega arith)
      | inr other ↦ rw other (
          widen (offset + length line + 1) offset (offset + length line + 1 + joined (next ∷ lines))
            (offset + (length line + 1 + joined (next ∷ lines)))
            (terminator_end (offset + length line + 1) terminator (next ∷ lines)) (omega arith)
            (omega arith)
            (terminator_end-Between (offset + length line + 1) terminator (next ∷ lines)))
    ]

heredoc_body-Between :
    (offset : ℕ) (terminator s : Bytes)
    → Between offset (offset + length s) (heredoc_body offset terminator s)
unfolding heredoc_body
heredoc_body-Between offset terminator [] = tt
heredoc_body-Between offset terminator (b ∷ body) = elim (Bool-cases (b == b'\n')) [
  | inr other ↦ rw other tt
  | inl line_break ↦
      let (cons, size) = split_lem b'\n' body in
      rw line_break (
        widen (offset + 1) offset (offset + 1 + joined (split b'\n' body))
          (offset + suc (length body)) (terminator_end (offset + 1) terminator (split b'\n' body))
          (omega arith) (omega arith)
          (terminator_end-Between (offset + 1) terminator (split b'\n' body)))
]

heredoc_at-Between : (start : ℕ) (s : Bytes) → Between start (start + length s) (heredoc_at start s)
unfolding heredoc_at
heredoc_at-Between start s =
    let n = count_while is_ident_continue s in
    let blanks = count_while is_blank_or_return (drop n s) in
    elim (Bool-cases (n == 0)) [
      | inl no_ident ↦ rw no_ident tt
      | inr ident ↦ rw ident (
          widen (start + n + blanks) start (start + n + blanks + length (drop (n + blanks) s))
            (start + length s) (heredoc_body (start + n + blanks) (take n s) (drop (n + blanks) s))
            (omega arith)
            (omega (
              arith,
              count_while-le is_ident_continue s,
              count_while-le is_blank_or_return (drop n s),
              length-drop n s,
              length-drop (n + blanks) s,
            ))
            (heredoc_body-Between (start + n + blanks) (take n s) (drop (n + blanks) s)))
    ]

starts_with-drop :
    (n : ℕ) (s : Bytes) → starts_with (drop n s) (b'-' ∷ []) ≡ true → n + 1 ≤ length s
unfolding starts_with
starts_with-drop zero [] h = absurd (ground arith)
starts_with-drop zero (b ∷ s) h = omega arith
starts_with-drop (suc n) [] h = absurd (ground arith)
starts_with-drop (suc n) (b ∷ s) h = omega (arith, starts_with-drop n s h)

pub skip_heredoc-Between : (s : Bytes) → 2 ≤ length s → Between 1 (length s) (skip_heredoc s)
unfolding skip_heredoc
skip_heredoc-Between s long = elim (Bool-cases (starts_with (drop 2 s) (b'-' ∷ []))) [
  | inl indented ↦ rw indented (
      widen 3 1 (3 + length (drop 3 s)) (length s) (heredoc_at 3 (drop 3 s)) (omega arith)
        (omega (arith, length-drop 3 s, starts_with-drop 2 s indented))
        (heredoc_at-Between 3 (drop 3 s)))
  | inr flush ↦ rw flush (
      widen 2 1 (2 + length (drop 2 s)) (length s) (heredoc_at 2 (drop 2 s)) (omega arith)
        (omega (arith, length-drop 2 s)) (heredoc_at-Between 2 (drop 2 s)))
]
