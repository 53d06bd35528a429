-- ===== src/Document/Lines.antt =====
-- The line that holds a byte, crates/tfls-parser/src/position.rs.
use terraform_ls_rs.Base.{
  ℕ, zero, suc, ◌+◌, ◌≤◌, ◌<◌, some, List, [], ◌∷◌, ◌++◌, ◌≡◌, ◌⊎◌, inl, inr, refl, ap, ◌∙◌,
  append_assoc, ◌==◌, if◌then◌else◌, Bool-cases, Result, ok, err, Bytes, length, All, length-append,
  arith,
}
use terraform_ls_rs.Document.Position.{
  line_starts_after, line_start_bytes, binary_search, next_found, line_index,
}

-- The number of line feeds.
unfoldable pub newlines : Bytes → ℕ
newlines [] = 0
newlines (b ∷ text) = (if b == b'\n' then 1 else 0) + newlines text

-- The text is empty, or ends with a line feed.
abbrev pub EndsLine : Bytes → Type 0
EndsLine text = (text ≡ []) ⊎ ((line : Bytes) × (text ≡ line ++ (10 ∷ [])))

-- The text has no line feed.
abbrev pub IsWithinLine : Bytes → Type 0
IsWithinLine text = newlines text ≡ 0

pub line_starts_after-append :
    (p : ℕ) (xs ys : Bytes)
    → line_starts_after p (xs ++ ys)
      ≡ line_starts_after p xs ++ line_starts_after (p + length xs) ys
unfolding line_starts_after
line_starts_after-append p [] ys =
    let e : p ≡ p + 0 = omega arith in ap (λ n. line_starts_after n ys) e
line_starts_after-append p (b ∷ xs) ys =
    let e : p + 1 + length xs ≡ p + suc (length xs) = omega arith in
    let ih : line_starts_after (p + 1) (xs ++ ys)
        ≡ line_starts_after (p + 1) xs ++ line_starts_after (p + suc (length xs)) ys =
      line_starts_after-append (p + 1) xs ys
      ∙ ap (λ n. line_starts_after (p + 1) xs ++ line_starts_after n ys) e in
    elim (Bool-cases (b == b'\n')) [ inl h ↦ rw h (rw ih refl) | inr h ↦ rw h (rw ih refl) ]

pub line_starts_after-within : (p : ℕ) (xs : Bytes) → IsWithinLine xs → line_starts_after p xs ≡ []
unfolding line_starts_after newlines
line_starts_after-within p [] h = refl
line_starts_after-within p (b ∷ xs) h = ground (arith, line_starts_after-within (p + 1) xs)

length-line_starts_after : (p : ℕ) (xs : Bytes) → length (line_starts_after p xs) ≡ newlines xs
unfolding line_starts_after newlines
length-line_starts_after p [] = refl
length-line_starts_after p (b ∷ xs) = ground (arith, length-line_starts_after (p + 1) xs)

-- A text without line feeds only moves the starts.
line_starts_after-skip :
    (p : ℕ) (prefix rest : Bytes)
    → IsWithinLine prefix
    → line_starts_after p (prefix ++ rest) ≡ line_starts_after (p + length prefix) rest
line_starts_after-skip p prefix rest h =
    line_starts_after-append p prefix rest
    ∙ ap (λ (l : List ℕ). l ++ line_starts_after (p + length prefix) rest)
        (line_starts_after-within p prefix h)

-- A line with its line feed moves the starts, and gives one.
line_starts_after-line :
    (line : Bytes)
    → line_starts_after 0 (line ++ (10 ∷ []))
      ≡ line_starts_after 0 line ++ (length (line ++ (10 ∷ [])) ∷ [])
unfolding line_starts_after
line_starts_after-line line =
    let e : 0 + length line + 1 ≡ length (line ++ (10 ∷ [])) =
      omega (arith, length-append line (10 ∷ [])) in
    line_starts_after-append 0 line (10 ∷ []) ∙ ap (λ n. line_starts_after 0 line ++ (n ∷ [])) e

-- The starts lie after the first byte, and not after the end.
pub starts_above : (q p : ℕ) (xs : Bytes) → q ≤ p → All (λ s. q < s) (line_starts_after p xs)
unfolding line_starts_after
starts_above q p [] h = tt
starts_above q p (b ∷ xs) h = elim (Bool-cases (b == b'\n')) [
  | inl e ↦ rw e (omega arith, starts_above q (p + 1) xs (omega arith))
  | inr e ↦ rw e (starts_above q (p + 1) xs (omega arith))
]

starts_below :
    (q p : ℕ) (xs : Bytes) → p + length xs < q → All (λ s. s < q) (line_starts_after p xs)
unfolding line_starts_after
starts_below q p [] h = tt
starts_below q p (b ∷ xs) h = elim (Bool-cases (b == b'\n')) [
  | inl e ↦ rw e (omega arith, starts_below q (p + 1) xs (omega arith))
  | inr e ↦ rw e (starts_below q (p + 1) xs (omega arith))
]

line_index-next_found :
    (r : Result ℕ ℕ) (n : ℕ) → line_index r ≡ some n → line_index (next_found r) ≡ some (suc n)
line_index-next_found (ok i) n h = ground arith
line_index-next_found (err zero) n h = absurd (ground arith)
line_index-next_found (err (suc i)) n h = ground arith

-- The search finds the last start that is not after the offset.
pub line_index-binary_search :
    (before : List ℕ) (s : ℕ) (after : List ℕ) (x : ℕ)
    → All (λ y. y < s) before
    → s ≤ x
    → All (λ y. x < y) after
    → line_index (binary_search (before ++ (s ∷ after)) x) ≡ some (length before)
unfolding binary_search
line_index-binary_search [] s [] x h k l = ground arith
line_index-binary_search [] s (a ∷ after) x h k l = ground (arith, l.0)
line_index-binary_search (y ∷ before) s after x h k l =
    let ih : line_index (binary_search (before ++ (s ∷ after)) x) ≡ some (length before) =
      line_index-binary_search before s after x h.1 k l in
    let next : line_index (next_found (binary_search (before ++ (s ∷ after)) x))
        ≡ some (suc (length before)) =
      line_index-next_found (binary_search (before ++ (s ∷ after)) x) (length before) ih in
    let less : y < s = h.0 in ground arith

-- The starts of the lines of a text: those before a line, its own, and those after an offset in it.
abbrev pub IsSplit : List ℕ → Bytes → ℕ → Bytes → Type 0
IsSplit starts before offset rest =
    (earlier : List ℕ) × (starts ≡ earlier ++ (length before ∷ line_starts_after offset rest))
    × (length earlier ≡ newlines before)
    × All (λ s. s < length before) earlier

pub newlines-append : (xs ys : Bytes) → newlines (xs ++ ys) ≡ newlines xs + newlines ys
unfolding newlines
newlines-append [] ys = omega arith
newlines-append (b ∷ xs) ys = omega (arith, newlines-append xs ys)

pub line_start_bytes-IsSplit :
    (before prefix rest : Bytes)
    → EndsLine before
    → IsWithinLine prefix
    → IsSplit
        (line_start_bytes (before ++ (prefix ++ rest)))
        before
        (length before + length prefix)
        rest
unfolding line_start_bytes newlines
line_start_bytes-IsSplit before prefix rest (inl e) h =
    rw e ([], ap (λ (l : List ℕ). 0 ∷ l) (line_starts_after-skip 0 prefix rest h), refl, tt)
line_start_bytes-IsSplit before prefix rest (inr (line, e)) h =
    let full = line ++ (10 ∷ []) in
    let skipped : line_starts_after (0 + length full) (prefix ++ rest)
        ≡ line_starts_after (length full + length prefix) rest =
      line_starts_after-skip (0 + length full) prefix rest h
      ∙ ap (λ n. line_starts_after n rest) (omega arith) in
    let one : newlines (10 ∷ []) ≡ 1 = omega arith in
    rw e (
      0 ∷ line_starts_after 0 line,
      ap (λ (l : List ℕ). 0 ∷ l)
          (line_starts_after-append 0 full (prefix ++ rest)
            ∙ ap (λ (l : List ℕ). l ++ line_starts_after (0 + length full) (prefix ++ rest))
                (line_starts_after-line line)
            ∙ append_assoc (line_starts_after 0 line) (length full ∷ [])
                (line_starts_after (0 + length full) (prefix ++ rest))
            ∙ ap (λ (l : List ℕ). line_starts_after 0 line ++ (length full ∷ l)) skipped),
      omega (arith, length-line_starts_after 0 line, newlines-append line (10 ∷ []), one),
      (
        omega (arith, length-append line (10 ∷ [])),
        starts_below (length full) 0 line (omega (arith, length-append line (10 ∷ []))),
      ),
    )
