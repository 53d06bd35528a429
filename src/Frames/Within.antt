-- ===== src/Frames/Within.antt =====
-- Where the lines that open and close a heredoc end, crates/tfls-core/src/completion.rs.
use terraform_ls_rs.Base.{
  ℕ, zero, suc, ◌+◌, ◌≤◌, Bool, true, false, not, Option, none, some, ◌>>=◌, [], ◌∷◌, ◌==◌, ◌≡◌,
  refl, if◌then◌else◌, Bytes, codes, count_while, starts_with, take, drop, length, Bool-cases, inl,
  inr, arith,
}
use terraform_ls_rs.Base.Scan.{length-drop, count_while-le}
use terraform_ls_rs.Frames.Heredoc.{
  is_tag_char, is_space, line_break, end_of_line, opener_at, parse_heredoc_opener,
  match_heredoc_closer,
}

-- A position is found after `low` bytes at least, and within `high`.
abbrev pub Within : ℕ → ℕ → Option ℕ → Type 0
Within low high none = Unit
Within low high (some n) = (low ≤ n) × (n ≤ high)

line_break-Within : (s : Bytes) → Within 0 (length s) (line_break s)
unfolding line_break starts_with
line_break-Within [] = (omega arith, omega arith)
line_break-Within (c ∷ []) = ground arith
line_break-Within (c ∷ d ∷ s) = ground arith

Within-shift :
    (n m high k : ℕ) (o : Option ℕ)
    → Within 0 k o
    → m + k ≤ high
    → Within n (n + high) (o >>= (λ width. some (n + (m + width))))
Within-shift n m high k none h l = tt
Within-shift n m high k (some w) h l = (omega arith, omega arith)

end_of_line-Within : (n : ℕ) (s : Bytes) → Within n (n + length s) (end_of_line n s)
unfolding end_of_line
end_of_line-Within n s =
    let blanks = count_while is_space s in
    Within-shift n blanks (length s) (length (drop blanks s)) (line_break (drop blanks s))
      (line_break-Within (drop blanks s))
      (omega (arith, length-drop blanks s, count_while-le is_space s))

Within-le :
    (low low' high high' : ℕ) (o : Option ℕ)
    → Within low high o
    → low' ≤ low
    → high ≤ high'
    → Within low' high' o
Within-le low low' high high' none h l m = tt
Within-le low low' high high' (some n) h l m = (omega arith, omega arith)

length-starts_with : (s t : Bytes) → starts_with s t ≡ true → length t ≤ length s
unfolding starts_with
length-starts_with s [] h = omega arith
length-starts_with [] (c ∷ t) h = absurd (ground arith)
length-starts_with (b ∷ s) (c ∷ t) h = omega (arith, length-starts_with s t (ground arith))

Within-if :
    (low high : ℕ) (b : Bool) (o p : Option ℕ)
    → (b ≡ true → Within low high o)
    → (b ≡ false → Within low high p)
    → Within low high (if b then o else p)
Within-if low high true o p h k = h refl
Within-if low high false o p h k = k refl

blanks_le :
    (indented : Bool) (s : Bytes) → (if indented then count_while is_space s else 0) ≤ length s
blanks_le true s = count_while-le is_space s
blanks_le false s = omega arith

-- The closer of a tag that is not empty steps over a byte.
pub match_heredoc_closer-Within :
    (line_start : Bool) (s tag : Bytes) (indented : Bool)
    → 1 ≤ length tag
    → Within 1 (length s) (match_heredoc_closer line_start s tag indented)
unfolding match_heredoc_closer
match_heredoc_closer-Within line_start s tag indented h =
    let blanks = if indented then count_while is_space s else 0 in
    let line = drop blanks s in
    let fits : blanks ≤ length s = blanks_le indented s in
    Within-if 1 (length s) (not line_start) none
      (if starts_with line tag
        then end_of_line (blanks + length tag) (drop (length tag) line)
        else none)
      (λ e. tt)
      (λ e.
        Within-if 1 (length s) (starts_with line tag)
          (end_of_line (blanks + length tag) (drop (length tag) line)) none
          (λ starts.
            Within-le (blanks + length tag) 1
              (blanks + length tag + length (drop (length tag) line)) (length s)
              (end_of_line (blanks + length tag) (drop (length tag) line))
              (end_of_line-Within (blanks + length tag) (drop (length tag) line)) (omega arith)
              (omega (
                arith,
                length-drop (length tag) line,
                length-drop blanks s,
                length-starts_with line tag starts,
              )))
          (λ e. tt))

-- The opener has a tag, and steps over it.
abbrev pub IsOpener : ℕ → Option (Bytes × Bool × ℕ) → Type 0
IsOpener high none = Unit
IsOpener high (some (tag, indented, after)) = (1 ≤ length tag) × (1 ≤ after) × (after ≤ high)

length-take : (n : ℕ) (s : Bytes) → n ≤ length s → length (take n s) ≡ n
length-take zero s h = refl
length-take (suc n) [] h = absurd (omega arith)
length-take (suc n) (b ∷ s) h = omega (arith, length-take n s (omega arith))

IsOpener-after :
    (high low : ℕ) (tag : Bytes) (indented : Bool) (o : Option ℕ)
    → 1 ≤ length tag
    → 1 ≤ low
    → Within low high o
    → IsOpener high (o >>= (λ after. some (tag, indented, after)))
IsOpener-after high low tag indented none h k l = tt
IsOpener-after high low tag indented (some n) h k l = (h, omega arith, l.1)

opener_at-IsOpener :
    (n : ℕ) (indented : Bool) (s : Bytes) → 1 ≤ n → IsOpener (n + length s) (opener_at n indented s)
unfolding opener_at
opener_at-IsOpener n indented s h = elim (Bool-cases (count_while is_tag_char s == 0)) [
  | inl e ↦ rw e tt
  | inr e ↦
      let width = count_while is_tag_char s in
      let long : 1 ≤ width = ground arith in
      let fits : width ≤ length s = count_while-le is_tag_char s in
      rw e (
        IsOpener-after (n + length s) (n + width) (take width s) indented
          (end_of_line (n + width) (drop width s)) (omega (arith, length-take width s fits))
          (omega arith)
          (Within-le (n + width) (n + width) (n + width + length (drop width s)) (n + length s)
            (end_of_line (n + width) (drop width s)) (end_of_line-Within (n + width) (drop width s))
            (omega arith) (omega (arith, length-drop width s))))
]

IsOpener-le :
    (high high' : ℕ) (o : Option (Bytes × Bool × ℕ))
    → IsOpener high o
    → high ≤ high'
    → IsOpener high' o
IsOpener-le high high' none h k = tt
IsOpener-le high high' (some (tag, indented, after)) h k = (h.0, h.1, omega (arith, h.2))

IsOpener-if :
    (high : ℕ) (b : Bool) (o p : Option (Bytes × Bool × ℕ))
    → (b ≡ true → IsOpener high o)
    → (b ≡ false → IsOpener high p)
    → IsOpener high (if b then o else p)
IsOpener-if high true o p h k = h refl
IsOpener-if high false o p h k = k refl

pub parse_heredoc_opener-IsOpener : (s : Bytes) → IsOpener (length s) (parse_heredoc_opener s)
unfolding parse_heredoc_opener
parse_heredoc_opener-IsOpener s =
    let tag_text = drop 2 s in
    IsOpener-if (length s) (not (starts_with s (codes "<<"))) none
      (if starts_with tag_text (codes "-")
        then opener_at 3 true (drop 1 tag_text)
        else opener_at 2 false tag_text)
      (λ e. tt)
      (λ e.
        let two : 2 ≤ length s = length-starts_with s (codes "<<") (ground arith) in
        IsOpener-if (length s) (starts_with tag_text (codes "-"))
          (opener_at 3 true (drop 1 tag_text)) (opener_at 2 false tag_text)
          (λ dash.
            IsOpener-le (3 + length (drop 1 tag_text)) (length s)
              (opener_at 3 true (drop 1 tag_text))
              (opener_at-IsOpener 3 true (drop 1 tag_text) (omega arith))
              (omega (
                arith,
                length-drop 1 tag_text,
                length-drop 2 s,
                length-starts_with tag_text (codes "-") dash,
              )))
          (λ plain.
            IsOpener-le (2 + length tag_text) (length s) (opener_at 2 false tag_text)
              (opener_at-IsOpener 2 false tag_text (omega arith)) (omega (arith, length-drop 2 s))))
