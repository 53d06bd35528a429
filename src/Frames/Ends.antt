-- ===== src/Frames/Ends.antt =====
-- The scan for frames, crates/tfls-core/src/completion.rs, ends without a panic, and its mask marks
-- braces.
use terraform_ls_rs.Base.{
  ℕ, zero, suc, ◌+◌, ◌≤◌, Bool, true, false, ◌&&◌, Option, none, some, List, [], ◌∷◌, ◌==◌, ◌≡◌,
  refl, if◌then◌else◌, Bytes, codes, starts_with, length, All, Bool-cases, inl, inr, arith,
}
use terraform_ls_rs.Frames.Heredoc.{parse_heredoc_opener, match_heredoc_closer}
use terraform_ls_rs.Frames.Scan.{
  Frame, string, interp, heredoc, Turn, is_brace, opens_interp, go_on, open_heredoc, code_turn,
  interp_turn, plain_turn, is_last, string_turn, close_heredoc, heredoc_turn, close_brace,
  brace_turn, turn,
}
use terraform_ls_rs.Frames.Within.{
  Within, match_heredoc_closer-Within, IsOpener, parse_heredoc_opener-IsOpener,
}

-- An interpolation has an open brace, and a heredoc a tag.
abbrev pub IsValid : Frame → Type 0
IsValid string = Unit
IsValid (interp depth) = 1 ≤ depth
IsValid (heredoc tag indented) = 1 ≤ length tag

-- The marked byte is a brace.
abbrev pub MarksBrace : ℕ → Bytes → Option ℕ → Type 0
MarksBrace b s none = Unit
MarksBrace b s (some zero) = is_brace b ≡ true
MarksBrace b s (some (suc zero)) = starts_with s (codes "{") ≡ true
MarksBrace b s (some (suc (suc k))) = ⊥

-- The round goes on within the text, keeps the frames valid, and marks a brace or nothing.
abbrev pub Proceeds : ℕ → Bytes → Turn → Type 0
Proceeds b s t =
    All IsValid t.stack × (1 ≤ t.advance) × (t.advance ≤ suc (length s)) × MarksBrace b s t.marked

Proceeds-if :
    (b : ℕ) (s : Bytes) (c : Bool) (t u : Turn)
    → (c ≡ true → Proceeds b s t)
    → (c ≡ false → Proceeds b s u)
    → Proceeds b s (if c then t else u)
Proceeds-if b s true t u h k = h refl
Proceeds-if b s false t u h k = k refl

go_on-Proceeds :
    (b : ℕ) (s : Bytes) (stack : List Frame) → All IsValid stack → Proceeds b s (go_on 1 stack)
go_on-Proceeds b s stack h = (h, omega arith, omega arith, tt)

open_heredoc-Proceeds :
    (b : ℕ) (s : Bytes) (o : Option (Bytes × Bool × ℕ))
    → IsOpener (suc (length s)) o
    → Proceeds b s (open_heredoc o)
open_heredoc-Proceeds b s none h = go_on-Proceeds b s [] tt
open_heredoc-Proceeds b s (some (tag, indented, after)) h = ((h.0, tt), h.1, h.2, tt)

code_turn-Proceeds : (b : ℕ) (s : Bytes) → Proceeds b s (code_turn b s)
unfolding code_turn
code_turn-Proceeds b s =
    Proceeds-if b s (b == b'"') (go_on 1 (string ∷ []))
      (if b == b'<' then open_heredoc (parse_heredoc_opener (b ∷ s)) else go_on 1 [])
      (λ e. go_on-Proceeds b s (string ∷ []) (tt, tt))
      (λ e.
        Proceeds-if b s (b == b'<') (open_heredoc (parse_heredoc_opener (b ∷ s))) (go_on 1 [])
          (λ e.
            open_heredoc-Proceeds b s (parse_heredoc_opener (b ∷ s))
              (parse_heredoc_opener-IsOpener (b ∷ s)))
          (λ e. go_on-Proceeds b s [] tt))

interp_turn-Proceeds :
    (b : ℕ) (s : Bytes) (stack : List Frame)
    → All IsValid stack
    → opens_interp b s ≡ true
    → Proceeds b s (interp_turn stack)
unfolding starts_with
interp_turn-Proceeds b [] stack h e = absurd (ground arith)
interp_turn-Proceeds b (c ∷ s) stack h e =
    ((omega arith, h), omega arith, omega arith, ground arith)

plain_turn-Proceeds :
    (b : ℕ) (s : Bytes) (stack : List Frame) → All IsValid stack → Proceeds b s (plain_turn stack b)
plain_turn-Proceeds b s stack h = elim (Bool-cases (is_brace b)) [
  | inl e ↦ rw e (h, omega arith, omega arith, e)
  | inr e ↦ rw e (h, omega arith, omega arith, tt)
]

literal_turn-Proceeds :
    (b : ℕ) (s : Bytes) (stack : List Frame)
    → All IsValid stack
    → Proceeds b s (if opens_interp b s then interp_turn stack else plain_turn stack b)
literal_turn-Proceeds b s stack h =
    Proceeds-if b s (opens_interp b s) (interp_turn stack) (plain_turn stack b)
      (λ e. interp_turn-Proceeds b s stack h e) (λ e. plain_turn-Proceeds b s stack h)

escape-Proceeds :
    (b : ℕ) (s : Bytes) (stack : List Frame)
    → All IsValid stack
    → (if is_last s then false else true) ≡ true
    → Proceeds b s (go_on 2 stack)
escape-Proceeds b [] stack h e = absurd (ground arith)
escape-Proceeds b (c ∷ s) stack h e = (h, omega arith, omega arith, tt)

string_turn-Proceeds :
    (outer : List Frame) (b : ℕ) (s : Bytes)
    → All IsValid outer
    → Proceeds b s (string_turn outer b s)
unfolding string_turn
string_turn-Proceeds outer b s h =
    let literal =
      if opens_interp b s then interp_turn (string ∷ outer) else plain_turn (string ∷ outer) b in
    Proceeds-if b s (b == b'\\' && (if is_last s then false else true)) (go_on 2 (string ∷ outer))
      (if b == b'"' then go_on 1 outer else literal)
      (λ e. escape-Proceeds b s (string ∷ outer) (tt, h) (ground arith))
      (λ e.
        Proceeds-if b s (b == b'"') (go_on 1 outer) literal (λ e. go_on-Proceeds b s outer h)
          (λ e. literal_turn-Proceeds b s (string ∷ outer) (tt, h)))

close_heredoc-Proceeds :
    (b : ℕ) (s : Bytes) (outer : List Frame) (inside : Turn) (o : Option ℕ)
    → All IsValid outer
    → Proceeds b s inside
    → Within 1 (suc (length s)) o
    → Proceeds b s (close_heredoc outer inside o)
close_heredoc-Proceeds b s outer inside none h k l = k
close_heredoc-Proceeds b s outer inside (some after) h k l = (h, l.0, l.1, tt)

heredoc_turn-Proceeds :
    (outer : List Frame) (tag : Bytes) (indented line_start : Bool) (b : ℕ) (s : Bytes)
    → All IsValid outer
    → 1 ≤ length tag
    → Proceeds b s (heredoc_turn outer tag indented line_start b s)
unfolding heredoc_turn
heredoc_turn-Proceeds outer tag indented line_start b s h k =
    let stack = heredoc tag indented ∷ outer in
    close_heredoc-Proceeds b s outer
      (if opens_interp b s then interp_turn stack else plain_turn stack b)
      (match_heredoc_closer line_start (b ∷ s) tag indented) h
      (literal_turn-Proceeds b s stack (k, h))
      (match_heredoc_closer-Within line_start (b ∷ s) tag indented k)

-- The round does not panic.
abbrev pub Makes : ℕ → Bytes → Option Turn → Type 0
Makes b s none = ⊥
Makes b s (some t) = Proceeds b s t

close_brace-Makes :
    (b : ℕ) (s : Bytes) (outer : List Frame) (depth : ℕ)
    → All IsValid outer
    → 1 ≤ depth
    → is_brace b ≡ true
    → Makes b s (close_brace outer depth)
close_brace-Makes b s outer zero h k e = absurd (omega arith)
close_brace-Makes b s outer (suc zero) h k e = (h, omega arith, omega arith, e)
close_brace-Makes b s outer (suc (suc depth)) h k e =
    ((omega arith, h), omega arith, omega arith, e)

Makes-if :
    (b : ℕ) (s : Bytes) (c : Bool) (t u : Option Turn)
    → (c ≡ true → Makes b s t)
    → (c ≡ false → Makes b s u)
    → Makes b s (if c then t else u)
Makes-if b s true t u h k = h refl
Makes-if b s false t u h k = k refl

brace_turn-Makes :
    (outer : List Frame) (depth b : ℕ) (s : Bytes)
    → All IsValid outer
    → 1 ≤ depth
    → Makes b s (brace_turn outer depth b)
unfolding brace_turn
brace_turn-Makes outer depth b s h k =
    let opened : Turn = record {
      advance = 1;
      stack = interp (depth + 1) ∷ outer;
      marked = some 0;
    } in
    let plain = go_on 1 (interp depth ∷ outer) in
    Makes-if b s (b == b'"') (some (go_on 1 (string ∷ interp depth ∷ outer)))
      (if b == b'{' then some opened else if b == b'}' then close_brace outer depth else some plain)
      (λ e. go_on-Proceeds b s (string ∷ interp depth ∷ outer) (tt, (k, h)))
      (λ e.
        Makes-if b s (b == b'{') (some opened)
          (if b == b'}' then close_brace outer depth else some plain)
          (λ e. ((omega arith, h), omega arith, omega arith, ground arith))
          (λ e.
            Makes-if b s (b == b'}') (close_brace outer depth) (some plain)
              (λ e. close_brace-Makes b s outer depth h k (ground arith))
              (λ e. go_on-Proceeds b s (interp depth ∷ outer) (k, h))))

pub turn-Makes :
    (stack : List Frame) (line_start : Bool) (b : ℕ) (s : Bytes)
    → All IsValid stack
    → Makes b s (turn stack line_start b s)
turn-Makes [] line_start b s h = code_turn-Proceeds b s
turn-Makes (string ∷ outer) line_start b s h = string_turn-Proceeds outer b s h.1
turn-Makes (heredoc tag indented ∷ outer) line_start b s h =
    heredoc_turn-Proceeds outer tag indented line_start b s h.1 h.0
turn-Makes (interp depth ∷ outer) line_start b s h = brace_turn-Makes outer depth b s h.1 h.0
