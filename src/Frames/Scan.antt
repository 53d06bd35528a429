-- ===== src/Frames/Scan.antt =====
-- `ignored_brace_positions` and `cursor_in_string_literal`, crates/tfls-core/src/completion.rs. They
-- run one machine, which the second does without the mask.
use terraform_ls_rs.Base.{
  ℕ, zero, suc, ◌+◌, ◌-◌, Bool, true, false, ◌&&◌, ◌||◌, Option, none, some, ◌>>=◌, List, [], ◌∷◌,
  ◌++◌, ◌==◌, if◌then◌else◌, Bytes, codes, starts_with, drop, length, get_elem?,
}
use terraform_ls_rs.Frames.Heredoc.{parse_heredoc_opener, match_heredoc_closer}

pub data Frame : Type 0 where
  string : Frame
  interp : ℕ → Frame
  heredoc : Bytes → Bool → Frame

-- What one round does: how far it goes on, the stack after it, and which byte from here it marks.
pub record Turn : Type 0 where
  pub advance : ℕ
  pub stack : List Frame
  pub marked : Option ℕ

abbrev pub is_brace : ℕ → Bool
is_brace b = b == b'{' || b == b'}'

abbrev pub mark_brace : ℕ → Option ℕ
mark_brace b = if is_brace b then some 0 else none

abbrev pub opens_interp : ℕ → Bytes → Bool
opens_interp b s = (b == b'$' || b == b'%') && starts_with s (codes "{")

abbrev pub go_on : ℕ → List Frame → Turn
go_on n stack = record { advance = n; stack = stack; marked = none }

abbrev pub open_heredoc : Option (Bytes × Bool × ℕ) → Turn
open_heredoc none = go_on 1 []
open_heredoc (some (tag, indented, after)) = go_on after (heredoc tag indented ∷ [])

-- In live code, at `b` and what follows.
unfoldable pub code_turn : ℕ → Bytes → Turn
unfolding parse_heredoc_opener
code_turn b s =
    if b == b'"'
    then go_on 1 (string ∷ [])
    else if b == b'<'
    then open_heredoc (parse_heredoc_opener (b ∷ s))
    else go_on 1 []

abbrev pub interp_turn : List Frame → Turn
interp_turn stack = record { advance = 2; stack = interp 1 ∷ stack; marked = some 1 }

abbrev pub plain_turn : List Frame → ℕ → Turn
plain_turn stack b = record { advance = 1; stack = stack; marked = mark_brace b }

abbrev pub is_last : Bytes → Bool
is_last [] = true
is_last (b ∷ s) = false

unfoldable pub string_turn : List Frame → ℕ → Bytes → Turn
unfolding starts_with
string_turn outer b s =
    if b == b'\\' && (if is_last s then false else true)
    then go_on 2 (string ∷ outer)
    else if b == b'"'
    then go_on 1 outer
    else if opens_interp b s
    then interp_turn (string ∷ outer)
    else plain_turn (string ∷ outer) b

abbrev pub close_heredoc : List Frame → Turn → Option ℕ → Turn
close_heredoc outer inside none = inside
close_heredoc outer inside (some after) = go_on after outer

unfoldable pub heredoc_turn : List Frame → Bytes → Bool → Bool → ℕ → Bytes → Turn
unfolding match_heredoc_closer starts_with
heredoc_turn outer tag indented line_start b s =
    close_heredoc outer
      (if opens_interp b s
        then interp_turn (heredoc tag indented ∷ outer)
        else plain_turn (heredoc tag indented ∷ outer) b)
      (match_heredoc_closer line_start (b ∷ s) tag indented)

-- A closing brace. Without a value the subtraction overflows.
abbrev pub close_brace : List Frame → ℕ → Option Turn
close_brace outer zero = none
close_brace outer (suc zero) = some (record { advance = 1; stack = outer; marked = some 0 })
close_brace outer (suc (suc depth)) =
    some (record { advance = 1; stack = interp (suc depth) ∷ outer; marked = some 0 })

unfoldable pub brace_turn : List Frame → ℕ → ℕ → Option Turn
brace_turn outer depth b =
    if b == b'"'
    then some (go_on 1 (string ∷ interp depth ∷ outer))
    else if b == b'{'
    then some (record { advance = 1; stack = interp (depth + 1) ∷ outer; marked = some 0 })
    else if b == b'}'
    then close_brace outer depth
    else some (go_on 1 (interp depth ∷ outer))

abbrev pub turn : List Frame → Bool → ℕ → Bytes → Option Turn
turn [] line_start b s = some (code_turn b s)
turn (string ∷ outer) line_start b s = some (string_turn outer b s)
turn (heredoc tag indented ∷ outer) line_start b s =
    some (heredoc_turn outer tag indented line_start b s)
turn (interp depth ∷ outer) line_start b s = brace_turn outer depth b

-- The part of the mask that a round fills.
unfoldable pub mask_from : Option ℕ → ℕ → List Bool
mask_from marked zero = []
mask_from none (suc n) = false ∷ mask_from none n
mask_from (some zero) (suc n) = true ∷ mask_from none n
mask_from (some (suc k)) (suc n) = false ∷ mask_from (some k) n

abbrev pub ends_line : Option ℕ → Bool
ends_line none = false
ends_line (some b) = b == b'\n'

abbrev pub fill : List Bool → Option (List Bool × List Frame) → Option (List Bool × List Frame)
fill bits none = none
fill bits (some (mask, frames)) = some (bits ++ mask, frames)

-- The loop: the mask, and the frames at the end.
unfoldable pub scan : ℕ → List Frame → Bool → Bytes → Option (List Bool × List Frame)
unfolding code_turn string_turn heredoc_turn brace_turn mask_from
scan fuel stack line_start [] = some ([], stack)
scan zero stack line_start (b ∷ s) = none
scan (suc fuel) stack line_start (b ∷ s) = turn stack line_start b s >>= (λ t.
    fill (mask_from t.marked t.advance)
      (scan fuel t.stack (ends_line (get_elem? (b ∷ s) (t.advance - 1))) (drop t.advance (b ∷ s))))

abbrev pub run : Bytes → Option (List Bool × List Frame)
run src = scan (length src) [] true src

-- Without a value the program panics, or does not end.
abbrev pub ignored_brace_positions : Bytes → Option (List Bool)
ignored_brace_positions src = run src >>= (λ (mask, frames). some mask)

abbrev pub in_literal : List Frame → Bool
in_literal [] = false
in_literal (string ∷ outer) = true
in_literal (heredoc tag indented ∷ outer) = true
in_literal (interp depth ∷ outer) = false

abbrev pub cursor_in_string_literal : Bytes → Option Bool
cursor_in_string_literal before = run before >>= (λ (mask, frames). some (in_literal frames))
