-- ===== src/Frames/Comments.antt =====
-- `comment_mask`, crates/tfls-core/src/completion.rs: the machine of Frames.Scan with comments, which
-- begin in live code only.
use terraform_ls_rs.Base.{
  ℕ, zero, suc, ◌+◌, ◌-◌, Bool, true, false, not, ◌&&◌, ◌||◌, Option, none, some, ◌>>=◌, List, [],
  ◌∷◌, ◌++◌, ◌==◌, if◌then◌else◌, Bytes, codes, count_while, starts_with, drop, length, get_elem?,
}
use terraform_ls_rs.Frames.Scan.{Frame, Turn, turn, ends_line}

-- One round: how far it goes on, the stack after it, and whether its bytes are a comment.
pub record CommentTurn : Type 0 where
  pub advance : ℕ
  pub stack : List Frame
  pub comment : Bool

-- The bytes behind `/*`, to the end of the comment or of the text.
unfoldable pub block_comment : Bytes → ℕ
unfolding starts_with
block_comment [] = 0
block_comment (b ∷ s) =
    let rest = block_comment s in if starts_with (b ∷ s) (codes "*/") then 2 else suc rest

abbrev pub not_newline : ℕ → Bool
not_newline b = not (b == b'\n')

abbrev pub without_mark : Turn → CommentTurn
without_mark t = record { advance = t.advance; stack = t.stack; comment = false }

abbrev pub comment_of : ℕ → CommentTurn
comment_of n = record { advance = n; stack = []; comment = true }

unfoldable pub live_turn : Bool → ℕ → Bytes → Option CommentTurn
unfolding block_comment count_while starts_with
live_turn line_start b s =
    let code = turn [] line_start b s >>= (λ t. some (without_mark t)) in
    if b == b'#' || b == b'/' && starts_with s (codes "/")
    then some (comment_of (count_while not_newline (b ∷ s)))
    else if b == b'/' && starts_with s (codes "*")
    then some (comment_of (2 + block_comment (drop 1 s)))
    else code

abbrev pub comment_turn : List Frame → Bool → ℕ → Bytes → Option CommentTurn
comment_turn [] line_start b s = live_turn line_start b s
comment_turn (frame ∷ outer) line_start b s =
    turn (frame ∷ outer) line_start b s >>= (λ t. some (without_mark t))

-- The bits of a round.
unfoldable pub bits : Bool → ℕ → List Bool
bits comment zero = []
bits comment (suc n) = comment ∷ bits comment n

abbrev pub prepend_bits : List Bool → Option (List Bool) → Option (List Bool)
prepend_bits b none = none
prepend_bits b (some mask) = some (b ++ mask)

unfoldable pub comment_scan : ℕ → List Frame → Bool → Bytes → Option (List Bool)
unfolding live_turn bits
comment_scan fuel stack line_start [] = some []
comment_scan zero stack line_start (b ∷ s) = none
comment_scan (suc fuel) stack line_start (b ∷ s) = comment_turn stack line_start b s >>= (λ t.
    prepend_bits (bits t.comment t.advance) (
      comment_scan fuel t.stack (ends_line (get_elem? (b ∷ s) (t.advance - 1)))
        (drop t.advance (b ∷ s))))

-- Without a value the program panics, or does not end.
abbrev pub comment_mask : Bytes → Option (List Bool)
comment_mask src = comment_scan (length src) [] true src
