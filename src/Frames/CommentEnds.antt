-- ===== src/Frames/CommentEnds.antt =====
-- `comment_mask`, crates/tfls-core/src/completion.rs, ends without a panic.
use terraform_ls_rs.Base.{
  ℕ, zero, suc, ◌+◌, ◌-◌, ◌≤◌, Bool, true, false, ◌&&◌, ◌||◌, Option, none, some, ◌>>=◌, List, [],
  ◌∷◌, ◌==◌, ◌≡◌, refl, if◌then◌else◌, Bytes, codes, count_while, starts_with, drop, length,
  length-append, get_elem?, All, arith,
}
use terraform_ls_rs.Base.Scan.{length-drop, count_while-le}
use terraform_ls_rs.Frames.Scan.{Frame, Turn, turn, ends_line}
use terraform_ls_rs.Frames.Comments.{
  CommentTurn, block_comment, not_newline, without_mark, comment_of, live_turn, comment_turn, bits,
  prepend_bits, comment_scan, comment_mask,
}
use terraform_ls_rs.Frames.Ends.{IsValid, Makes, turn-Makes}

block_comment-le : (s : Bytes) → block_comment s ≤ length s
unfolding block_comment starts_with
block_comment-le [] = omega arith
block_comment-le (b ∷ []) = ground (arith, block_comment-le [])
block_comment-le (b ∷ c ∷ s) = ground (arith, block_comment-le (c ∷ s))

-- A round that does not panic, goes on within the text, and keeps the frames valid.
abbrev GoesOn : Bytes → Option CommentTurn → Type 0
GoesOn s none = ⊥
GoesOn s (some t) = All IsValid t.stack × (1 ≤ t.advance) × (t.advance ≤ suc (length s))

GoesOn-if :
    (s : Bytes) (c : Bool) (t u : Option CommentTurn)
    → (c ≡ true → GoesOn s t)
    → (c ≡ false → GoesOn s u)
    → GoesOn s (if c then t else u)
GoesOn-if s true t u h k = h refl
GoesOn-if s false t u h k = k refl

Makes-GoesOn :
    (b : ℕ) (s : Bytes) (o : Option Turn)
    → Makes b s o
    → GoesOn s (o >>= (λ t. some (without_mark t)))
Makes-GoesOn b s none h = absurd h
Makes-GoesOn b s (some t) h = (h.0, h.1, h.2)

line_comment-pos :
    (b : ℕ) (s : Bytes)
    → (b == b'#' || b == b'/' && starts_with s (codes "/")) ≡ true
    → 1 ≤ count_while not_newline (b ∷ s)
unfolding count_while
line_comment-pos b s h = ground arith

block_comment-fits :
    (b : ℕ) (s : Bytes)
    → (b == b'/' && starts_with s (codes "*")) ≡ true
    → 2 + block_comment (drop 1 s) ≤ suc (length s)
unfolding starts_with
block_comment-fits b [] h = absurd (ground arith)
block_comment-fits b (c ∷ s) h = omega (arith, block_comment-le s)

live_turn-GoesOn : (line_start : Bool) (b : ℕ) (s : Bytes) → GoesOn s (live_turn line_start b s)
unfolding live_turn
live_turn-GoesOn line_start b s =
    let code = turn [] line_start b s >>= (λ t. some (without_mark t)) in
    let block = some (comment_of (2 + block_comment (drop 1 s))) in
    GoesOn-if s (b == b'#' || b == b'/' && starts_with s (codes "/"))
      (some (comment_of (count_while not_newline (b ∷ s))))
      (if b == b'/' && starts_with s (codes "*") then block else code)
      (λ e. (tt, line_comment-pos b s e, count_while-le not_newline (b ∷ s)))
      (λ e.
        GoesOn-if s (b == b'/' && starts_with s (codes "*")) block code
          (λ c. (tt, omega arith, block_comment-fits b s c))
          (λ c. Makes-GoesOn b s (turn [] line_start b s) (turn-Makes [] line_start b s tt)))

comment_turn-GoesOn :
    (stack : List Frame) (line_start : Bool) (b : ℕ) (s : Bytes)
    → All IsValid stack
    → GoesOn s (comment_turn stack line_start b s)
comment_turn-GoesOn [] line_start b s h = live_turn-GoesOn line_start b s
comment_turn-GoesOn (frame ∷ outer) line_start b s h =
    Makes-GoesOn b s (turn (frame ∷ outer) line_start b s)
      (turn-Makes (frame ∷ outer) line_start b s h)

length-bits : (comment : Bool) (n : ℕ) → length (bits comment n) ≡ n
unfolding bits
length-bits comment zero = refl
length-bits comment (suc n) = omega (arith, length-bits comment n)

-- The mask has a bit for each byte.
abbrev pub Fills : Bytes → Option (List Bool) → Type 0
Fills s none = ⊥
Fills s (some mask) = length mask ≡ length s

Fills-bits :
    (b : ℕ) (s : Bytes) (t : CommentTurn) (o : Option (List Bool))
    → t.advance ≤ suc (length s)
    → Fills (drop t.advance (b ∷ s)) o
    → Fills (b ∷ s) (prepend_bits (bits t.comment t.advance) o)
Fills-bits b s t none h k = absurd k
Fills-bits b s t (some mask) h k = omega (
  arith,
  length-append (bits t.comment t.advance) mask,
  length-bits t.comment t.advance,
  length-drop t.advance (b ∷ s),
)

Fills-turn :
    (b : ℕ) (s : Bytes) (o : Option CommentTurn) (next : CommentTurn → Option (List Bool))
    → GoesOn s o
    → ((t : CommentTurn) → GoesOn s (some t) → Fills (drop t.advance (b ∷ s)) (next t))
    → Fills (b ∷ s) (o >>= (λ t. prepend_bits (bits t.comment t.advance) (next t)))
Fills-turn b s none next h k = absurd h
Fills-turn b s (some t) next h k = Fills-bits b s t (next t) h.2 (k t h)

comment_scan-Fills :
    (fuel : ℕ) (stack : List Frame) (line_start : Bool) (s : Bytes)
    → All IsValid stack
    → length s ≤ fuel
    → Fills s (comment_scan fuel stack line_start s)
unfolding comment_scan
comment_scan-Fills zero stack line_start [] h k = refl
comment_scan-Fills (suc fuel) stack line_start [] h k = refl
comment_scan-Fills zero stack line_start (b ∷ s) h k = absurd (omega arith)
comment_scan-Fills (suc fuel) stack line_start (b ∷ s) h k =
    Fills-turn b s (comment_turn stack line_start b s)
      (λ t.
        comment_scan fuel t.stack (ends_line (get_elem? (b ∷ s) (t.advance - 1)))
          (drop t.advance (b ∷ s)))
      (comment_turn-GoesOn stack line_start b s h)
      (λ t p.
        comment_scan-Fills fuel t.stack (ends_line (get_elem? (b ∷ s) (t.advance - 1)))
          (drop t.advance (b ∷ s)) p.0 (omega (arith, p.1, length-drop t.advance (b ∷ s))))

mask_of_Fills :
    (s : Bytes) (o : Option (List Bool))
    → Fills s o
    → (mask : List Bool) × (o ≡ some mask) × (length mask ≡ length s)
mask_of_Fills s none h = absurd h
mask_of_Fills s (some mask) h = (mask, refl, h)

pub comment_mask-length :
    (src : Bytes) → (mask : List Bool) × (comment_mask src ≡ some mask) × (length mask ≡ length src)
comment_mask-length src =
    mask_of_Fills src (comment_mask src)
      (comment_scan-Fills (length src) [] true src tt (omega arith))
