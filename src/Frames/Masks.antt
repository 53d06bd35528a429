-- ===== src/Frames/Masks.antt =====
-- The mask of `ignored_brace_positions`, crates/tfls-core/src/completion.rs.
use terraform_ls_rs.Base.{
  ℕ, zero, suc, ◌-◌, ◌≤◌, Bool, true, Option, none, some, ◌>>=◌, List, [], ◌∷◌, ◌++◌, ◌≡◌, refl,
  Bytes, starts_with, drop, length, get_elem?, All, arith,
}
use terraform_ls_rs.Base.Scan.{length-drop}
use terraform_ls_rs.Frames.Scan.{
  Frame, Turn, is_brace, turn, mask_from, fill, ends_line, scan, run, ignored_brace_positions,
  in_literal, cursor_in_string_literal,
}
use terraform_ls_rs.Frames.Comments.{comment_mask}
use terraform_ls_rs.Frames.CommentEnds.{comment_mask-length}
use terraform_ls_rs.Frames.Ends.{IsValid, MarksBrace, Proceeds, Makes, turn-Makes}

-- A bit for each byte, and a brace wherever the bit is set.
abbrev pub Covers : List Bool → Bytes → Type 0
Covers [] [] = Unit
Covers [] (b ∷ s) = ⊥
Covers (m ∷ mask) [] = ⊥
Covers (m ∷ mask) (b ∷ s) = (m ≡ true → is_brace b ≡ true) × Covers mask s

mask_from-none :
    (n : ℕ) (s : Bytes) (mask : List Bool)
    → n ≤ length s
    → Covers mask (drop n s)
    → Covers (mask_from none n ++ mask) s
unfolding mask_from
mask_from-none zero s mask h k = k
mask_from-none (suc n) [] mask h k = absurd (omega arith)
mask_from-none (suc n) (b ∷ s) mask h k =
    (λ e. absurd (ground arith), mask_from-none n s mask (omega arith) k)

mask_from-Covers :
    (marked : Option ℕ) (n b : ℕ) (s : Bytes) (mask : List Bool)
    → 1 ≤ n
    → n ≤ suc (length s)
    → MarksBrace b s marked
    → Covers mask (drop n (b ∷ s))
    → Covers (mask_from marked n ++ mask) (b ∷ s)
unfolding mask_from starts_with
mask_from-Covers marked zero b s mask h l m k = absurd (omega arith)
mask_from-Covers none (suc n) b s mask h l m k = mask_from-none (suc n) (b ∷ s) mask l k
mask_from-Covers (some zero) (suc n) b s mask h l m k =
    (λ e. m, mask_from-none n s mask (omega arith) k)
mask_from-Covers (some (suc zero)) (suc zero) b s mask h l m k = (λ e. absurd (ground arith), k)
mask_from-Covers (some (suc zero)) (suc (suc n)) b [] mask h l m k = absurd (ground arith)
mask_from-Covers (some (suc zero)) (suc (suc n)) b (c ∷ s) mask h l m k =
    (λ e. absurd (ground arith), (λ e. ground arith, mask_from-none n s mask (omega arith) k))
mask_from-Covers (some (suc (suc i))) (suc n) b s mask h l m k = absurd m

-- The scan has a value, and its mask covers the text.
abbrev Scans : Bytes → Option (List Bool × List Frame) → Type 0
Scans s none = ⊥
Scans s (some (mask, frames)) = Covers mask s

Scans-mask :
    (b : ℕ) (s : Bytes) (t : Turn) (o : Option (List Bool × List Frame))
    → Proceeds b s t
    → Scans (drop t.advance (b ∷ s)) o
    → Scans (b ∷ s) (fill (mask_from t.marked t.advance) o)
Scans-mask b s t none h k = absurd k
Scans-mask b s t (some (mask, frames)) h k =
    mask_from-Covers t.marked t.advance b s mask h.1 h.2 h.3 k

Scans-turn :
    (b : ℕ) (s : Bytes) (o : Option Turn) (next : Turn → Option (List Bool × List Frame))
    → Makes b s o
    → ((t : Turn) → Proceeds b s t → Scans (drop t.advance (b ∷ s)) (next t))
    → Scans (b ∷ s) (o >>= (λ t. fill (mask_from t.marked t.advance) (next t)))
Scans-turn b s none next h k = absurd h
Scans-turn b s (some t) next h k = Scans-mask b s t (next t) h (k t h)

scan-Scans :
    (fuel : ℕ) (stack : List Frame) (line_start : Bool) (s : Bytes)
    → All IsValid stack
    → length s ≤ fuel
    → Scans s (scan fuel stack line_start s)
unfolding scan
scan-Scans zero stack line_start [] h k = tt
scan-Scans (suc fuel) stack line_start [] h k = tt
scan-Scans zero stack line_start (b ∷ s) h k = absurd (omega arith)
scan-Scans (suc fuel) stack line_start (b ∷ s) h k =
    Scans-turn b s (turn stack line_start b s)
      (λ t.
        scan fuel t.stack (ends_line (get_elem? (b ∷ s) (t.advance - 1))) (drop t.advance (b ∷ s)))
      (turn-Makes stack line_start b s h)
      (λ t p.
        scan-Scans fuel t.stack (ends_line (get_elem? (b ∷ s) (t.advance - 1)))
          (drop t.advance (b ∷ s)) p.0 (omega (arith, p.1, length-drop t.advance (b ∷ s))))

answers :
    (src : Bytes) (o : Option (List Bool × List Frame))
    → Scans src o
    → (mask : List Bool) × (inside : Bool) × ((o >>= (λ (m, frames). some m)) ≡ some mask)
      × ((o >>= (λ (m, frames). some (in_literal frames))) ≡ some inside)
      × Covers mask src
answers src none h = absurd h
answers src (some (mask, frames)) h = (mask, in_literal frames, refl, refl, h)

-- On every text the three scans end without a panic: no depth is decreased at zero, no heredoc has an
-- empty tag, and each round goes on. The masks have a bit for each byte, and the mask of ignored
-- braces marks only braces.
pub ignored_brace_positions-Covers :
    (src : Bytes)
    → (mask : List Bool) × (inside : Bool) × (comments : List Bool) × (ignored_brace_positions src
        ≡ some mask)
      × (cursor_in_string_literal src ≡ some inside)
      × (comment_mask src ≡ some comments)
      × Covers mask src
      × (length comments ≡ length src)
ignored_brace_positions-Covers src =
    let (mask, inside, ignored, cursor, covers) =
      answers src (run src) (scan-Scans (length src) [] true src tt (omega arith)) in
    let (comments, masked, same) = comment_mask-length src in
    (mask, inside, comments, ignored, cursor, masked, covers, same)
