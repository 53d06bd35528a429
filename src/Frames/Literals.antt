-- ===== src/Frames/Literals.antt =====
-- String literals in the scan for frames, crates/tfls-core/src/completion.rs.
use terraform_ls_rs.Base.{
  ℕ, zero, suc, ◌+◌, ◌-◌, ◌≤◌, Bool, false, Option, none, some, ◌>>=◌, List, [], ◌∷◌, ◌++◌, map,
  ◌==◌, ◌≡◌, refl, sym, ap, ◌∙◌, Bytes, starts_with, drop, length, length-append, get_elem?, All,
  append_assoc, Bool-cases, inl, inr, arith,
}
use terraform_ls_rs.Base.Scan.{length-drop}
use terraform_ls_rs.Json.Write.{escape, escape_string}
use terraform_ls_rs.Json.Text.{quoted_text}
use terraform_ls_rs.Json.Read.{has_template, unescape}
use terraform_ls_rs.Json.Quoted.{escape-cases, begins, escape_string-cons}
use terraform_ls_rs.Frames.Scan.{
  Frame, string, interp, heredoc, in_literal, brace_turn, Turn, is_brace, opens_interp, turn,
  code_turn, string_turn, mask_from, fill, ends_line, scan,
}
use terraform_ls_rs.Frames.Ends.{IsValid, Proceeds, Makes, turn-Makes}

abbrev Answer : Type 0
Answer = Option (List Bool × List Frame)

same_after :
    (b : ℕ) (s : Bytes) (o : Option Turn) (f g : Turn → Answer)
    → Makes b s o
    → ((t : Turn) → Proceeds b s t → f t ≡ g t)
    → (o >>= (λ t. fill (mask_from t.marked t.advance) (f t)))
      ≡ (o >>= (λ t. fill (mask_from t.marked t.advance) (g t)))
same_after b s none f g h k = absurd h
same_after b s (some t) f g h k = ap (fill (mask_from t.marked t.advance)) (k t h)

-- More fuel than bytes changes nothing.
pub scan-fuel :
    (f g : ℕ) (stack : List Frame) (line_start : Bool) (s : Bytes)
    → All IsValid stack
    → length s ≤ f
    → length s ≤ g
    → scan f stack line_start s ≡ scan g stack line_start s
unfolding scan
scan-fuel zero zero stack line_start [] h k l = refl
scan-fuel zero (suc g) stack line_start [] h k l = refl
scan-fuel (suc f) zero stack line_start [] h k l = refl
scan-fuel (suc f) (suc g) stack line_start [] h k l = refl
scan-fuel zero g stack line_start (b ∷ s) h k l = absurd (omega arith)
scan-fuel (suc f) zero stack line_start (b ∷ s) h k l = absurd (omega arith)
scan-fuel (suc f) (suc g) stack line_start (b ∷ s) h k l =
    same_after b s (turn stack line_start b s)
      (λ t. scan f t.stack (ends_line (get_elem? (b ∷ s) (t.advance - 1))) (drop t.advance (b ∷ s)))
      (λ t. scan g t.stack (ends_line (get_elem? (b ∷ s) (t.advance - 1))) (drop t.advance (b ∷ s)))
      (turn-Makes stack line_start b s h)
      (λ t p.
        scan-fuel f g t.stack (ends_line (get_elem? (b ∷ s) (t.advance - 1)))
          (drop t.advance (b ∷ s)) p.0 (omega (arith, p.1, length-drop t.advance (b ∷ s)))
          (omega (arith, p.1, length-drop t.advance (b ∷ s))))

-- One round, by what it does.
pub scan-turn :
    (fuel : ℕ) (stack next : List Frame) (line_start : Bool) (b : ℕ) (s : Bytes) (n : ℕ)
    (marked : Option ℕ)
    → turn stack line_start b s ≡ some (record { advance = n; stack = next; marked = marked })
    → scan (suc fuel) stack line_start (b ∷ s)
      ≡ fill
          (mask_from marked n)
          (scan fuel next (ends_line (get_elem? (b ∷ s) (n - 1))) (drop n (b ∷ s)))
unfolding scan
scan-turn fuel stack next line_start b s n marked e = rw e refl

fill-fill : (xs ys : List Bool) (r : Answer) → fill xs (fill ys r) ≡ fill (xs ++ ys) r
fill-fill xs ys none = refl
fill-fill xs ys (some (mask, frames)) =
    ap (λ (l : List Bool). some (l, frames)) (sym (append_assoc xs ys mask))

-- An escape is skipped.
skip_escape :
    (fuel : ℕ) (outer : List Frame) (line_start : Bool) (e : ℕ) (t : Bytes)
    → scan (suc fuel) (string ∷ outer) line_start (92 ∷ e ∷ t)
      ≡ fill (false ∷ false ∷ []) (scan fuel (string ∷ outer) (e == b'\n') t)
unfolding string_turn mask_from
skip_escape fuel outer line_start e t =
    scan-turn fuel (string ∷ outer) (string ∷ outer) line_start 92 (e ∷ t) 2 none refl

-- A character that stands for itself is masked if it is a brace.
pass_plain :
    (fuel : ℕ) (outer : List Frame) (line_start : Bool) (c : ℕ) (t : Bytes)
    → (c == b'\\') ≡ false
    → (c == b'"') ≡ false
    → opens_interp c t ≡ false
    → scan (suc fuel) (string ∷ outer) line_start (c ∷ t)
      ≡ fill (is_brace c ∷ []) (scan fuel (string ∷ outer) (c == b'\n') t)
unfolding string_turn mask_from
pass_plain fuel outer line_start c t a q o = elim (Bool-cases (is_brace c)) [
  | inl brace ↦ rw brace (
      scan-turn fuel (string ∷ outer) (string ∷ outer) line_start c t 1 (some 0)
        (rw a (rw q (rw o (rw brace refl)))))
  | inr other ↦ rw other (
      scan-turn fuel (string ∷ outer) (string ∷ outer) line_start c t 1 none
        (rw a (rw q (rw o (rw other refl)))))
]

close_quote :
    (fuel : ℕ) (outer : List Frame) (line_start : Bool) (rest : Bytes)
    → All IsValid outer
    → length rest ≤ fuel
    → scan (suc fuel) (string ∷ outer) line_start (34 ∷ rest)
      ≡ fill (false ∷ []) (scan (length rest) outer false rest)
unfolding string_turn mask_from
close_quote fuel outer line_start rest h k =
    scan-turn fuel (string ∷ outer) outer line_start 34 rest 1 none refl
    ∙ ap (fill (false ∷ [])) (scan-fuel fuel (length rest) outer false rest h k (omega arith))

open_quote :
    (fuel : ℕ) (stack : List Frame) (line_start : Bool) (text : Bytes)
    → in_literal stack ≡ false
    → scan (suc fuel) stack line_start (34 ∷ text)
      ≡ fill (false ∷ []) (scan fuel (string ∷ stack) false text)
unfolding code_turn brace_turn mask_from
open_quote fuel [] line_start text h =
    scan-turn fuel [] (string ∷ []) line_start 34 text 1 none refl
open_quote fuel (interp depth ∷ outer) line_start text h =
    scan-turn fuel (interp depth ∷ outer) (string ∷ interp depth ∷ outer) line_start 34 text 1 none
      refl
open_quote fuel (string ∷ outer) line_start text h = absurd (ground arith)
open_quote fuel (heredoc tag indented ∷ outer) line_start text h = absurd (ground arith)

no_interp :
    (c : ℕ) (s rest : Bytes)
    → has_template (c ∷ s) ≡ false
    → opens_interp c (escape_string s ++ (34 ∷ rest)) ≡ false
unfolding has_template starts_with
no_interp c s rest h = let (d, t, e, k) = begins s rest in rw e (ground (arith, k))

escapes_no_brace : (e c : ℕ) → unescape e ≡ some c → is_brace e ≡ false
escapes_no_brace e c h = ground arith

has_template-tail : (c : ℕ) (s : Bytes) → has_template (c ∷ s) ≡ false → has_template s ≡ false
unfolding has_template
has_template-tail c s h = ground arith

length-escaped :
    (c : ℕ) (s rest : Bytes) (fuel : ℕ)
    → length (escape_string (c ∷ s) ++ (34 ∷ rest)) ≤ suc fuel
    → length (escape_string s ++ (34 ∷ rest)) ≤ fuel
length-escaped c s rest fuel h =
    let whole : length (escape_string (c ∷ s) ++ (34 ∷ rest))
        ≡ length (escape c) + length (escape_string s ++ (34 ∷ rest)) =
      ap (λ (t : Bytes). length (t ++ (34 ∷ rest))) (escape_string-cons c s)
      ∙ ap length (append_assoc (escape c) (escape_string s) (34 ∷ rest))
      ∙ length-append (escape c) (escape_string s ++ (34 ∷ rest)) in
    elim (escape-cases c) [
      | inl p ↦ omega (arith, ap length p.0)
      | inr p ↦ omega (arith, ap length p.1)
    ]

-- From inside a literal to behind its closing quote.
scan-escape_string :
    (s rest : Bytes) (fuel : ℕ) (outer : List Frame) (line_start : Bool)
    → has_template s ≡ false
    → All IsValid outer
    → length (escape_string s ++ (34 ∷ rest)) ≤ fuel
    → scan fuel (string ∷ outer) line_start (escape_string s ++ (34 ∷ rest))
      ≡ fill (map is_brace (escape_string s ++ (34 ∷ []))) (scan (length rest) outer false rest)
scan-escape_string s rest zero outer line_start h k l =
    absurd (omega (arith, length-append (escape_string s) (34 ∷ rest)))
scan-escape_string [] rest (suc fuel) outer line_start h k l =
    unfold escape_string in
    close_quote fuel outer line_start rest k (unfold escape_string in omega arith)
scan-escape_string (c ∷ s) rest (suc fuel) outer line_start h k l =
    let text = escape_string s ++ (34 ∷ rest) in
    let after = scan (length rest) outer false rest in
    let tail = map is_brace (escape_string s ++ (34 ∷ [])) in
    let ih = λ (start : Bool).
      scan-escape_string s rest fuel outer start (has_template-tail c s h) k
        (length-escaped c s rest fuel l) in
    rw (escape_string-cons c s) (elim (escape-cases c) [
      | inl (e, a, q, n) ↦ rw e (
          pass_plain fuel outer line_start c text a q (no_interp c s rest h)
          ∙ ap (fill (is_brace c ∷ [])) (ih (c == b'\n'))
          ∙ fill-fill (is_brace c ∷ []) tail after)
      | inr (e, f, u, b) ↦ rw f (
          skip_escape fuel outer line_start e text
          ∙ ap (fill (false ∷ false ∷ [])) (ih (e == b'\n'))
          ∙ fill-fill (false ∷ false ∷ []) tail after
          ∙ ap (λ (m : Bool). fill (false ∷ m ∷ tail) after) (sym (escapes_no_brace e c u)))
    ])

-- A string without templates, written with its quotes where the scan is in live code or in an
-- interpolation: of its bytes exactly the braces are masked, and the scan goes on behind it in the
-- frames that it was in.
pub scan-quoted_text :
    (s rest : Bytes) (fuel : ℕ) (stack : List Frame) (line_start : Bool)
    → has_template s ≡ false
    → in_literal stack ≡ false
    → All IsValid stack
    → length (quoted_text s ++ rest) ≤ fuel
    → scan fuel stack line_start (quoted_text s ++ rest)
      ≡ fill (map is_brace (quoted_text s)) (scan (length rest) stack false rest)
scan-quoted_text s rest zero stack line_start h i k l = absurd (omega arith)
scan-quoted_text s rest (suc fuel) stack line_start h i k l =
    let text = escape_string s ++ (34 ∷ rest) in
    let whole : quoted_text s ++ rest ≡ 34 ∷ text =
      ap (λ (t : Bytes). 34 ∷ t) (append_assoc (escape_string s) (34 ∷ []) rest) in
    rw whole (
      open_quote fuel stack line_start text i
      ∙ ap (fill (false ∷ []))
          (scan-escape_string s rest fuel stack false h k (omega (arith, ap length whole)))
      ∙ fill-fill (false ∷ []) (map is_brace (escape_string s ++ (34 ∷ [])))
          (scan (length rest) stack false rest))
