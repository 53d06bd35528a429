-- ===== src/Keys/Ends.antt =====
-- The scanners of crates/tfls-diag/src/map_duplicate_keys.rs end within the text, and go on by at
-- least one byte.
use terraform_ls_rs.Base.{
  ℕ, zero, suc, ◌+◌, ◌-◌, ◌≤◌, Option, none, some, [], ◌∷◌, subst, Bytes, length, take, drop, arith,
}
pub use terraform_ls_rs.Base.Scan.{length-drop, count_while-le}
use terraform_ls_rs.Keys.Quoted.{
  Scan, closed, unterminated, out_of_fuel, Action, advance, nested, close, at_end, action,
  interpolated, plain_byte, prepend, after_nested, perform, string_loop, with_quote, read_string,
}

-- The scan did not run out of fuel, and a closed string ends within `limit` bytes.
abbrev pub Ends : ℕ → Scan → Type 0
Ends limit (closed n contents) = (1 ≤ n) × (n ≤ limit)
Ends limit unterminated = Unit
Ends limit out_of_fuel = ⊥

-- The action steps over at least one byte of `limit`, if it goes on.
abbrev Fits : ℕ → Action → Type 0
Fits limit (advance pushed n depth) = (1 ≤ n) × (n ≤ limit)
Fits limit nested = 1 ≤ limit
Fits limit close = 1 ≤ limit
Fits limit at_end = Unit

Fits-plain_byte : (depth b limit : ℕ) → 1 ≤ limit → Fits limit (plain_byte depth b)
unfolding plain_byte interpolated
Fits-plain_byte depth b limit h = ground arith

Fits-action : (depth : ℕ) (s : Bytes) → Fits (length s) (action depth s)
unfolding action
Fits-action depth [] = tt
Fits-action depth (b ∷ []) = Fits-plain_byte depth b 1 (omega arith)
Fits-action depth (b ∷ c ∷ []) = ground (arith, Fits-plain_byte depth b 2)
Fits-action depth (b ∷ c ∷ d ∷ s) =
    ground (arith, Fits-plain_byte depth b (suc (suc (suc (length s)))))

Ends-prepend :
    (limit n : ℕ) (pushed : Bytes) (r : Scan)
    → n ≤ limit
    → Ends (limit - n) r
    → Ends limit (prepend n pushed r)
Ends-prepend limit n pushed (closed m contents) k h = omega arith
Ends-prepend limit n pushed unterminated k h = tt
Ends-prepend limit n pushed out_of_fuel k h = h

Ends-drop : (n : ℕ) (s : Bytes) (r : Scan) → Ends (length (drop n s)) r → Ends (length s - n) r
Ends-drop n s r h = subst (λ (k : ℕ). Ends k r) (length-drop n s) h

Ends-after_nested :
    (depth : ℕ) (s : Bytes) (loop : ℕ → Bytes → Scan) (r : Scan)
    → ((n : ℕ) → 1 ≤ n → Ends (length (drop n s)) (loop depth (drop n s)))
    → 1 ≤ length s
    → Ends (length s - 1) r
    → Ends (length s) (after_nested depth s loop r)
Ends-after_nested depth s loop (closed n contents) h k e =
    Ends-prepend (length s) (n + 1) (take (n + 1) s) (loop depth (drop (n + 1) s)) (omega arith)
      (Ends-drop (n + 1) s (loop depth (drop (n + 1) s)) (h (n + 1) (omega arith)))
Ends-after_nested depth s loop unterminated h k e = tt
Ends-after_nested depth s loop out_of_fuel h k e = e

Ends-perform :
    (a : Action) (depth : ℕ) (s : Bytes) (loop : ℕ → Bytes → Scan)
    → Fits (length s) a
    → ((d n : ℕ) → 1 ≤ n → Ends (length (drop n s)) (loop d (drop n s)))
    → Ends (length s) (perform a depth s loop)
Ends-perform (advance pushed n depth') depth s loop fits h =
    Ends-prepend (length s) n pushed (loop depth' (drop n s)) (omega arith)
      (Ends-drop n s (loop depth' (drop n s)) (h depth' n (omega arith)))
Ends-perform nested depth s loop fits h =
    Ends-after_nested depth s loop (loop 0 (drop 1 s)) (h depth) fits
      (Ends-drop 1 s (loop 0 (drop 1 s)) (h 0 1 (omega arith)))
Ends-perform close depth s loop fits h = omega arith
Ends-perform at_end depth s loop fits h = tt

-- With more fuel than bytes, the loop of `read_string` ends, and within the text.
pub string_loop-Ends :
    (fuel depth : ℕ) (s : Bytes) → length s + 1 ≤ fuel → Ends (length s) (string_loop fuel depth s)
unfolding string_loop
string_loop-Ends zero depth s h = absurd (omega arith)
string_loop-Ends (suc fuel) depth [] h = unfold action in tt
string_loop-Ends (suc fuel) depth (b ∷ s) h =
    Ends-perform (action depth (b ∷ s)) depth (b ∷ s) (string_loop fuel) (Fits-action depth (b ∷ s))
      (λ d n k. string_loop-Ends fuel d (drop n (b ∷ s)) (omega (arith, length-drop n (b ∷ s))))

-- A string with its two quotes, within a text of `limit` bytes.
abbrev pub Within : ℕ → Option (ℕ × Bytes) → Type 0
Within limit none = Unit
Within limit (some (n, contents)) = (1 ≤ n) × (n ≤ limit)

Within-with_quote : (limit : ℕ) (r : Scan) → Ends limit r → Within (limit + 1) (with_quote r)
Within-with_quote limit (closed n contents) h = omega arith
Within-with_quote limit unterminated h = tt
Within-with_quote limit out_of_fuel h = tt

pub read_string-Within : (s : Bytes) → Within (length s) (read_string s)
unfolding read_string
read_string-Within [] = tt
read_string-Within (q ∷ s) =
    subst (λ (k : ℕ). Within k (with_quote (string_loop (length s + 1) 0 s))) (omega arith)
      (Within-with_quote (length s) (string_loop (length s + 1) 0 s)
        (string_loop-Ends (length s + 1) 0 s (omega arith)))
