-- ===== src/Source/Span.antt =====
-- The span of a ref value, crates/tfls-diag/src/git_source.rs.
use terraform_ls_rs.Base.{
  ℕ, zero, suc, ◌+◌, ◌-◌, ◌≤◌, true, Option, none, some, List, [], ◌∷◌, ◌≡◌, Bytes, codes, length,
  drop, starts_with, Bool-cases, inl, inr, arith,
}
use terraform_ls_rs.Version.Parse.{slice}
use terraform_ls_rs.Source.RefValue.{
  find, later, unwrap_or, spanned, query_value, fragment_value, found, value_at,
  ref_value_with_span,
}

starts_with-length : (s t : Bytes) → starts_with s t ≡ true → length t ≤ length s
unfolding starts_with
starts_with-length s [] h = omega arith
starts_with-length [] (t ∷ tok) h = absurd (ground arith)
starts_with-length (b ∷ s) (t ∷ tok) h = ground (arith, starts_with-length s tok)

-- What is found ends within the text.
abbrev InText : Bytes → Bytes → Option ℕ → Type 0
InText s marker none = Unit
InText s marker (some i) = i + length marker ≤ length s

InText-later :
    (b : ℕ) (s marker : Bytes) (o : Option ℕ) → InText s marker o → InText (b ∷ s) marker (later o)
InText-later b s marker none h = tt
InText-later b s marker (some i) h = omega arith

InText-find : (s marker : Bytes) → InText s marker (find s marker)
unfolding find
InText-find [] marker = elim (Bool-cases (starts_with [] marker)) [
  | inl here ↦ rw here (omega (arith, starts_with-length [] marker here))
  | inr none_here ↦ rw none_here tt
]
InText-find (b ∷ s) marker = elim (Bool-cases (starts_with (b ∷ s) marker)) [
  | inl here ↦ rw here (omega (arith, starts_with-length (b ∷ s) marker here))
  | inr later_on ↦ rw later_on (InText-later b s marker (find s marker) (InText-find s marker))
]

length-drop : (n : ℕ) (s : Bytes) → length (drop n s) ≡ length s - n
length-drop zero s = omega arith
length-drop (suc n) [] = omega arith
length-drop (suc n) (b ∷ s) = omega (arith, length-drop n s)

unwrap_or-length :
    (s : Bytes) (o : Option ℕ) → InText s (codes "&") o → unwrap_or (length s) o ≤ length s
unwrap_or-length s none h = omega arith
unwrap_or-length s (some i) h = omega arith

-- The span cuts the value out of the source, within its bounds.
abbrev pub Cuts : Bytes → Option (Bytes × ℕ × ℕ) → Type 0
Cuts src none = Unit
Cuts src (some (v, a, b)) = slice src a b ≡ some v

spanned-Cuts : (src : Bytes) (a b : ℕ) → a ≤ b → b ≤ length src → Cuts src (spanned src a b)
spanned-Cuts src a b h k = ground arith

query_value-Cuts :
    (src marker : Bytes) (start : ℕ)
    → start + length marker ≤ length src
    → Cuts src (query_value src marker start)
unfolding query_value
query_value-Cuts src marker start h =
    let a = start + length marker in
    let rest = drop a src in
    spanned-Cuts src a (a + unwrap_or (length rest) (find rest (codes "&"))) (omega arith) (
      omega (
        arith,
        length-drop a src,
        unwrap_or-length rest (find rest (codes "&")) (InText-find rest (codes "&")),
      ))

fragment_value-Cuts :
    (src : Bytes) (o : Option ℕ) → InText src (codes "#") o → Cuts src (fragment_value src o)
unfolding fragment_value
fragment_value-Cuts src none h = tt
fragment_value-Cuts src (some hash) h =
    spanned-Cuts src (hash + 1) (length src) (omega arith) (omega arith)

found-Cuts :
    (src marker : Bytes) (rest : Option (Bytes × ℕ × ℕ)) (o : Option ℕ)
    → InText src marker o
    → Cuts src rest
    → Cuts src (found src marker rest o)
found-Cuts src marker rest none h k = k
found-Cuts src marker rest (some start) h k = query_value-Cuts src marker start h

value_at-Cuts : (src : Bytes) (markers : List Bytes) → Cuts src (value_at src markers)
unfolding value_at
value_at-Cuts src [] = fragment_value-Cuts src (find src (codes "#")) (InText-find src (codes "#"))
value_at-Cuts src (marker ∷ markers) =
    found-Cuts src marker (value_at src markers) (find src marker) (InText-find src marker)
      (value_at-Cuts src markers)

-- The span of a ref value is a range of the source, and the value is the text in this range.
pub ref_value_with_span-Cuts : (src : Bytes) → Cuts src (ref_value_with_span src)
unfolding ref_value_with_span
ref_value_with_span-Cuts src = value_at-Cuts src (codes "?ref=" ∷ codes "&ref=" ∷ [])
