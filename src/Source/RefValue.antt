-- ===== src/Source/RefValue.antt =====
-- `ref_value_with_span`, `extract_ref` and `ref_value_span` of crates/tfls-diag/src/git_source.rs.
use terraform_ls_rs.Base.{
  ℕ, suc, ◌+◌, ◌-◌, Option, none, some, List, [], ◌∷◌, if◌then◌else◌, Bytes, codes, length, take,
  drop, starts_with,
}

-- `str::find` of a text and of a character: the first place where it stands.
abbrev pub later : Option ℕ → Option ℕ
later none = none
later (some i) = some (suc i)

unfoldable pub find : Bytes → Bytes → Option ℕ
unfolding starts_with
find [] marker = if starts_with [] marker then some 0 else none
find (b ∷ s) marker =
    let on = find s marker in if starts_with (b ∷ s) marker then some 0 else later on

abbrev pub unwrap_or : ℕ → Option ℕ → ℕ
unwrap_or n none = n
unwrap_or n (some m) = m

-- The value `&src[a..b]` with its span.
abbrev pub spanned : Bytes → ℕ → ℕ → Option (Bytes × ℕ × ℕ)
spanned src a b = some (take (b - a) (drop a src), a, b)

-- What the code returns for a marker found at `start`: up to the next `&`.
unfoldable pub query_value : Bytes → Bytes → ℕ → Option (Bytes × ℕ × ℕ)
unfolding find
query_value src marker start =
    let val_start = start + length marker in
    let rest = drop val_start src in
    spanned src val_start (val_start + unwrap_or (length rest) (find rest (codes "&")))

-- What follows the first `#`.
unfoldable pub fragment_value : Bytes → Option ℕ → Option (Bytes × ℕ × ℕ)
fragment_value src none = none
fragment_value src (some hash) = spanned src (hash + 1) (length src)

-- A marker, or else what the rest of the loop returns.
abbrev pub found : Bytes → Bytes → Option (Bytes × ℕ × ℕ) → Option ℕ → Option (Bytes × ℕ × ℕ)
found src marker rest none = rest
found src marker rest (some start) = query_value src marker start

-- The loop over the markers, and what comes after it.
unfoldable pub value_at : Bytes → List Bytes → Option (Bytes × ℕ × ℕ)
unfolding find query_value fragment_value
value_at src [] = fragment_value src (find src (codes "#"))
value_at src (marker ∷ markers) = found src marker (value_at src markers) (find src marker)

unfoldable pub ref_value_with_span : Bytes → Option (Bytes × ℕ × ℕ)
unfolding value_at
ref_value_with_span src = value_at src (codes "?ref=" ∷ codes "&ref=" ∷ [])

abbrev pub value_of : Option (Bytes × ℕ × ℕ) → Option Bytes
value_of none = none
value_of (some (s, start, end)) = some s

unfoldable pub extract_ref : Bytes → Option Bytes
unfolding ref_value_with_span
extract_ref src = value_of (ref_value_with_span src)

abbrev pub span_of : Option (Bytes × ℕ × ℕ) → Option (ℕ × ℕ)
span_of none = none
span_of (some (s, start, end)) = some (start, end)

unfoldable pub ref_value_span : Bytes → Option (ℕ × ℕ)
unfolding ref_value_with_span
ref_value_span src = span_of (ref_value_with_span src)
