-- ===== src/Document/Ascii.antt =====
-- A rope of ASCII text, for runs of the model: an instance of what the ropey crate is used for.
use terraform_ls_rs.Base.{
  ℕ, min, ◌≤◌, true, Option, none, some, ◌++◌, ◌≡◌, refl, Bool-cases, inl, inr, if◌then◌else◌,
  Bytes, length, take, drop, get_elem?, is_char_boundary, arith,
}
use terraform_ls_rs.Document.Rope.{Ropey}

abbrev or_zero : Option ℕ → ℕ
or_zero none = 0
or_zero (some c) = c

-- The byte `n`, or the start where that is inside a character.
unfoldable pub boundary : Bytes → ℕ → ℕ
unfolding is_char_boundary
boundary slice n =
    let byte = min n (length slice) in if is_char_boundary slice byte then byte else 0

pub boundary-le : (slice : Bytes) (n : ℕ) → boundary slice n ≤ length slice
unfolding boundary
boundary-le slice n = ground arith

pub is_char_boundary-boundary :
    (slice : Bytes) (n : ℕ) → is_char_boundary slice (boundary slice n) ≡ true
unfolding boundary
is_char_boundary-boundary slice n =
    elim (Bool-cases (is_char_boundary slice (min n (length slice)))) [
      | inl e ↦ rw e e
      | inr e ↦ rw e (unfold is_char_boundary in refl)
    ]

-- Every byte is a character.
abbrev pub ascii : Ropey Bytes
ascii = record {
  from_str = λ text. text;
  to_string = λ rope. rope;
  byte_to_char = λ rope n. n;
  remove = λ rope a b. take a rope ++ drop b rope;
  insert = λ rope a text. take a rope ++ (text ++ drop a rope);
  len_chars = λ slice. length slice;
  char = λ slice n. or_zero (get_elem? slice n);
  first_chars = λ slice n. take n slice;
  len_utf16_cu = λ slice. length slice;
  utf16_cu_to_char = λ slice n. n;
  char_to_byte = λ slice n. boundary slice n;
  to_string-from_str = λ text. refl;
  char_to_byte-le = λ slice n. boundary-le slice n;
  char_to_byte-is_boundary = λ slice n. is_char_boundary-boundary slice n;
}
