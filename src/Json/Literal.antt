-- ===== src/Json/Literal.antt =====
-- The values that crates/tfls-parser/src/json.rs writes as literals, and its numerals.
use terraform_ls_rs.Base.{
  ℕ, suc, ◌+◌, true, false, some, [], ◌∷◌, ◌++◌, ◌≡◌, refl, Bytes, all, length, take-append,
  drop-append, count_while, starts_with, arith,
}
use terraform_ls_rs.Base.Scan.{count_while-append}
use terraform_ls_rs.Json.Value.{
  Value, Elements, Members, null, bool, number, string, array, object, end_array, element,
  end_object, member,
}
use terraform_ls_rs.Json.Read.{
  is_numeral_char, starts_numeral, read_number, read_value, has_template,
}

-- A numeral is read up to its end.
abbrev pub IsNumeral : Bytes → Type 0
IsNumeral text = (starts_numeral text ≡ true) × (all is_numeral_char text ≡ true)

-- A value without templates, whose numbers are numerals.
unfoldable mutual
  unfolding has_template

  pub IsLiteral : Value → Type 0
  IsLiteral null = Unit
  IsLiteral (bool b) = Unit
  IsLiteral (number text) = IsNumeral text
  IsLiteral (string s) = has_template s ≡ false
  IsLiteral (array elements) = AreLiterals elements
  IsLiteral (object members) = HaveLiterals members

  pub AreLiterals : Elements → Type 0
  AreLiterals end_array = Unit
  AreLiterals (element v elements) = IsLiteral v × AreLiterals elements

  pub HaveLiterals : Members → Type 0
  HaveLiterals end_object = Unit
  HaveLiterals (member key v members) =
      (has_template key ≡ false) × IsLiteral v × HaveLiterals members

-- The number of the parts of a value.
unfoldable mutual
  pub size : Value → ℕ
  size (array elements) = suc (size_elements elements)
  size (object members) = suc (size_members members)
  size _ = 1

  pub size_elements : Elements → ℕ
  size_elements end_array = 1
  size_elements (element v elements) = suc (size v + size_elements elements)

  pub size_members : Members → ℕ
  size_members end_object = 1
  size_members (member key v members) = suc (size v + size_members members)

-- What follows a value cannot go on a numeral.
abbrev pub Stops : Bytes → Type 0
Stops [] = Unit
Stops (c ∷ rest) = is_numeral_char c ≡ false

pub count-numeral :
    (text rest : Bytes)
    → all is_numeral_char text ≡ true
    → Stops rest
    → count_while is_numeral_char (text ++ rest) ≡ length text
unfolding count_while
count-numeral text [] h k = omega (arith, count_while-append is_numeral_char text [] h)
count-numeral text (c ∷ rest) h k =
    ground (arith, count_while-append is_numeral_char text (c ∷ rest) h)

starts_numeral-append :
    (text rest : Bytes) → starts_numeral text ≡ true → starts_numeral (text ++ rest) ≡ true
starts_numeral-append [] rest h = absurd (ground arith)
starts_numeral-append (c ∷ text) rest h = h

pub read_number-numeral :
    (text rest : Bytes)
    → IsNumeral text
    → Stops rest
    → read_number (text ++ rest) ≡ some (number text, rest)
unfolding read_number
read_number-numeral text rest h k = rw (count-numeral text rest h.1 k) (
    rw (starts_numeral-append text rest h.0)
      (rw (take-append text rest) (rw (drop-append text rest) refl)))

pub read_value-numeral :
    (fuel : ℕ) (text rest : Bytes)
    → starts_numeral text ≡ true
    → read_value (suc fuel) (text ++ rest) ≡ read_number (text ++ rest)
unfolding read_value starts_with
read_value-numeral fuel [] rest h = absurd (ground arith)
read_value-numeral fuel (c ∷ text) rest h = ground arith
