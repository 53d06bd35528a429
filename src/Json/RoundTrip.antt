-- ===== src/Json/RoundTrip.antt =====
-- A value that crates/tfls-parser/src/json.rs writes is read back.
use terraform_ls_rs.Base.{
  ℕ, zero, suc, ◌+◌, ◌≤◌, Bool, true, false, some, ◌∷◌, ◌++◌, ◌≡◌, refl, Bytes, arith,
}
use terraform_ls_rs.Json.Value.{
  Value, Elements, Members, null, bool, number, string, array, object, end_array, element,
  end_object, member,
}
use terraform_ls_rs.Json.Literal.{
  IsLiteral, AreLiterals, HaveLiterals, size, size_elements, size_members, Stops,
}
use terraform_ls_rs.Json.Write.{done, write_value}
use terraform_ls_rs.Json.Text.{spaces, value_text, elements_text, members_text, write_value-eq}
use terraform_ls_rs.Json.Read.{read_value, read_elements, read_members}
use terraform_ls_rs.Json.Steps.{
  Stops-elements_text, size-pos, size_elements-pos, size_members-pos, read_value-null,
  read_value-bool, read_value-number, read_elements-end, read_value-quoted, read_value-array,
  read_value-object, element_step, end_step, member_step,
}

mutual
  unfolding IsLiteral size

  read_value-value_text :
      (v : Value) (fuel n : ℕ) (rest : Bytes)
      → IsLiteral v
      → Stops rest
      → size v ≤ fuel
      → read_value fuel (value_text v n ++ rest) ≡ some (v, rest)
  read_value-value_text v zero n rest h k l = absurd (omega (arith, size-pos v))
  read_value-value_text null (suc fuel) n rest h k l = read_value-null fuel n rest
  read_value-value_text (bool true) (suc fuel) n rest h k l = read_value-bool fuel true n rest
  read_value-value_text (bool false) (suc fuel) n rest h k l = read_value-bool fuel false n rest
  read_value-value_text (number text) (suc fuel) n rest h k l =
      read_value-number fuel text n rest h k
  read_value-value_text (string s) (suc fuel) n rest h k l = read_value-quoted fuel s n rest h
  read_value-value_text (array elements) (suc fuel) n rest h k l =
      read_value-array fuel elements n rest
        (read_elements-text elements fuel true n rest h (omega arith))
  read_value-value_text (object members) (suc fuel) n rest h k l =
      read_value-object fuel members n rest (read_members-text members fuel n rest h (omega arith))

  read_elements-text :
      (elements : Elements) (fuel : ℕ) (first : Bool) (n : ℕ) (rest : Bytes)
      → AreLiterals elements
      → size_elements elements ≤ fuel
      → read_elements fuel first (elements_text elements first n ++ (93 ∷ rest))
        ≡ some (elements, rest)
  read_elements-text elements zero first n rest h l =
      absurd (omega (arith, size_elements-pos elements))
  read_elements-text end_array (suc fuel) first n rest h l = read_elements-end fuel first n rest
  read_elements-text (element v elements) (suc fuel) first n rest h l =
      element_step v elements fuel first n rest h.0
        (read_value-value_text v fuel n (elements_text elements false n ++ (93 ∷ rest)) h.0
          (Stops-elements_text elements n rest) (omega arith))
        (read_elements-text elements fuel false n rest h.1 (omega arith))

  read_members-text :
      (members : Members) (fuel n : ℕ) (rest : Bytes)
      → HaveLiterals members
      → size_members members ≤ fuel
      → read_members fuel (members_text members n ++ (spaces n ++ (125 ∷ rest)))
        ≡ some (members, rest)
  read_members-text members zero n rest h l = absurd (omega (arith, size_members-pos members))
  read_members-text end_object (suc fuel) n rest h l = end_step fuel n rest
  read_members-text (member key v members) (suc fuel) n rest h l =
      member_step key v members fuel n rest h.0 h.1
        (read_value-value_text v fuel (n + 1)
          (10 ∷ (members_text members n ++ (spaces n ++ (125 ∷ rest)))) h.1 refl (omega arith))
        (read_members-text members fuel n rest h.2 (omega arith))

-- The text of a value is read back as the value. The value may stand in front of anything that does
-- not go on a numeral, at any indent. Its texts and keys begin no template, its numbers are
-- numerals, and the reader has fuel for the parts of the value.
pub write_value-read_value :
    (out : Bytes) (v : Value) (indent fuel : ℕ) (rest : Bytes)
    → IsLiteral v
    → Stops rest
    → size v ≤ fuel
    → (text : Bytes) × (write_value out v indent ≡ done (out ++ text))
      × (read_value fuel (text ++ rest) ≡ some (v, rest))
write_value-read_value out v indent fuel rest h k l = (
  value_text v indent,
  write_value-eq out v indent,
  read_value-value_text v fuel indent rest h k l,
)
