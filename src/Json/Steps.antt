-- ===== src/Json/Steps.antt =====
-- The steps of reading what crates/tfls-parser/src/json.rs writes, from what the parts read.
use terraform_ls_rs.Base.{
  ℕ, zero, suc, ◌+◌, ◌≤◌, Bool, true, false, some, [], ◌∷◌, ◌++◌, ◌≡◌, refl, ap, ◌∙◌, append_assoc,
  ◌==◌, Bytes, codes, drop_while, starts_with, arith,
}
use terraform_ls_rs.Json.Value.{
  Value, Elements, Members, null, bool, number, string, array, object, end_array, element,
  end_object, member,
}
use terraform_ls_rs.Json.Quoted.{read_quoted-escape_string}
use terraform_ls_rs.Json.Literal.{
  IsNumeral, IsLiteral, size, size_elements, size_members, Stops, read_value-numeral,
  read_number-numeral,
}
use terraform_ls_rs.Json.Write.{escape_string}
use terraform_ls_rs.Json.Text.{spaces, value_text, elements_text, members_text}
use terraform_ls_rs.Json.Read.{
  is_blank, skip_blank, read_quoted, expect, expect_separator, end_of_member, read_value,
  read_elements, read_members, has_template,
}

-- One step of each loop, from what its parts read.
read_elements-more :
    (fuel : ℕ) (first : Bool) (s t u : Bytes) (v : Value) (elements : Elements) (rest : Bytes)
    → starts_with (skip_blank s) (codes "]") ≡ false
    → expect_separator first (skip_blank s) ≡ some t
    → read_value fuel (skip_blank t) ≡ some (v, u)
    → read_elements fuel false u ≡ some (elements, rest)
    → read_elements (suc fuel) first s ≡ some (element v elements, rest)
unfolding read_elements
read_elements-more fuel first s t u v elements rest a b c d = rw a (rw b (rw c (rw d refl)))

read_members-more :
    (fuel : ℕ) (s t u w x y : Bytes) (key : Bytes) (v : Value) (members : Members) (rest : Bytes)
    → skip_blank s ≡ 34 ∷ t
    → read_quoted t ≡ some (key, u)
    → expect (codes "=") (skip_blank u) ≡ some w
    → read_value fuel (skip_blank w) ≡ some (v, x)
    → end_of_member x ≡ some y
    → read_members fuel y ≡ some (members, rest)
    → read_members (suc fuel) s ≡ some (member key v members, rest)
unfolding read_members starts_with
read_members-more fuel s t u w x y key v members rest a b c d e f =
    rw a (rw b (rw c (rw d (rw e (rw f refl)))))

skip_blank-spaces : (n : ℕ) (s : Bytes) → skip_blank (spaces n ++ s) ≡ skip_blank s
unfolding spaces drop_while
skip_blank-spaces zero s = refl
skip_blank-spaces (suc n) s = skip_blank-spaces n s

-- The text of a value begins with no blank and no bracket.
value_text-head :
    (v : Value) (n : ℕ) (rest : Bytes)
    → IsLiteral v
    → (c : ℕ) × (t : Bytes) × (value_text v n ++ rest ≡ c ∷ t)
      × (is_blank c ≡ false)
      × ((c == 93) ≡ false)
unfolding value_text IsLiteral
value_text-head null n rest h = (110, codes "ull" ++ rest, refl, refl, refl)
value_text-head (bool true) n rest h = (116, codes "rue" ++ rest, refl, refl, refl)
value_text-head (bool false) n rest h = (102, codes "alse" ++ rest, refl, refl, refl)
value_text-head (number []) n rest h = absurd (ground arith)
value_text-head (number (c ∷ text)) n rest h = (c, text ++ rest, refl, ground arith, ground arith)
value_text-head (string s) n rest h = (34, _, refl, refl, refl)
value_text-head (array elements) n rest h = (91, _, refl, refl, refl)
value_text-head (object members) n rest h = (123, _, refl, refl, refl)

skip_blank-value_text :
    (v : Value) (n : ℕ) (rest : Bytes)
    → IsLiteral v
    → skip_blank (value_text v n ++ rest) ≡ value_text v n ++ rest
unfolding drop_while
skip_blank-value_text v n rest h =
    let (c, t, e, b, k) = value_text-head v n rest h in rw e (rw b refl)

no_bracket-value_text :
    (v : Value) (n : ℕ) (rest : Bytes)
    → IsLiteral v
    → starts_with (value_text v n ++ rest) (codes "]") ≡ false
unfolding starts_with
no_bracket-value_text v n rest h =
    let (c, t, e, b, k) = value_text-head v n rest h in rw e (rw k refl)

pub Stops-elements_text :
    (elements : Elements) (n : ℕ) (rest : Bytes)
    → Stops (elements_text elements false n ++ (93 ∷ rest))
unfolding value_text
Stops-elements_text end_array n rest = refl
Stops-elements_text (element v elements) n rest = refl

pub size-pos : (v : Value) → 1 ≤ size v
unfolding size
size-pos (array elements) = omega arith
size-pos (object members) = omega arith
size-pos null = omega arith
size-pos _ = omega arith

pub size_elements-pos : (elements : Elements) → 1 ≤ size_elements elements
unfolding size
size_elements-pos end_array = omega arith
size_elements-pos (element v elements) = omega arith

pub size_members-pos : (members : Members) → 1 ≤ size_members members
unfolding size
size_members-pos end_object = omega arith
size_members-pos (member key v members) = omega arith

pub read_value-null :
    (fuel n : ℕ) (rest : Bytes)
    → read_value (suc fuel) (value_text null n ++ rest) ≡ some (null, rest)
unfolding read_value value_text starts_with
read_value-null fuel n rest = refl

pub read_value-bool :
    (fuel : ℕ) (b : Bool) (n : ℕ) (rest : Bytes)
    → read_value (suc fuel) (value_text (bool b) n ++ rest) ≡ some (bool b, rest)
unfolding read_value value_text starts_with
read_value-bool fuel true n rest = refl
read_value-bool fuel false n rest = refl

pub read_value-number :
    (fuel : ℕ) (text : Bytes) (n : ℕ) (rest : Bytes)
    → IsNumeral text
    → Stops rest
    → read_value (suc fuel) (value_text (number text) n ++ rest) ≡ some (number text, rest)
unfolding value_text
read_value-number fuel text n rest h k =
    read_value-numeral fuel text rest h.0 ∙ read_number-numeral text rest h k

pub read_elements-end :
    (fuel : ℕ) (first : Bool) (n : ℕ) (rest : Bytes)
    → read_elements (suc fuel) first (elements_text end_array first n ++ (93 ∷ rest))
      ≡ some (end_array, rest)
unfolding read_elements value_text drop_while starts_with
read_elements-end fuel first n rest = refl

pub read_value-quoted :
    (fuel : ℕ) (s : Bytes) (n : ℕ) (rest : Bytes)
    → has_template s ≡ false
    → read_value (suc fuel) (value_text (string s) n ++ rest) ≡ some (string s, rest)
unfolding read_value value_text starts_with
read_value-quoted fuel s n rest h =
    rw (append_assoc (escape_string s) (34 ∷ []) rest)
      (rw (read_quoted-escape_string s rest h) refl)

pub read_value-array :
    (fuel : ℕ) (elements : Elements) (n : ℕ) (rest : Bytes)
    → read_elements fuel true (elements_text elements true n ++ (93 ∷ rest)) ≡ some (elements, rest)
    → read_value (suc fuel) (value_text (array elements) n ++ rest) ≡ some (array elements, rest)
unfolding read_value value_text starts_with
read_value-array fuel elements n rest h =
    rw (append_assoc (elements_text elements true n) (93 ∷ []) rest) (rw h refl)

read_members-newline : (fuel : ℕ) (s : Bytes) → read_members fuel (10 ∷ s) ≡ read_members fuel s
unfolding read_members drop_while
read_members-newline zero s = refl
read_members-newline (suc fuel) s = refl

pub read_value-object :
    (fuel : ℕ) (members : Members) (n : ℕ) (rest : Bytes)
    → read_members fuel (members_text members n ++ (spaces n ++ (125 ∷ rest)))
      ≡ some (members, rest)
    → read_value (suc fuel) (value_text (object members) n ++ rest) ≡ some (object members, rest)
unfolding read_value value_text starts_with
read_value-object fuel members n rest h =
    rw (append_assoc (members_text members n) (spaces n ++ (125 ∷ [])) rest) (
      rw (append_assoc (spaces n) (125 ∷ []) rest) (
        rw (read_members-newline fuel (members_text members n ++ (spaces n ++ (125 ∷ rest))))
          (rw h refl)))

pub element_step :
    (v : Value) (elements : Elements) (fuel : ℕ) (first : Bool) (n : ℕ) (rest : Bytes)
    → IsLiteral v
    → read_value fuel (value_text v n ++ (elements_text elements false n ++ (93 ∷ rest)))
      ≡ some (v, elements_text elements false n ++ (93 ∷ rest))
    → read_elements fuel false (elements_text elements false n ++ (93 ∷ rest))
      ≡ some (elements, rest)
    → read_elements (suc fuel) first (elements_text (element v elements) first n ++ (93 ∷ rest))
      ≡ some (element v elements, rest)
unfolding value_text drop_while starts_with
element_step v elements fuel true n rest h a b =
    let after = elements_text elements false n ++ (93 ∷ rest) in
    let skip : skip_blank (value_text v n ++ after) ≡ value_text v n ++ after =
      skip_blank-value_text v n after h in
    rw (append_assoc (value_text v n) (elements_text elements false n) (93 ∷ rest)) (
      read_elements-more fuel true (value_text v n ++ after) (value_text v n ++ after) after v
        elements rest (rw skip (no_bracket-value_text v n after h)) (ap some skip)
        (ap (read_value fuel) skip ∙ a) b)
element_step v elements fuel false n rest h a b =
    let after = elements_text elements false n ++ (93 ∷ rest) in
    let skip : skip_blank (value_text v n ++ after) ≡ value_text v n ++ after =
      skip_blank-value_text v n after h in
    rw (append_assoc (value_text v n) (elements_text elements false n) (93 ∷ rest)) (
      read_elements-more fuel false (44 ∷ 32 ∷ (value_text v n ++ after))
        (32 ∷ (value_text v n ++ after)) after v elements rest refl refl
        (ap (read_value fuel) skip ∙ a) b)

pub end_step :
    (fuel n : ℕ) (rest : Bytes)
    → read_members (suc fuel) (members_text end_object n ++ (spaces n ++ (125 ∷ rest)))
      ≡ some (end_object, rest)
unfolding read_members value_text drop_while starts_with
end_step fuel n rest = rw (skip_blank-spaces n (125 ∷ rest)) refl

pub member_step :
    (key : Bytes) (v : Value) (members : Members) (fuel n : ℕ) (rest : Bytes)
    → has_template key ≡ false
    → IsLiteral v
    → read_value fuel
        (value_text v (n + 1) ++ (10 ∷ (members_text members n ++ (spaces n ++ (125 ∷ rest)))))
      ≡ some (v, 10 ∷ (members_text members n ++ (spaces n ++ (125 ∷ rest))))
    → read_members fuel (members_text members n ++ (spaces n ++ (125 ∷ rest)))
      ≡ some (members, rest)
    → read_members (suc fuel) (members_text (member key v members) n ++ (spaces n ++ (125 ∷ rest)))
      ≡ some (member key v members, rest)
unfolding value_text drop_while starts_with
member_step key v members fuel n rest h k a b =
    let after = members_text members n ++ (spaces n ++ (125 ∷ rest)) in
    let from_value = value_text v (n + 1) ++ (10 ∷ after) in
    let from_key = escape_string key ++ (34 ∷ (codes " = " ++ from_value)) in
    let whole : members_text (member key v members) n ++ (spaces n ++ (125 ∷ rest))
        ≡ spaces (n + 1) ++ (34 ∷ from_key) =
      simp append_assoc in
    rw whole (
      read_members-more fuel (spaces (n + 1) ++ (34 ∷ from_key)) from_key
        (codes " = " ++ from_value) (32 ∷ from_value) (10 ∷ after) after key v members rest
        (skip_blank-spaces (n + 1) (34 ∷ from_key))
        (read_quoted-escape_string key (codes " = " ++ from_value) h) refl
        (ap (read_value fuel) (skip_blank-value_text v (n + 1) (10 ∷ after) k) ∙ a) refl b)
