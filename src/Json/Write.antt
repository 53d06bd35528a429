-- ===== src/Json/Write.antt =====
-- The writer of HCL text, crates/tfls-parser/src/json.rs. Each function takes the text written so
-- far, and what it wrote stands in it also when it fails.
use terraform_ls_rs.Base.{
  ℕ, zero, suc, ◌+◌, Bool, true, false, List, [], ◌∷◌, ◌++◌, ◌==◌, if◌then◌else◌, Bytes, codes,
}
use terraform_ls_rs.Json.Value.{
  Value, Elements, Members, null, bool, number, string, array, object, end_array, element,
  end_object, member, all_objects,
}

-- The text, and the message of the error if there is one.
pub data Written : Type 0 where
  done : Bytes → Written
  failed : Bytes → Bytes → Written

-- `?`.
abbrev pub and_then : Written → (Bytes → Written) → Written
and_then (done out) next = next out
and_then (failed out message) next = failed out message

unfoldable pub indent_push : Bytes → ℕ → Bytes
indent_push out zero = out
indent_push out (suc indent) = indent_push (out ++ codes "  ") indent

-- One character of `escape_string`; the bytes of a character outside ASCII stay as they are.
unfoldable pub escape : ℕ → Bytes
escape c =
    if c == b'\\'
    then codes "\\\\"
    else if c == b'"'
    then codes "\\\""
    else if c == b'\n'
    then codes "\\n"
    else if c == b'\r'
    then codes "\\r"
    else if c == b'\t'
    then codes "\\t"
    else c ∷ []

unfoldable pub escape_string : Bytes → Bytes
unfolding escape
escape_string [] = []
escape_string (c ∷ s) = escape c ++ escape_string s

abbrev pub quoted : Bytes → Bytes → Bytes
quoted out s = ((out ++ codes "\"") ++ escape_string s) ++ codes "\""

abbrev pub push_separator : Bytes → Bool → Bytes
push_separator out first = if first then out else out ++ codes ", "

abbrev pub push_key : Bytes → Bytes → ℕ → Bytes
push_key out key indent = quoted (indent_push out indent) key ++ codes " = "

-- `first` is `i == 0` in the loop over an array.
unfoldable mutual
  pub write_value : Bytes → Value → ℕ → Written
  write_value out null indent = done (out ++ codes "null")
  write_value out (bool b) indent = done (out ++ (if b then codes "true" else codes "false"))
  write_value out (number text) indent = done (out ++ text)
  write_value out (string s) indent = done (quoted out s)
  write_value out (array elements) indent =
      and_then (write_elements (out ++ codes "[") elements true indent)
        (λ written. done (written ++ codes "]"))
  write_value out (object members) indent =
      and_then (write_members (out ++ codes "{\n") members indent)
        (λ written. done (indent_push written indent ++ codes "}"))

  pub write_elements : Bytes → Elements → Bool → ℕ → Written
  write_elements out end_array first indent = done out
  write_elements out (element v elements) first indent =
      and_then (write_value (push_separator out first) v indent)
        (λ written. write_elements written elements false indent)

  pub write_members : Bytes → Members → ℕ → Written
  write_members out end_object indent = done out
  write_members out (member key v members) indent =
      and_then (write_value (push_key out key (indent + 1)) v (indent + 1))
        (λ written. write_members (written ++ codes "\n") members indent)

unfoldable pub write_attr : Bytes → Bytes → Value → ℕ → Written
unfolding write_value
write_attr out key v indent =
    and_then (write_value ((indent_push out indent ++ key) ++ codes " = ") v indent)
      (λ written. done (written ++ codes "\n"))

unfoldable pub push_labels : Bytes → List Bytes → Bytes
push_labels out [] = out
push_labels out (label ∷ labels) =
    push_labels (((out ++ codes " \"") ++ escape_string label) ++ codes "\"") labels

abbrev pub push_header : Bytes → Bytes → List Bytes → ℕ → Bytes
push_header out ident labels indent =
    push_labels (indent_push out indent ++ ident) labels ++ codes " {\n"

abbrev pub body_not_object : Bytes → Bytes
body_not_object ident = codes "`" ++ (ident ++ codes "` body must be an object")

-- An array of objects, and of at least one.
abbrev pub is_block_list : Elements → Bool
is_block_list end_array = false
is_block_list (element v elements) = all_objects (element v elements)

unfoldable mutual
  unfolding write_attr

  pub write_block : Bytes → Bytes → List Bytes → Value → ℕ → Written
  write_block out ident labels (object body) indent =
      and_then (write_body (push_header out ident labels indent) body (indent + 1))
        (λ written. done (indent_push written indent ++ codes "}\n"))
  write_block out ident labels _ indent = failed out (body_not_object ident)

  pub write_body : Bytes → Members → ℕ → Written
  write_body out end_object indent = done out
  write_body out (member key v body) indent =
      and_then (write_body_entry out key v indent) (λ written. write_body written body indent)

  pub write_body_entry : Bytes → Bytes → Value → ℕ → Written
  write_body_entry out key (array entries) indent =
      let blocks = write_blocks out key entries indent in
      if is_block_list entries then blocks else write_attr out key (array entries) indent
  write_body_entry out key v indent = write_attr out key v indent

  pub write_blocks : Bytes → Bytes → Elements → ℕ → Written
  write_blocks out key end_array indent = done out
  write_blocks out key (element entry entries) indent =
      and_then (write_block out key [] entry indent)
        (λ written. write_blocks written key entries indent)
