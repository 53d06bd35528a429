-- ===== src/Json/Text.antt =====
-- The text that crates/tfls-parser/src/json.rs writes, as functions of what is written.
use terraform_ls_rs.Base.{
  ℕ, zero, suc, ◌+◌, Bool, true, false, List, [], ◌∷◌, ◌++◌, ◌≡◌, refl, sym, append-nil,
  append_assoc, if◌then◌else◌, Bytes, codes, Bool-cases, inl, inr, arith,
}
use terraform_ls_rs.Json.Value.{
  Value, Elements, Members, null, bool, number, string, array, object, end_array, element,
  end_object, member, all_objects,
}
use terraform_ls_rs.Json.Write.{
  done, indent_push, escape_string, write_value, write_elements, write_members, push_key,
  push_header, write_block, write_body, write_body_entry, write_blocks, write_attr, push_labels,
  is_block_list,
}

unfoldable pub spaces : ℕ → Bytes
spaces zero = []
spaces (suc indent) = 32 ∷ 32 ∷ spaces indent

abbrev pub quoted_text : Bytes → Bytes
quoted_text s = codes "\"" ++ (escape_string s ++ codes "\"")

unfoldable mutual
  unfolding spaces

  pub value_text : Value → ℕ → Bytes
  value_text null indent = codes "null"
  value_text (bool b) indent = if b then codes "true" else codes "false"
  value_text (number text) indent = text
  value_text (string s) indent = quoted_text s
  value_text (array elements) indent =
      codes "[" ++ (elements_text elements true indent ++ codes "]")
  value_text (object members) indent =
      codes "{\n" ++ (members_text members indent ++ (spaces indent ++ codes "}"))

  pub elements_text : Elements → Bool → ℕ → Bytes
  elements_text end_array first indent = []
  elements_text (element v elements) first indent =
      (if first then [] else codes ", ")
      ++ (value_text v indent ++ elements_text elements false indent)

  pub members_text : Members → ℕ → Bytes
  members_text end_object indent = []
  members_text (member key v members) indent =
      spaces (indent + 1)
      ++ (quoted_text key
          ++ (codes " = "
              ++ (value_text v (indent + 1) ++ (codes "\n" ++ members_text members indent))))

pub indent_push-eq : (out : Bytes) (indent : ℕ) → indent_push out indent ≡ out ++ spaces indent
unfolding indent_push spaces
indent_push-eq out zero = sym (append-nil out)
indent_push-eq out (suc indent) = simp (indent_push-eq (out ++ codes "  ") indent, append_assoc)

-- Writing a value never fails, and appends its text.
mutual
  unfolding write_value value_text

  pub write_value-eq :
      (out : Bytes) (v : Value) (indent : ℕ)
      → write_value out v indent ≡ done (out ++ value_text v indent)
  write_value-eq out null indent = refl
  write_value-eq out (bool b) indent = refl
  write_value-eq out (number text) indent = refl
  write_value-eq out (string s) indent = simp append_assoc
  write_value-eq out (array elements) indent =
      simp (write_elements-eq (out ++ codes "[") elements true indent, append_assoc)
  write_value-eq out (object members) indent =
      simp (write_members-eq (out ++ codes "{\n") members indent, indent_push-eq, append_assoc)

  write_elements-eq :
      (out : Bytes) (elements : Elements) (first : Bool) (indent : ℕ)
      → write_elements out elements first indent ≡ done (out ++ elements_text elements first indent)
  write_elements-eq out end_array first indent = simp append-nil
  write_elements-eq out (element v elements) true indent = rw (write_value-eq out v indent) (
      rw (write_elements-eq (out ++ value_text v indent) elements false indent) (simp append_assoc))
  write_elements-eq out (element v elements) false indent =
      rw (write_value-eq (out ++ codes ", ") v indent) (
        rw (write_elements-eq ((out ++ codes ", ") ++ value_text v indent) elements false indent)
          (simp append_assoc))

  write_members-eq :
      (out : Bytes) (members : Members) (indent : ℕ)
      → write_members out members indent ≡ done (out ++ members_text members indent)
  write_members-eq out end_object indent = simp append-nil
  write_members-eq out (member key v members) indent =
      let key_out = push_key out key (indent + 1) in
      rw (write_value-eq key_out v (indent + 1)) (
        rw (write_members-eq ((key_out ++ value_text v (indent + 1)) ++ codes "\n") members indent)
          (simp (indent_push-eq, append_assoc)))

-- An attribute is written on a line of its own.
abbrev pub attr_text : Bytes → Value → ℕ → Bytes
attr_text key v indent =
    spaces indent ++ (key ++ (codes " = " ++ (value_text v indent ++ codes "\n")))

pub write_attr-eq :
    (out : Bytes) (key : Bytes) (v : Value) (indent : ℕ)
    → write_attr out key v indent ≡ done (out ++ attr_text key v indent)
unfolding write_attr
write_attr-eq out key v indent =
    rw (write_value-eq ((indent_push out indent ++ key) ++ codes " = ") v indent)
      (simp (indent_push-eq, append_assoc))

unfoldable pub labels_text : List Bytes → Bytes
labels_text [] = []
labels_text (label ∷ labels) =
    codes " \"" ++ (escape_string label ++ (codes "\"" ++ labels_text labels))

pub push_labels-eq :
    (out : Bytes) (labels : List Bytes) → push_labels out labels ≡ out ++ labels_text labels
unfolding push_labels labels_text
push_labels-eq out [] = sym (append-nil out)
push_labels-eq out (label ∷ labels) =
    rw (push_labels-eq (((out ++ codes " \"") ++ escape_string label) ++ codes "\"") labels)
      (simp append_assoc)

all_objects_of_list :
    (entries : Elements) → is_block_list entries ≡ true → all_objects entries ≡ true
all_objects_of_list end_array h = refl
all_objects_of_list (element v entries) h = h

-- A block with its braces, around the text of its body.
unfoldable pub framed : Bytes → List Bytes → Bytes → ℕ → Bytes
framed ident labels inner indent =
    spaces indent
    ++ (ident
        ++ (labels_text labels ++ (codes " {\n" ++ (inner ++ (spaces indent ++ codes "}\n")))))

unfoldable mutual
  unfolding spaces value_text framed

  pub body_text : Members → ℕ → Bytes
  body_text end_object indent = []
  body_text (member key v body) indent = entry_text key v indent ++ body_text body indent

  -- An array of objects is a block for each of them; any other value is an attribute.
  pub entry_text : Bytes → Value → ℕ → Bytes
  entry_text key (array entries) indent =
      let blocks = blocks_text key entries indent in
      if is_block_list entries then blocks else attr_text key (array entries) indent
  entry_text key v indent = attr_text key v indent

  pub blocks_text : Bytes → Elements → ℕ → Bytes
  blocks_text key (element (object body) entries) indent =
      framed key [] (body_text body (indent + 1)) indent ++ blocks_text key entries indent
  blocks_text key _ indent = []

abbrev pub block_text : Bytes → List Bytes → Members → ℕ → Bytes
block_text ident labels body indent = framed ident labels (body_text body (indent + 1)) indent

write_framed :
    (out ident : Bytes) (labels : List Bytes) (body : Members) (indent : ℕ)
    → ((start : Bytes)
        → write_body start body (indent + 1) ≡ done (start ++ body_text body (indent + 1)))
    → write_block out ident labels (object body) indent
      ≡ done (out ++ block_text ident labels body indent)
unfolding write_block framed
write_framed out ident labels body indent h =
    rw (h (push_header out ident labels indent))
      (simp (indent_push-eq, push_labels-eq, append_assoc))

-- No part of a body can fail.
mutual
  unfolding write_block body_text

  write_body-eq :
      (out : Bytes) (body : Members) (indent : ℕ)
      → write_body out body indent ≡ done (out ++ body_text body indent)
  write_body-eq out end_object indent = simp append-nil
  write_body-eq out (member key v body) indent =
      rw (write_body_entry-eq out key v indent)
        (rw (write_body-eq (out ++ entry_text key v indent) body indent) (simp append_assoc))

  write_body_entry-eq :
      (out key : Bytes) (v : Value) (indent : ℕ)
      → write_body_entry out key v indent ≡ done (out ++ entry_text key v indent)
  write_body_entry-eq out key (array entries) indent = elim (Bool-cases (is_block_list entries)) [
    | inl blocks ↦
        rw blocks (write_blocks-eq out key entries indent (all_objects_of_list entries blocks))
    | inr other ↦ rw other (write_attr-eq out key (array entries) indent)
  ]
  write_body_entry-eq out key null indent = write_attr-eq out key null indent
  write_body_entry-eq out key (bool b) indent = write_attr-eq out key (bool b) indent
  write_body_entry-eq out key (number text) indent = write_attr-eq out key (number text) indent
  write_body_entry-eq out key (string s) indent = write_attr-eq out key (string s) indent
  write_body_entry-eq out key (object body) indent = write_attr-eq out key (object body) indent

  write_blocks-eq :
      (out key : Bytes) (entries : Elements) (indent : ℕ)
      → all_objects entries ≡ true
      → write_blocks out key entries indent ≡ done (out ++ blocks_text key entries indent)
  write_blocks-eq out key end_array indent h = simp append-nil
  write_blocks-eq out key (element (object body) entries) indent h =
      rw (write_framed out key [] body indent (λ start. write_body-eq start body (indent + 1))) (
        rw (write_blocks-eq (out ++ block_text key [] body indent) key entries indent h)
          (simp append_assoc))
  write_blocks-eq out key (element _ entries) indent h = absurd (ground arith)

pub write_block-eq :
    (out ident : Bytes) (labels : List Bytes) (body : Members) (indent : ℕ)
    → write_block out ident labels (object body) indent
      ≡ done (out ++ block_text ident labels body indent)
write_block-eq out ident labels body indent =
    write_framed out ident labels body indent (λ start. write_body-eq start body (indent + 1))
