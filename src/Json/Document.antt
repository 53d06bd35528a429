-- ===== src/Json/Document.antt =====
-- `parse_json_source` and the writers of its entries, crates/tfls-parser/src/json.rs.
use terraform_ls_rs.Base.{
  Bool, Option, none, some, List, [], ◌∷◌, ◌++◌, map, if◌then◌else◌, Result, ok, err, Bytes,
  bytes_eq, codes, any,
}
use terraform_ls_rs.Json.Value.{Value, Members, object, end_object, member}
use terraform_ls_rs.Json.Write.{Written, done, failed, and_then, write_attr, write_block}

abbrev pub top_level_keys : List Bytes
top_level_keys =
    codes "terraform"
    ∷ codes "resource"
    ∷ codes "data"
    ∷ codes "variable"
    ∷ codes "output"
    ∷ codes "locals"
    ∷ codes "module"
    ∷ codes "provider"
    ∷ codes "moved"
    ∷ codes "check"
    ∷ codes "import"
    ∷ codes "removed"
    ∷ []

abbrev pub needs_two_labels : Bytes → Bool
needs_two_labels ident = any (bytes_eq ident) (codes "resource" ∷ codes "data" ∷ [])

abbrev pub labeled_keys : List Bytes
labeled_keys =
    codes "resource"
    ∷ codes "data"
    ∷ codes "variable"
    ∷ codes "output"
    ∷ codes "module"
    ∷ codes "provider"
    ∷ codes "moved"
    ∷ codes "check"
    ∷ codes "import"
    ∷ codes "removed"
    ∷ []

abbrev pub not_object : Bytes → Bytes
not_object ident = codes "`" ++ (ident ++ codes "` must be an object")

abbrev pub not_named_blocks : Bytes → Bytes → Bytes
not_named_blocks ident label =
    codes "`" ++ (ident ++ (codes "." ++ (label ++ codes "` must be an object of named blocks")))

-- `as_object`.
abbrev pub members_of : Value → Option Members
members_of (object members) = some members
members_of _ = none

unfoldable pub write_named : Bytes → Bytes → Bytes → Members → Written
unfolding write_block
write_named out ident label end_object = done out
write_named out ident label (member name body members) =
    and_then (write_block out ident (label ∷ name ∷ []) body 0)
      (λ written. write_named written ident label members)

abbrev pub write_second_layer : Bytes → Bytes → Bytes → Option Members → Written
write_second_layer out ident label none = failed out (not_named_blocks ident label)
write_second_layer out ident label (some members) = write_named out ident label members

unfoldable pub write_labeled : Bytes → Bytes → Members → Written
unfolding write_block write_named
write_labeled out ident end_object = done out
write_labeled out ident (member label inner members) =
    and_then
      (if needs_two_labels ident
        then write_second_layer out ident label (members_of inner)
        else write_block out ident (label ∷ []) inner 0)
      (λ written. write_labeled written ident members)

abbrev pub write_first_layer : Bytes → Bytes → Option Members → Written
write_first_layer out ident none = failed out (not_object ident)
write_first_layer out ident (some members) = write_labeled out ident members

abbrev pub write_labeled_group : Bytes → Bytes → Value → Written
write_labeled_group out ident v = write_first_layer out ident (members_of v)

unfoldable pub write_attrs : Bytes → Members → Written
unfolding write_attr
write_attrs out end_object = done out
write_attrs out (member name v members) =
    and_then (write_attr out name v 1) (λ written. write_attrs written members)

abbrev pub write_locals_object : Bytes → Option Members → Written
write_locals_object out none = failed out (codes "`locals` must be an object")
write_locals_object out (some members) =
    and_then (write_attrs (out ++ codes "locals {\n") members)
      (λ written. done (written ++ codes "}\n"))

abbrev pub write_locals : Bytes → Value → Written
write_locals out v = write_locals_object out (members_of v)

unfoldable pub write_top_level : Bytes → Bytes → Value → Written
unfolding write_block write_labeled write_attrs
write_top_level out key v =
    if bytes_eq key (codes "terraform")
    then write_block out key [] v 0
    else if bytes_eq key (codes "locals")
    then write_locals out v
    else if any (bytes_eq key) labeled_keys
    then write_labeled_group out key v
    else failed out (codes "unsupported top-level key `" ++ (key ++ codes "`"))

abbrev pub unknown_key : Bytes → Bytes
unknown_key key = codes "unknown top-level key `" ++ (key ++ codes "` in `.tf.json`")

abbrev pub text_of : Written → Bytes
text_of (done out) = out
text_of (failed out message) = out

abbrev pub messages_of : Written → List Bytes
messages_of (done out) = []
messages_of (failed out message) = message ∷ []

-- The loop over the root's members: the text, and the messages of the errors.
unfoldable pub convert : Bytes → Members → Bytes × List Bytes
unfolding write_top_level
convert hcl end_object = (hcl, [])
convert hcl (member key v members) =
    let known = any (bytes_eq key) top_level_keys in
    let written = write_top_level hcl key v in
    let (out, messages) = convert (if known then text_of written else hcl) members in
    (out, (if known then messages_of written else unknown_key key ∷ []) ++ messages)

-- The result of the parser, for a type of bodies and a type of errors.
pub record ParsedFile (Body Error : Type 0) : Type 0 where
  pub body : Option Body
  pub errors : List Error

-- `serde_json::from_str`, with the text of its error, and the parser of hcl_edit.
module _ {Body Error : Type 0} (json : Bytes → Error) (from_str : Bytes → Result Value Bytes)
    (parse_source : Bytes → ParsedFile Body Error) where
  abbrev one_error : Bytes → ParsedFile Body Error
  one_error message = record { body = none; errors = json message ∷ [] }

  unfoldable pub parse_root : Option Members → ParsedFile Body Error
  unfolding convert
  parse_root none = one_error (codes "`.tf.json` must be a JSON object at the top level")
  parse_root (some root) =
      let (hcl, messages) = convert [] root in
      let parsed = parse_source hcl in
      record { body = parsed.body; errors = map json messages ++ parsed.errors }

  unfoldable pub parse_value : Result Value Bytes → ParsedFile Body Error
  unfolding parse_root
  parse_value (err e) = one_error (codes "invalid JSON: " ++ e)
  parse_value (ok v) = parse_root (members_of v)

  unfoldable pub parse_json_source : Bytes → ParsedFile Body Error
  unfolding parse_value
  parse_json_source source = parse_value (from_str source)
