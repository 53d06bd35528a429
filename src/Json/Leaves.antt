-- ===== src/Json/Leaves.antt =====
-- What `parse_json_source`, crates/tfls-parser/src/json.rs, makes of a document that conforms: a
-- block for each innermost object.
use terraform_ls_rs.Base.{
  ℕ, zero, suc, Bool, true, false, some, List, [], ◌∷◌, ◌++◌, ◌≡◌, refl, subst, append_assoc,
  append-nil, if◌then◌else◌, Result, ok, Bytes, bytes_eq, codes, any, Bool-cases, inl, inr, arith,
}
use terraform_ls_rs.Base.Scan.{bytes_eq_iff}
use terraform_ls_rs.Json.Value.{Value, Members, object, end_object, member}
use terraform_ls_rs.Json.Write.{done, write_block}
use terraform_ls_rs.Json.Text.{block_text, write_block-eq}
use terraform_ls_rs.Json.Document.{
  top_level_keys, needs_two_labels, labeled_keys, write_named, write_second_layer, write_labeled,
  write_top_level, convert, ParsedFile, parse_json_source,
}
use terraform_ls_rs.Json.Conform.{
  AllMembers, IsNested, more_labels, label_count, IsConforming, locals_text,
}
use terraform_ls_rs.Json.Blocks.{write_locals-eq}

-- A block for each object below `n` keys, which are its labels after those above it.
unfoldable mutual
  pub leaves_text : ℕ → Bytes → List Bytes → Value → Bytes
  leaves_text zero ident labels (object body) = block_text ident labels body 0
  leaves_text (suc n) ident labels (object members) = below_text n ident labels members
  leaves_text n ident labels _ = []

  pub below_text : ℕ → Bytes → List Bytes → Members → Bytes
  below_text n ident labels end_object = []
  below_text n ident labels (member label v members) =
      leaves_text n ident (labels ++ (label ∷ [])) v ++ below_text n ident labels members

abbrev pub top_level_text : Bytes → Value → Bytes
top_level_text key (object members) =
    if bytes_eq key (codes "locals")
    then locals_text members
    else leaves_text (label_count key) key [] (object members)
top_level_text key _ = []

unfoldable pub document_text : Members → Bytes
unfolding leaves_text
document_text end_object = []
document_text (member key v members) = top_level_text key v ++ document_text members

write_named-eq :
    (out ident label : Bytes) (members : Members)
    → AllMembers (IsNested 0) members
    → write_named out ident label members ≡ done (out ++ below_text 0 ident (label ∷ []) members)
unfolding write_named leaves_text
write_named-eq out ident label end_object h = rw (append-nil out) refl
write_named-eq out ident label (member name (object body) members) h =
    rw (write_block-eq out ident (label ∷ name ∷ []) body 0) (
      rw
        (write_named-eq (out ++ block_text ident (label ∷ name ∷ []) body 0) ident label members
          h.1)
        (simp append_assoc))
write_named-eq out ident label (member name _ members) h = absurd h.0

inner-eq :
    (two : Bool) (out ident label : Bytes) (members : Members)
    → IsNested (if two then 1 else 0) (object members)
    → (if two
        then write_second_layer out ident label (some members)
        else write_block out ident (label ∷ []) (object members) 0)
      ≡ done (out ++ leaves_text (if two then 1 else 0) ident (label ∷ []) (object members))
unfolding leaves_text
inner-eq true out ident label members h = write_named-eq out ident label members h
inner-eq false out ident label members h = write_block-eq out ident (label ∷ []) members 0

IsNested-members : (n : ℕ) (v : Value) → IsNested n v → (members : Members) × (v ≡ object members)
IsNested-members zero (object members) h = (members, refl)
IsNested-members (suc n) (object members) h = (members, refl)
IsNested-members zero _ h = absurd h
IsNested-members (suc n) _ h = absurd h

write_labeled-eq :
    (out ident : Bytes) (members : Members)
    → AllMembers (IsNested (more_labels ident)) members
    → write_labeled out ident members
      ≡ done (out ++ below_text (more_labels ident) ident [] members)
unfolding write_labeled leaves_text
write_labeled-eq out ident end_object h = rw (append-nil out) refl
write_labeled-eq out ident (member label inner members) h =
    let (inner_members, e) = IsNested-members (more_labels ident) inner h.0 in
    let nested : IsNested (more_labels ident) (object inner_members) =
      subst (IsNested (more_labels ident)) e h.0 in
    let text = leaves_text (more_labels ident) ident (label ∷ []) (object inner_members) in
    rw e (
      rw (inner-eq (needs_two_labels ident) out ident label inner_members nested)
        (rw (write_labeled-eq (out ++ text) ident members h.1) (simp append_assoc)))

not_both :
    (key : Bytes) → bytes_eq key (codes "locals") ≡ true → bytes_eq key (codes "terraform") ≡ false
unfolding bytes_eq
not_both key e = rw ((bytes_eq_iff key (codes "locals")).0 e) refl

labeled-IsNested :
    (key : Bytes) (members : Members)
    → bytes_eq key (codes "terraform") ≡ false
    → bytes_eq key (codes "locals") ≡ false
    → IsNested (label_count key) (object members)
    → AllMembers (IsNested (more_labels key)) members
labeled-IsNested key members n m = rw n (rw m (λ h. h))

-- The value of a known key is written as its blocks.
write_top_level-eq :
    (out key : Bytes) (members : Members)
    → any (bytes_eq key) top_level_keys ≡ true
    → IsNested (label_count key) (object members)
    → write_top_level out key (object members) ≡ done (out ++ top_level_text key (object members))
unfolding write_top_level leaves_text
write_top_level-eq out key members known h = elim (Bool-cases (bytes_eq key (codes "locals"))) [
  | inl e ↦
      let other : bytes_eq key (codes "terraform") ≡ false = not_both key e in
      rw other (rw e (write_locals-eq out members))
  | inr m ↦ elim (Bool-cases (bytes_eq key (codes "terraform"))) [
    | inl e ↦ rw e (rw m (write_block-eq out key [] members 0))
    | inr n ↦
        let labeled : any (bytes_eq key) labeled_keys ≡ true = ground arith in
        rw n (
          rw m (rw labeled (write_labeled-eq out key members (labeled-IsNested key members n m h))))
  ]
]

document_text-member :
    (out key : Bytes) (v : Value) (members : Members)
    → any (bytes_eq key) top_level_keys ≡ true
    → IsNested (label_count key) v
    → write_top_level out key v ≡ done (out ++ top_level_text key v)
document_text-member out key v members known h =
    let (inner, e) = IsNested-members (label_count key) v h in
    rw e (write_top_level-eq out key inner known (subst (IsNested (label_count key)) e h))

convert-document_text :
    (hcl : Bytes) (root : Members)
    → IsConforming root
    → convert hcl root ≡ (hcl ++ document_text root, [])
unfolding convert document_text
convert-document_text hcl end_object h = rw (append-nil hcl) refl
convert-document_text hcl (member key v members) h = rw h.0 (
    rw (document_text-member hcl key v members h.0 h.1)
      (rw (convert-document_text (hcl ++ top_level_text key v) members h.2) (simp append_assoc)))

-- When the source is a JSON object that conforms, the parser of HCL reads a document that has, in
-- order, one block for each innermost object, with the keys above it as its labels, and one block of
-- attributes for each `locals`; the result is the parser's.
pub parse_json_source-document_text :
    {Body Error : Type 0} (json : Bytes → Error) (from_str : Bytes → Result Value Bytes)
    (parse_source : Bytes → ParsedFile Body Error) (source : Bytes) (root : Members)
    → from_str source ≡ ok (object root)
    → IsConforming root
    → parse_json_source json from_str parse_source source ≡ parse_source (document_text root)
unfolding parse_json_source
parse_json_source-document_text json from_str parse_source source root e h =
    rw e (rw (convert-document_text [] root h) refl)
