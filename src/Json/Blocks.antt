-- ===== src/Json/Blocks.antt =====
-- What `parse_json_source`, crates/tfls-parser/src/json.rs, hands to the parser of HCL, and when it
-- reports an error.
use terraform_ls_rs.Base.{
  suc, Bool, true, false, List, [], ◌∷◌, ◌++◌, ◌≡◌, refl, sym, subst, append_assoc, append-nil,
  if◌then◌else◌, Bytes, bytes_eq, codes, any, Bool-cases, inl, inr, arith,
}
use terraform_ls_rs.Json.Value.{
  Value, Members, null, bool, number, string, array, object, end_object, member,
}
use terraform_ls_rs.Json.Write.{Written, done, failed, and_then, write_block}
use terraform_ls_rs.Json.Text.{attr_text, write_attr-eq, write_block-eq}
use terraform_ls_rs.Json.Document.{
  top_level_keys, needs_two_labels, labeled_keys, members_of, write_named, write_second_layer,
  write_labeled, write_labeled_group, write_attrs, write_locals, write_top_level,
}
use terraform_ls_rs.Json.Conform.{
  AllMembers, IsNested, more_labels, label_count, attrs_text, locals_text, AreBlocks, block, locals,
}

-- What was written are blocks, and it was written without an error exactly when `P` holds.
abbrev pub Meets : Type 0 → Written → Type 0
Meets P (done out) = AreBlocks out × P
Meets P (failed out message) = AreBlocks out × (¬ P)

Meets-first : (P Q : Type 0) (w : Written) → P → Meets Q w → Meets (P × Q) w
Meets-first P Q (done out) p h = (h.0, (p, h.1))
Meets-first P Q (failed out message) p h = (h.0, λ pq. h.1 pq.1)

Meets-and_then :
    (P Q : Type 0) (w : Written) (next : Bytes → Written)
    → Meets P w
    → ((out : Bytes) → AreBlocks out → Meets Q (next out))
    → Meets (P × Q) (and_then w next)
Meets-and_then P Q (failed out message) next h k = (h.0, λ pq. h.1 pq.0)
Meets-and_then P Q (done out) next h k = Meets-first P Q (next out) h.1 (k out h.0)

write_block-Meets :
    (out ident : Bytes) (labels : List Bytes) (v : Value)
    → AreBlocks out
    → Meets (IsNested 0 v) (write_block out ident labels v 0)
unfolding write_block
write_block-Meets out ident labels (object body) h =
    subst (Meets Unit) (sym (write_block-eq out ident labels body 0))
      (block h ident labels body, tt)
write_block-Meets out ident labels null h = (h, λ n. n)
write_block-Meets out ident labels (bool b) h = (h, λ n. n)
write_block-Meets out ident labels (number text) h = (h, λ n. n)
write_block-Meets out ident labels (string s) h = (h, λ n. n)
write_block-Meets out ident labels (array elements) h = (h, λ n. n)

write_named-Meets :
    (out ident label : Bytes) (members : Members)
    → AreBlocks out
    → Meets (AllMembers (IsNested 0) members) (write_named out ident label members)
unfolding write_named
write_named-Meets out ident label end_object h = (h, tt)
write_named-Meets out ident label (member name body members) h =
    Meets-and_then (IsNested 0 body) (AllMembers (IsNested 0) members)
      (write_block out ident (label ∷ name ∷ []) body 0)
      (λ written. write_named written ident label members)
      (write_block-Meets out ident (label ∷ name ∷ []) body h)
      (λ written k. write_named-Meets written ident label members k)

write_second_layer-Meets :
    (out ident label : Bytes) (v : Value)
    → AreBlocks out
    → Meets (IsNested 1 v) (write_second_layer out ident label (members_of v))
write_second_layer-Meets out ident label (object members) h =
    write_named-Meets out ident label members h
write_second_layer-Meets out ident label null h = (h, λ n. n)
write_second_layer-Meets out ident label (bool b) h = (h, λ n. n)
write_second_layer-Meets out ident label (number text) h = (h, λ n. n)
write_second_layer-Meets out ident label (string s) h = (h, λ n. n)
write_second_layer-Meets out ident label (array elements) h = (h, λ n. n)

write_inner-Meets :
    (two : Bool) (out ident label : Bytes) (v : Value)
    → AreBlocks out
    → Meets (IsNested (if two then 1 else 0) v) (
        if two
        then write_second_layer out ident label (members_of v)
        else write_block out ident (label ∷ []) v 0)
write_inner-Meets true out ident label v h = write_second_layer-Meets out ident label v h
write_inner-Meets false out ident label v h = write_block-Meets out ident (label ∷ []) v h

write_labeled-Meets :
    (out ident : Bytes) (members : Members)
    → AreBlocks out
    → Meets (AllMembers (IsNested (more_labels ident)) members) (write_labeled out ident members)
unfolding write_labeled
write_labeled-Meets out ident end_object h = (h, tt)
write_labeled-Meets out ident (member label inner members) h =
    Meets-and_then (IsNested (more_labels ident) inner)
      (AllMembers (IsNested (more_labels ident)) members)
      (if needs_two_labels ident
        then write_second_layer out ident label (members_of inner)
        else write_block out ident (label ∷ []) inner 0)
      (λ written. write_labeled written ident members)
      (write_inner-Meets (needs_two_labels ident) out ident label inner h)
      (λ written k. write_labeled-Meets written ident members k)

write_labeled_group-Meets :
    (out ident : Bytes) (v : Value)
    → AreBlocks out
    → Meets (IsNested (suc (more_labels ident)) v) (write_labeled_group out ident v)
write_labeled_group-Meets out ident (object members) h = write_labeled-Meets out ident members h
write_labeled_group-Meets out ident null h = (h, λ n. n)
write_labeled_group-Meets out ident (bool b) h = (h, λ n. n)
write_labeled_group-Meets out ident (number text) h = (h, λ n. n)
write_labeled_group-Meets out ident (string s) h = (h, λ n. n)
write_labeled_group-Meets out ident (array elements) h = (h, λ n. n)

pub write_attrs-eq :
    (out : Bytes) (members : Members) → write_attrs out members ≡ done (out ++ attrs_text members)
unfolding write_attrs attrs_text
write_attrs-eq out end_object = rw (append-nil out) refl
write_attrs-eq out (member name v members) =
    rw (write_attr-eq out name v 1)
      (rw (write_attrs-eq (out ++ attr_text name v 1) members) (simp append_assoc))

pub write_locals-eq :
    (out : Bytes) (members : Members)
    → write_locals out (object members) ≡ done (out ++ locals_text members)
write_locals-eq out members =
    rw (write_attrs-eq (out ++ codes "locals {\n") members) (simp append_assoc)

write_locals-Meets :
    (out : Bytes) (v : Value) → AreBlocks out → Meets (IsNested 0 v) (write_locals out v)
write_locals-Meets out (object members) h =
    subst (Meets Unit) (sym (write_locals-eq out members)) (locals h members, tt)
write_locals-Meets out null h = (h, λ n. n)
write_locals-Meets out (bool b) h = (h, λ n. n)
write_locals-Meets out (number text) h = (h, λ n. n)
write_locals-Meets out (string s) h = (h, λ n. n)
write_locals-Meets out (array elements) h = (h, λ n. n)

pub write_top_level-Meets :
    (out key : Bytes) (v : Value)
    → any (bytes_eq key) top_level_keys ≡ true
    → AreBlocks out
    → Meets (IsNested (label_count key) v) (write_top_level out key v)
unfolding write_top_level
write_top_level-Meets out key v known h = elim (Bool-cases (bytes_eq key (codes "terraform"))) [
  | inl e ↦ rw e (write_block-Meets out key [] v h)
  | inr n ↦ elim (Bool-cases (bytes_eq key (codes "locals"))) [
    | inl e ↦ rw n (rw e (write_locals-Meets out v h))
    | inr m ↦
        let labeled : any (bytes_eq key) labeled_keys ≡ true = ground arith in
        rw n (rw m (rw labeled (write_labeled_group-Meets out key v h)))
  ]
]
