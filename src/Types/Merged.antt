-- ===== src/Types/Merged.antt =====
-- What `merge_shapes` of crates/tfls-core/src/variable_type.rs returns.
use Prim.Native.Nat.{compare}
use terraform_ls_rs.Base.{
  Option, none, some, ◌≡◌, refl, sym, ap, ◌∙◌, Ordering, if◌then◌else◌, Bytes, bytes_eq, Bool-cases,
  inl, inr, arith,
}
use terraform_ls_rs.Base.Scan.{bytes_eq_iff}
use terraform_ls_rs.Base.Order.{cmp_list, cmp_list-IsTotalOrder, compare-IsTotalOrder}
use terraform_ls_rs.Types.Shape.{VariableType, object, Fields, end, field, get, insert}
use terraform_ls_rs.Types.MergeShapes.{merge_value, shape_onto, merge_fields, merge_shapes}
use terraform_ls_rs.Types.Reflexive.{AllKeys, Ascending, lt-ne}

cmp_eq : (k j : Bytes) → cmp_list compare k j ≡ Ordering.eq → k ≡ j
cmp_eq = (cmp_list-IsTotalOrder compare-IsTotalOrder).eq_of_cmp

cmp_same : (k : Bytes) → cmp_list compare k k ≡ Ordering.eq
cmp_same = (cmp_list-IsTotalOrder compare-IsTotalOrder).same

pub get-insert :
    (j k : Bytes) (v : VariableType) (fs : Fields)
    → get j (insert k v fs) ≡ (if bytes_eq j k then some v else get j fs)
unfolding get insert
get-insert j k v end = refl
get-insert j k v (field i w fs) =
    ground (arith, get-insert j k v fs, cmp_eq k i, cmp_same k, bytes_eq_iff j k, bytes_eq_iff j i)

-- The value under a key of the merged object, from those of its two parts.
abbrev pub merged : Option VariableType → Option VariableType → Option VariableType
merged none none = none
merged (some a) none = some a
merged none (some b) = some b
merged (some a) (some b) = some (merge_shapes a b)

get-above :
    (k : Bytes) (fs : Fields)
    → AllKeys (λ j. cmp_list compare k j ≡ Ordering.lt) fs
    → get k fs ≡ none
unfolding get
get-above k end h = refl
get-above k (field j v fs) h =
    ground (arith, get-above k fs h.1, lt-ne k j h.0, bytes_eq_iff k j, bytes_eq_iff j k)

merged_one :
    (b : VariableType) (o : Option VariableType)
    → some (merge_value (shape_onto b) b o) ≡ merged o (some b)
unfolding merge_shapes
merged_one b none = refl
merged_one b (some a) = refl

merge_fields_step :
    (k : Bytes) (v : VariableType) (bs as_ : Fields)
    → merge_fields (field k v bs) as_
      ≡ merge_fields bs (insert k (merge_value (shape_onto v) v (get k as_)) as_)
unfolding merge_fields
merge_fields_step k v bs as_ = refl

merge_fields-end : (as_ : Fields) → merge_fields end as_ ≡ as_
unfolding merge_fields
merge_fields-end as_ = refl

merged-none : (o : Option VariableType) → merged o none ≡ o
merged-none none = refl
merged-none (some a) = refl

-- After the field `k` only the value under `k` has changed.
get-absorbed :
    (j k : Bytes) (v : VariableType) (bs as_ : Fields)
    → get k bs ≡ none
    → merged (get j (insert k (merge_value (shape_onto v) v (get k as_)) as_)) (get j bs)
      ≡ merged (get j as_) (get j (field k v bs))
unfolding get
get-absorbed j k v bs as_ none_later = elim (Bool-cases (bytes_eq j k)) [
  | inl same ↦
      let e = (bytes_eq_iff j k).0 same in
      rw (get-insert j k (merge_value (shape_onto v) v (get k as_)) as_, same)
        (rw e (
          rw (none_later, merged-none (some (merge_value (shape_onto v) v (get k as_))))
            (merged_one v (get k as_))))
  | inr other ↦ rw (get-insert j k (merge_value (shape_onto v) v (get k as_)) as_, other)
]

get-merge_fields :
    (j : Bytes) (bs as_ : Fields)
    → Ascending bs
    → get j (merge_fields bs as_) ≡ merged (get j as_) (get j bs)
get-merge_fields j end as_ h =
    ap (get j) (merge_fields-end as_) ∙ unfold get in sym (merged-none (get j as_))
get-merge_fields j (field k v bs) as_ h =
    ap (get j) (merge_fields_step k v bs as_)
    ∙ get-merge_fields j bs (insert k (merge_value (shape_onto v) v (get k as_)) as_) h.1
    ∙ get-absorbed j k v bs as_ (get-above k bs h.0)

-- Two object shapes merge to an object: under each key stands nothing if neither has it, the value
-- of the one that has it, or the merge of both values. The second map's keys are ascending.
pub merge_shapes-object :
    (as_ bs : Fields)
    → Ascending bs
    → (fs : Fields) × (merge_shapes (object as_) (object bs) ≡ object fs)
      × ((j : Bytes) → get j fs ≡ merged (get j as_) (get j bs))
unfolding merge_shapes
merge_shapes-object as_ bs h = (merge_fields bs as_, refl, λ j. get-merge_fields j bs as_ h)
