-- ===== src/Types/Tests.antt =====
-- Runs of the type model, and the theorems at small types.
use terraform_ls_rs.Base.{true, [], ◌∷◌, arith, ◌++◌, ◌≡◌, ◌↔◌, refl, Bytes, codes, bytes_eq}
use terraform_ls_rs.Base.Order.{cmp_list}
use terraform_ls_rs.Types.Shape.{
  any, primitive, string, number, bool, list, tuple, object, cons, nil, Fields, field, end, get,
  contains_key, insert, items_len, display,
}
use terraform_ls_rs.Types.Satisfy.{satisfies, all_known}
use terraform_ls_rs.Types.Explain.{explain_mismatch, explain_case, wrong_text}
use terraform_ls_rs.Types.Explained.{explain_mismatch-nil_iff}
use terraform_ls_rs.Types.MergeShapes.{merge_shapes}
use terraform_ls_rs.Types.Merged.{merged, merge_shapes-object}
use terraform_ls_rs.Types.MergeTypes.{
  primitive_eq, merge_within, depth, merge_types, merge_observations,
}
use terraform_ls_rs.Types.MergedTypes.{united, merge_types-object, merge_within-merge_types}
use terraform_ls_rs.Types.Conflict.{merge_observations-conflict}
use terraform_ls_rs.Types.Reflexive.{Ascending, IsMapped}

abbrev person : Fields
person = field (codes "age") (primitive number) (field (codes "name") (primitive string) end)

abbrev named : Fields
named = field (codes "name") (list (primitive string)) (field (codes "tags") any end)

program : Unit {0}
unfolding satisfies explain_mismatch explain_case merge_shapes insert get bytes_eq cmp_list display
    all_known contains_key wrong_text
program = tt

display-person : display (object person) ≡ codes "object({ age = number, name = string })"
unfolding program
display-person = refl

list_accepts : satisfies (list (primitive string)) (tuple (cons (primitive number) nil)) ≡ true
unfolding program
list_accepts = refl

explains :
    explain_mismatch (object person) (object named)
    ≡ codes "unknown field: `tags`; missing field: `age`; "
      ++ codes "`name` expected `string`, got `list(string)`"
unfolding program
explains = refl

merges :
    merge_shapes (object person) (object named)
    ≡ object (
        field
          (codes "age")
          (primitive number)
          (field (codes "name") (primitive string) (field (codes "tags") any end)))
unfolding program
merges = refl

named-Ascending : Ascending named
unfolding cmp_list
named-Ascending = ((refl, tt), (tt, tt))

person-IsMapped : IsMapped (object person)
unfolding cmp_list
person-IsMapped = (((refl, tt), (tt, tt)), (tt, (tt, tt)))

explain_mismatch-nil_iff_example :
    (explain_mismatch (object person) (object named) ≡ [])
    ↔ (satisfies (object person) (object named) ≡ true)
explain_mismatch-nil_iff_example = explain_mismatch-nil_iff (object person) (object named)

merge_shapes-object_example :
    (fs : Fields) × (merge_shapes (object person) (object named) ≡ object fs)
    × ((j : Bytes) → get j fs ≡ merged (get j person) (get j named))
merge_shapes-object_example = merge_shapes-object person named named-Ascending

merge_program : Unit {0}
unfolding items_len merge_within merge_types merge_observations get insert bytes_eq cmp_list
merge_program = tt

pairs_to_list :
    merge_types
      (tuple (cons (primitive number) nil))
      (tuple (cons any (cons (primitive number) nil)))
    ≡ list (primitive number)
unfolding merge_program
pairs_to_list = refl

-- A key that only one object has keeps its type.
one_sided :
    merge_types
      (object (field (codes "a") (primitive bool) end))
      (object (field (codes "b") any end))
    ≡ object (field (codes "a") (primitive bool) (field (codes "b") any end))
unfolding merge_program
one_sided = refl

merge_types-object_example :
    (fs : Fields) × (merge_types (object person) (object named) ≡ object fs)
    × ((j : Bytes) → get j fs ≡ united (get j person) (get j named))
merge_types-object_example = merge_types-object person named

merge_within-merge_types_example :
    merge_within 9 (object person) (object named) ≡ merge_types (object person) (object named)
merge_within-merge_types_example =
    merge_within-merge_types 9 (object person) (object named) (unfold depth in omega arith)
      (unfold depth in omega arith)

merge_observations-conflict_example :
    merge_observations (primitive string ∷ primitive number ∷ primitive bool ∷ [])
    ≡ merge_observations (primitive bool ∷ [])
merge_observations-conflict_example =
    merge_observations-conflict string number (primitive bool) [] (unfold primitive_eq in refl)
