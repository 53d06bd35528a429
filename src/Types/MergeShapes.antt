-- ===== src/Types/MergeShapes.antt =====
-- `merge_shapes` of crates/tfls-core/src/variable_type.rs. The recursion is on the second shape.
use terraform_ls_rs.Base.{Option, none, some}
use terraform_ls_rs.Types.Shape.{
  VariableType, any, primitive, list, set, map, tuple, object, Fields, end, field, get, insert,
}

-- The value under one key: merged into the existing one, or new.
abbrev pub merge_value :
    (VariableType → VariableType) → VariableType → Option VariableType → VariableType
merge_value onto v none = v
merge_value onto v (some existing) = onto existing

-- An object `b` merged into `a`, with the loop over the fields of `b`.
abbrev pub object_onto : (Fields → Fields) → VariableType → VariableType → VariableType
object_onto absorb b any = b
object_onto absorb b (object a_fields) = object (absorb a_fields)
object_onto absorb b a = a

-- Any other `b` merged into `a`.
abbrev pub other_onto : VariableType → VariableType → VariableType
other_onto b any = b
other_onto b a = a

unfoldable mutual
  pub shape_onto : VariableType → VariableType → VariableType
  shape_onto any a = a
  shape_onto (object b_fields) a = object_onto (merge_fields b_fields) (object b_fields) a
  shape_onto (primitive p) a = other_onto (primitive p) a
  shape_onto (list t) a = other_onto (list t) a
  shape_onto (set t) a = other_onto (set t) a
  shape_onto (map t) a = other_onto (map t) a
  shape_onto (tuple ts) a = other_onto (tuple ts) a

  pub merge_fields : Fields → Fields → Fields
  merge_fields end a_fields = a_fields
  merge_fields (field k v b_fields) a_fields =
      merge_fields b_fields (insert k (merge_value (shape_onto v) v (get k a_fields)) a_fields)

unfoldable pub merge_shapes : VariableType → VariableType → VariableType
unfolding shape_onto
merge_shapes a b = shape_onto b a
