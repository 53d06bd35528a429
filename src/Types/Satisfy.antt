-- ===== src/Types/Satisfy.antt =====
-- `satisfies` and `primitives_compatible` of crates/tfls-core/src/variable_type.rs. The recursion is
-- on the declared type: a helper takes the test of the inner type as a function.
use terraform_ls_rs.Base.{ℕ, Bool, true, false, ◌&&◌, Option, none, some, ◌==◌}
use terraform_ls_rs.Types.Shape.{
  Primitive, string, number, bool, VariableType, any, primitive, list, set, map, tuple, object,
  Items, nil, cons, Fields, end, field, is_any, items_len, get, contains_key,
}

unfoldable pub primitives_compatible : Primitive → Primitive → Bool
primitives_compatible string _ = true
primitives_compatible number number = true
primitives_compatible number string = true
primitives_compatible number bool = false
primitives_compatible bool bool = true
primitives_compatible bool string = true
primitives_compatible bool number = false

unfoldable pub all_items : (VariableType → Bool) → Items → Bool
all_items p nil = true
all_items p (cons t ts) = p t && all_items p ts

unfoldable pub all_values : (VariableType → Bool) → Fields → Bool
all_values p end = true
all_values p (field k v fs) = p v && all_values p fs

-- `(Primitive(a), _)`.
unfoldable pub primitive_accepts : Primitive → VariableType → Bool
unfolding primitives_compatible
primitive_accepts a any = true
primitive_accepts a (primitive b) = primitives_compatible a b
primitive_accepts a _ = false

-- `(List(inner), _)` and `(Set(inner), _)`.
unfoldable pub sequence_accepts : (VariableType → Bool) → VariableType → Bool
unfolding all_items
sequence_accepts inner any = true
sequence_accepts inner (tuple items) = all_items inner items
sequence_accepts inner (list t) = true
sequence_accepts inner (set t) = true
sequence_accepts inner _ = false

-- `(Map(inner), _)`.
unfoldable pub map_accepts : (VariableType → Bool) → VariableType → Bool
unfolding all_values
map_accepts inner any = true
map_accepts inner (map t) = true
map_accepts inner (object fields) = all_values inner fields
map_accepts inner _ = false

-- `(Tuple(decl_items), _)`, with the length of `decl_items` and their test in order.
unfoldable pub tuple_accepts : ℕ → (Items → Bool) → VariableType → Bool
tuple_accepts n each any = true
tuple_accepts n each (tuple items) = n == items_len items && each items
tuple_accepts n each _ = false

-- `act.keys().any(|k| !decl.contains_key(k))`, negated.
unfoldable pub all_known : Fields → Fields → Bool
all_known decl end = true
all_known decl (field k v fs) = contains_key k decl && all_known decl fs

-- `(Object(decl), _)`, with the test of the declared fields.
unfoldable pub object_accepts : Fields → (Fields → Bool) → VariableType → Bool
object_accepts decl each any = true
object_accepts decl each (object act) = all_known decl act && each act
object_accepts decl each _ = false

-- A declared field, by the value that stands under its key.
unfoldable pub field_accepts : (VariableType → Bool) → Bool → Option VariableType → Bool
field_accepts test optional none = optional
field_accepts test optional (some a_ty) = test a_ty

unfoldable mutual
  unfolding primitive_accepts sequence_accepts map_accepts tuple_accepts object_accepts
      field_accepts

  pub satisfies : VariableType → VariableType → Bool
  satisfies any actual = true
  satisfies (primitive a) actual = primitive_accepts a actual
  satisfies (list inner) actual = sequence_accepts (satisfies inner) actual
  satisfies (set inner) actual = sequence_accepts (satisfies inner) actual
  satisfies (map inner) actual = map_accepts (satisfies inner) actual
  satisfies (tuple decl) actual = tuple_accepts (items_len decl) (satisfies_items decl) actual
  satisfies (object decl) actual = object_accepts decl (satisfies_fields decl) actual

  -- The zipped elements.
  pub satisfies_items : Items → Items → Bool
  satisfies_items nil actual = true
  satisfies_items (cons d ds) nil = true
  satisfies_items (cons d ds) (cons a as_) = satisfies d a && satisfies_items ds as_

  -- The declared fields, looked up in the actual ones.
  pub satisfies_fields : Fields → Fields → Bool
  satisfies_fields end act = true
  satisfies_fields (field k d fs) act =
      field_accepts (satisfies d) (is_any d) (get k act) && satisfies_fields fs act
