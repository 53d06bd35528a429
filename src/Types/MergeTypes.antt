-- ===== src/Types/MergeTypes.antt =====
-- `merge_types` and `merge_observations` of crates/tfls-core/src/variable_type.rs. The recursion is on
-- fuel; `Types.Enough` shows that one more than the depths of the types is enough.
use Prim.Native.Nat.{compare}
use terraform_ls_rs.Base.{
  ℕ, zero, suc, max, Bool, true, false, ◌&&◌, Option, none, some, List, [], ◌∷◌, Ordering, ◌==◌,
  if◌then◌else◌, Bytes, bytes_eq,
}
use terraform_ls_rs.Base.Order.{cmp_list}
use terraform_ls_rs.Types.Shape.{
  Primitive, string, number, bool, VariableType, any, primitive, list, set, map, tuple, object,
  Items, nil, cons, Fields, end, field, is_any, items_len, get, insert,
}

-- The derived `PartialEq`.
unfoldable pub primitive_eq : Primitive → Primitive → Bool
primitive_eq string string = true
primitive_eq number number = true
primitive_eq bool bool = true
primitive_eq _ _ = false

unfoldable mutual
  unfolding primitive_eq bytes_eq

  pub type_eq : VariableType → VariableType → Bool
  type_eq any any = true
  type_eq (primitive p) (primitive q) = primitive_eq p q
  type_eq (list s) (list t) = type_eq s t
  type_eq (set s) (set t) = type_eq s t
  type_eq (map s) (map t) = type_eq s t
  type_eq (tuple ss) (tuple ts) = items_eq ss ts
  type_eq (object fs) (object gs) = fields_eq fs gs
  type_eq _ _ = false

  pub items_eq : Items → Items → Bool
  items_eq nil nil = true
  items_eq (cons s ss) (cons t ts) = type_eq s t && items_eq ss ts
  items_eq _ _ = false

  pub fields_eq : Fields → Fields → Bool
  fields_eq end end = true
  fields_eq (field j s fs) (field k t gs) = (bytes_eq j k && type_eq s t) && fields_eq fs gs
  fields_eq _ _ = false

-- `for t in ts { acc = merge_types(&acc, t) }`.
unfoldable pub fold_items :
    (VariableType → VariableType → VariableType) → VariableType → Items → VariableType
fold_items merge acc nil = acc
fold_items merge acc (cons t ts) = fold_items merge (merge acc t) ts

unfoldable pub chain_items : Items → Items → Items
chain_items nil ys = ys
chain_items (cons x xs) ys = cons x (chain_items xs ys)

-- The fold from the first of all elements; there is one where the lengths differ.
unfoldable pub fold_all : (VariableType → VariableType → VariableType) → Items → VariableType
unfolding fold_items
fold_all merge nil = any
fold_all merge (cons t ts) = fold_items merge t ts

unfoldable pub zip_items : (VariableType → VariableType → VariableType) → Items → Items → Items
zip_items merge (cons x xs) (cons y ys) = cons (merge x y) (zip_items merge xs ys)
zip_items merge _ _ = nil

-- The set of the keys, in order.
abbrev insert_key_by : Ordering → Bytes → Bytes → List Bytes → List Bytes → List Bytes
insert_key_by Ordering.lt k j ks below = k ∷ j ∷ ks
insert_key_by Ordering.eq k j ks below = j ∷ ks
insert_key_by Ordering.gt k j ks below = j ∷ below

unfoldable pub insert_key : Bytes → List Bytes → List Bytes
unfolding cmp_list
insert_key k [] = k ∷ []
insert_key k (j ∷ ks) = insert_key_by (cmp_list compare k j) k j ks (insert_key k ks)

unfoldable pub insert_keys : Fields → List Bytes → List Bytes
unfolding insert_key
insert_keys end ks = ks
insert_keys (field k v fs) ks = insert_key k (insert_keys fs ks)

abbrev pub merged_val :
    (VariableType → VariableType → VariableType)
    → Option VariableType
    → Option VariableType
    → VariableType
merged_val merge (some vx) (some vy) = merge vx vy
merged_val merge (some vx) none = merge vx any
merged_val merge none (some vx) = merge vx any
merged_val merge none none = any

-- The loop over the keys, which inserts into `merged`.
unfoldable pub merge_keys :
    (VariableType → VariableType → VariableType) → Fields → Fields → List Bytes → Fields → Fields
unfolding get insert
merge_keys merge xs ys [] merged = merged
merge_keys merge xs ys (k ∷ ks) merged =
    merge_keys merge xs ys ks (insert k (merged_val merge (get k xs) (get k ys)) merged)

-- The `match` on both types.
unfoldable pub merge_pair :
    (VariableType → VariableType → VariableType) → VariableType → VariableType → VariableType
unfolding fold_items chain_items fold_all zip_items insert_keys merge_keys
merge_pair merge (list x) (list y) = list (merge x y)
merge_pair merge (set x) (set y) = set (merge x y)
merge_pair merge (map x) (map y) = map (merge x y)
merge_pair merge (tuple xs) (tuple ys) =
    if items_len xs == items_len ys
    then tuple (zip_items merge xs ys)
    else list (fold_all merge (chain_items xs ys))
merge_pair merge (list x) (tuple ys) = list (fold_items merge x ys)
merge_pair merge (tuple ys) (list x) = list (fold_items merge x ys)
merge_pair merge (set x) (tuple ys) = list (fold_items merge x ys)
merge_pair merge (tuple ys) (set x) = list (fold_items merge x ys)
merge_pair merge (object xs) (object ys) =
    object (merge_keys merge xs ys (insert_keys xs (insert_keys ys [])) end)
merge_pair merge _ _ = any

unfoldable pub merge_within : ℕ → VariableType → VariableType → VariableType
unfolding type_eq merge_pair
merge_within zero a b = any
merge_within (suc fuel) a b =
    if type_eq a b
    then a
    else if is_any a
    then b
    else if is_any b
    then a
    else merge_pair (merge_within fuel) a b

unfoldable mutual
  pub depth : VariableType → ℕ
  depth any = 0
  depth (primitive p) = 0
  depth (list t) = suc (depth t)
  depth (set t) = suc (depth t)
  depth (map t) = suc (depth t)
  depth (tuple ts) = suc (depth_items ts)
  depth (object fs) = suc (depth_fields fs)

  pub depth_items : Items → ℕ
  depth_items nil = 0
  depth_items (cons t ts) = max (depth t) (depth_items ts)

  pub depth_fields : Fields → ℕ
  depth_fields end = 0
  depth_fields (field k v fs) = max (depth v) (depth_fields fs)

unfoldable pub merge_types : VariableType → VariableType → VariableType
unfolding merge_within depth
merge_types a b = merge_within (suc (max (depth a) (depth b))) a b

unfoldable pub fold_observations : VariableType → List VariableType → VariableType
unfolding merge_types
fold_observations acc [] = acc
fold_observations acc (t ∷ ts) = fold_observations (merge_types acc t) ts

unfoldable pub merge_observations : List VariableType → Option VariableType
unfolding fold_observations
merge_observations [] = none
merge_observations (first ∷ iter) = some (fold_observations first iter)
