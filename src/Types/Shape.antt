-- ===== src/Types/Shape.antt =====
-- `VariableType` of crates/tfls-core/src/variable_type.rs, and how it is displayed. A `BTreeMap` is
-- the list of its entries in the order of the keys.
use Prim.Native.Nat.{compare}
use terraform_ls_rs.Base.{
  ℕ, suc, Bool, true, false, ◌||◌, Option, none, some, [], ◌++◌, Ordering, if◌then◌else◌, Bytes,
  codes, bytes_eq,
}
use terraform_ls_rs.Base.Order.{cmp_list}

pub data Primitive : Type 0 where
  string number bool : Primitive

mutual
  pub data VariableType : Type 0 where
    any : VariableType
    primitive : Primitive → VariableType
    list : VariableType → VariableType
    set : VariableType → VariableType
    map : VariableType → VariableType
    tuple : Items → VariableType
    object : Fields → VariableType

  -- `Vec<VariableType>`.
  pub data Items : Type 0 where
    nil : Items
    cons : VariableType → Items → Items

  -- `BTreeMap<String, VariableType>`.
  pub data Fields : Type 0 where
    end : Fields
    field : Bytes → VariableType → Fields → Fields

abbrev pub is_any : VariableType → Bool
is_any any = true
is_any _ = false

unfoldable pub items_len : Items → ℕ
items_len nil = 0
items_len (cons t ts) = suc (items_len ts)

-- `BTreeMap::get`, `contains_key` and `insert`.
unfoldable pub get : Bytes → Fields → Option VariableType
unfolding bytes_eq
get k end = none
get k (field j v fs) = if bytes_eq k j then some v else get k fs

unfoldable pub contains_key : Bytes → Fields → Bool
unfolding bytes_eq
contains_key k end = false
contains_key k (field j v fs) = bytes_eq k j || contains_key k fs

abbrev insert_by : Ordering → Bytes → VariableType → Bytes → VariableType → Fields → Fields → Fields
insert_by Ordering.lt k v j w fs below = field k v (field j w fs)
insert_by Ordering.eq k v j w fs below = field k v fs
insert_by Ordering.gt k v j w fs below = field j w below

unfoldable pub insert : Bytes → VariableType → Fields → Fields
unfolding cmp_list
insert k v end = field k v end
insert k v (field j w fs) = insert_by (cmp_list compare k j) k v j w fs (insert k v fs)

unfoldable pub display_primitive : Primitive → Bytes
display_primitive string = codes "string"
display_primitive number = codes "number"
display_primitive bool = codes "bool"

-- `Display`. The rest of a sequence writes `, ` before each element.
unfoldable mutual
  unfolding display_primitive

  pub display : VariableType → Bytes
  display any = codes "any"
  display (primitive p) = display_primitive p
  display (list inner) = codes "list(" ++ (display inner ++ codes ")")
  display (set inner) = codes "set(" ++ (display inner ++ codes ")")
  display (map inner) = codes "map(" ++ (display inner ++ codes ")")
  display (tuple items) = codes "tuple([" ++ (display_items items ++ codes "])")
  display (object fields) = codes "object({ " ++ (display_fields fields ++ codes " })")

  pub display_items : Items → Bytes
  display_items nil = []
  display_items (cons t ts) = display t ++ display_more ts

  pub display_more : Items → Bytes
  display_more nil = []
  display_more (cons t ts) = codes ", " ++ (display t ++ display_more ts)

  pub display_fields : Fields → Bytes
  display_fields end = []
  display_fields (field k v fs) = k ++ (codes " = " ++ (display v ++ display_rest fs))

  pub display_rest : Fields → Bytes
  display_rest end = []
  display_rest (field k v fs) = codes ", " ++ (k ++ (codes " = " ++ (display v ++ display_rest fs)))
