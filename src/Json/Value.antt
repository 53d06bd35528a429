-- ===== src/Json/Value.antt =====
-- `serde_json::Value`, as crates/tfls-parser/src/json.rs uses it.
use terraform_ls_rs.Base.{Bool, true, false, ◌&&◌, Bytes}

-- A number is the text that serde_json prints for it; `Elements` and `Members` are the contents of
-- an array and of an object, in the order of their iteration.
mutual
  pub data Value : Type 0 where
    null : Value
    bool : Bool → Value
    number : Bytes → Value
    string : Bytes → Value
    array : Elements → Value
    object : Members → Value

  pub data Elements : Type 0 where
    end_array : Elements
    element : Value → Elements → Elements

  pub data Members : Type 0 where
    end_object : Members
    member : Bytes → Value → Members → Members

abbrev pub is_object : Value → Bool
is_object (object members) = true
is_object _ = false

abbrev pub all_objects : Elements → Bool
all_objects end_array = true
all_objects (element v elements) = is_object v && all_objects elements
