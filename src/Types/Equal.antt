-- ===== src/Types/Equal.antt =====
-- The derived equality of `VariableType`, crates/tfls-core/src/variable_type.rs, is equality.
use terraform_ls_rs.Base.{true, ◌&&◌, ◌≡◌, refl, ap, ap₂, ◌∙◌, Bytes, bytes_eq, &&_iff, arith}
use terraform_ls_rs.Base.Scan.{bytes_eq_iff}
use terraform_ls_rs.Types.Shape.{
  Primitive, VariableType, any, primitive, list, set, map, tuple, object, Items, nil, cons, Fields,
  end, field,
}
use terraform_ls_rs.Types.MergeTypes.{primitive_eq, type_eq, items_eq, fields_eq}

primitive_eq-eq : (p q : Primitive) → primitive_eq p q ≡ true → p ≡ q
unfolding primitive_eq
primitive_eq-eq p q h = ground arith

mutual
  unfolding type_eq

  eq_of_type_eq : (s t : VariableType) → type_eq s t ≡ true → s ≡ t
  eq_of_type_eq any any h = refl
  eq_of_type_eq (primitive p) (primitive q) h = ap primitive (primitive_eq-eq p q h)
  eq_of_type_eq (list s) (list t) h = ap list (eq_of_type_eq s t h)
  eq_of_type_eq (set s) (set t) h = ap set (eq_of_type_eq s t h)
  eq_of_type_eq (map s) (map t) h = ap map (eq_of_type_eq s t h)
  eq_of_type_eq (tuple ss) (tuple ts) h = ap tuple (eq_of_items_eq ss ts h)
  eq_of_type_eq (object fs) (object gs) h = ap object (eq_of_fields_eq fs gs h)
  eq_of_type_eq _ _ h = cc

  eq_of_items_eq : (ss ts : Items) → items_eq ss ts ≡ true → ss ≡ ts
  eq_of_items_eq nil nil h = refl
  eq_of_items_eq (cons s ss) (cons t ts) h =
      ap₂ (λ (u : VariableType) (us : Items). cons u us)
        (eq_of_type_eq s t ((&&_iff (type_eq s t) (items_eq ss ts)).0 h).0)
        (eq_of_items_eq ss ts ((&&_iff (type_eq s t) (items_eq ss ts)).0 h).1)
  eq_of_items_eq _ _ h = cc

  eq_of_fields_eq : (fs gs : Fields) → fields_eq fs gs ≡ true → fs ≡ gs
  eq_of_fields_eq end end h = refl
  eq_of_fields_eq (field j s fs) (field k t gs) h =
      let (front, back) = (&&_iff (bytes_eq j k && type_eq s t) (fields_eq fs gs)).0 h in
      let (key, value) = (&&_iff (bytes_eq j k) (type_eq s t)).0 front in
      ap (λ (i : Bytes). field i s fs) ((bytes_eq_iff j k).0 key)
      ∙ ap₂ (λ (u : VariableType) (us : Fields). field k u us) (eq_of_type_eq s t value)
          (eq_of_fields_eq fs gs back)
  eq_of_fields_eq _ _ h = cc

mutual
  unfolding type_eq primitive_eq

  type_eq_self : (t : VariableType) → type_eq t t ≡ true
  type_eq_self any = refl
  type_eq_self (primitive p) = ground arith
  type_eq_self (list t) = type_eq_self t
  type_eq_self (set t) = type_eq_self t
  type_eq_self (map t) = type_eq_self t
  type_eq_self (tuple ts) = items_eq_self ts
  type_eq_self (object fs) = fields_eq_self fs

  items_eq_self : (ts : Items) → items_eq ts ts ≡ true
  items_eq_self nil = refl
  items_eq_self (cons t ts) = ground (arith, type_eq_self t, items_eq_self ts)

  fields_eq_self : (fs : Fields) → fields_eq fs fs ≡ true
  fields_eq_self end = refl
  fields_eq_self (field k t fs) =
      ground (arith, bytes_eq_iff k k, type_eq_self t, fields_eq_self fs)

pub type_eq-eq : (s t : VariableType) → type_eq s t ≡ true → s ≡ t
type_eq-eq s t h = eq_of_type_eq s t h

pub type_eq_refl : (t : VariableType) → type_eq t t ≡ true
type_eq_refl t = type_eq_self t
