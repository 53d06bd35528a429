-- ===== src/Types/Reflexive.antt =====
-- Maps with ascending keys, and `satisfies` of crates/tfls-core/src/variable_type.rs on a type and
-- itself.
use Prim.Native.Nat.{compare}
use terraform_ls_rs.Base.{
  true, false, some, ◌≡◌, refl, Ordering, Bytes, bytes_eq, Bool-cases, inl, inr, arith,
}
use terraform_ls_rs.Base.Scan.{bytes_eq_iff}
use terraform_ls_rs.Base.Order.{cmp_list, cmp_list-IsTotalOrder, compare-IsTotalOrder}
use terraform_ls_rs.Types.Shape.{
  VariableType, any, primitive, list, set, map, tuple, object, Items, nil, cons, Fields, end, field,
  get, contains_key,
}
use terraform_ls_rs.Types.Satisfy.{
  satisfies, satisfies_items, satisfies_fields, primitives_compatible, all_known,
}

abbrev pub AllKeys : (Bytes → Type 0) → Fields → Type 0
AllKeys P end = Unit
AllKeys P (field k v fs) = P k × AllKeys P fs

-- The invariant of a `BTreeMap`.
abbrev pub Ascending : Fields → Type 0
Ascending end = Unit
Ascending (field k v fs) = AllKeys (λ j. cmp_list compare k j ≡ Ordering.lt) fs × Ascending fs

-- Ascending keys in every object inside a type.
abbrev mutual
  pub IsMapped : VariableType → Type 0
  IsMapped any = Unit
  IsMapped (primitive p) = Unit
  IsMapped (list t) = IsMapped t
  IsMapped (set t) = IsMapped t
  IsMapped (map t) = IsMapped t
  IsMapped (tuple ts) = IsMappedItems ts
  IsMapped (object fs) = Ascending fs × IsMappedFields fs

  pub IsMappedItems : Items → Type 0
  IsMappedItems nil = Unit
  IsMappedItems (cons t ts) = IsMapped t × IsMappedItems ts

  pub IsMappedFields : Fields → Type 0
  IsMappedFields end = Unit
  IsMappedFields (field k v fs) = IsMapped v × IsMappedFields fs

pub lt-ne : (k j : Bytes) → cmp_list compare k j ≡ Ordering.lt → bytes_eq j k ≡ false
lt-ne k j h = elim (Bool-cases (bytes_eq j k)) [
  | inr other ↦ other
  | inl same ↦ absurd (
      ground
        (arith, (bytes_eq_iff j k).0 same, (cmp_list-IsTotalOrder compare-IsTotalOrder).same k))
]

-- Each field is found under its key.
abbrev Found : Fields → Fields → Type 0
Found end whole = Unit
Found (field k v fs) whole = (get k whole ≡ some v) × Found fs whole

Found-skip :
    (fs : Fields) (j : Bytes) (w : VariableType) (whole : Fields)
    → AllKeys (λ k. cmp_list compare j k ≡ Ordering.lt) fs
    → Found fs whole
    → Found fs (field j w whole)
unfolding get
Found-skip end j w whole above h = tt
Found-skip (field k v fs) j w whole above h =
    (rw (lt-ne j k above.0) h.0, Found-skip fs j w whole above.1 h.1)

pub Found-self : (fs : Fields) → Ascending fs → Found fs fs
unfolding get
Found-self end h = tt
Found-self (field k v fs) h =
    (rw ((bytes_eq_iff k k).1 refl), Found-skip fs k v fs h.0 (Found-self fs h.1))

key_there : (k : Bytes) (v : VariableType) (m : Fields) → get k m ≡ some v → contains_key k m ≡ true
unfolding get contains_key
key_there k v end e = absurd (cc)
key_there k v (field j w m) e = ground (arith, key_there k v m)

known_self : (fs whole : Fields) → Found fs whole → all_known whole fs ≡ true
unfolding all_known
known_self end whole h = refl
known_self (field k v fs) whole h = ground (arith, key_there k v whole h.0, known_self fs whole h.1)

mutual
  unfolding satisfies primitives_compatible

  self : (t : VariableType) → IsMapped t → satisfies t t ≡ true
  self any h = refl
  self (primitive p) h = ground arith
  self (list t) h = refl
  self (set t) h = refl
  self (map t) h = refl
  self (tuple ts) h = ground (arith, self_items ts h)
  self (object fs) h =
      ground
        (arith, known_self fs fs (Found-self fs h.0), self_fields fs fs (Found-self fs h.0) h.1)

  self_items : (ts : Items) → IsMappedItems ts → satisfies_items ts ts ≡ true
  self_items nil h = refl
  self_items (cons t ts) h = ground (arith, self t h.0, self_items ts h.1)

  self_fields :
      (fs whole : Fields) → Found fs whole → IsMappedFields fs → satisfies_fields fs whole ≡ true
  self_fields end whole f h = refl
  self_fields (field k v fs) whole f h =
      ground (arith, f.0, self v h.0, self_fields fs whole f.1 h.1)

-- A type whose objects have ascending keys satisfies itself.
pub satisfies_self : (t : VariableType) → IsMapped t → satisfies t t ≡ true
satisfies_self t h = self t h
