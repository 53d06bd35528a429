-- ===== src/Types/Conflict.antt =====
-- A conflict between observations, `merge_observations` of crates/tfls-core/src/variable_type.rs.
use terraform_ls_rs.Base.{false, some, List, ◌∷◌, ◌≡◌, refl, ap, ◌∙◌}
use terraform_ls_rs.Types.Shape.{
  Primitive, VariableType, any, primitive, list, set, map, tuple, object,
}
use terraform_ls_rs.Types.MergeTypes.{
  primitive_eq, type_eq, merge_pair, merge_within, depth, merge_types, fold_observations,
  merge_observations,
}

merge_types-primitive :
    (p q : Primitive) → primitive_eq p q ≡ false → merge_types (primitive p) (primitive q) ≡ any
unfolding merge_types depth
merge_types-primitive p q h = rw (merge_within, type_eq, h) (unfold merge_pair in refl)

merge_types-any : (c : VariableType) → merge_types any c ≡ c
unfolding merge_types merge_within
merge_types-any any = refl
merge_types-any (primitive p) = refl
merge_types-any (list t) = refl
merge_types-any (set t) = refl
merge_types-any (map t) = refl
merge_types-any (tuple ts) = refl
merge_types-any (object fs) = refl

-- After two different primitive types the merge is forgotten: the next observation alone is the
-- start of what follows, whatever it is.
pub merge_observations-conflict :
    (p q : Primitive) (c : VariableType) (obs : List VariableType)
    → primitive_eq p q ≡ false
    → merge_observations (primitive p ∷ primitive q ∷ c ∷ obs) ≡ merge_observations (c ∷ obs)
unfolding merge_observations fold_observations
merge_observations-conflict p q c obs h =
    ap (λ (a : VariableType). some (fold_observations (merge_types a c) obs))
      (merge_types-primitive p q h)
    ∙ ap (λ (a : VariableType). some (fold_observations a obs)) (merge_types-any c)
