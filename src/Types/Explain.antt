-- ===== src/Types/Explain.antt =====
-- `explain_mismatch` of crates/tfls-core/src/variable_type.rs.
use mathlib.Core.List.{map}
use terraform_ls_rs.Base.{
  not, ◌&&◌, Option, none, some, List, [], ◌∷◌, ◌++◌, ◌==◌, if◌then◌else◌, Bytes, codes, length,
  is_empty,
}
use terraform_ls_rs.Types.Shape.{
  VariableType, object, Fields, end, field, is_any, get, contains_key, display,
}
use terraform_ls_rs.Types.Satisfy.{satisfies}

-- `join(sep)`.
unfoldable pub join : Bytes → List Bytes → Bytes
join sep [] = []
join sep (p ∷ []) = p
join sep (p ∷ q ∷ ps) = p ++ (sep ++ join sep (q ∷ ps))

abbrev quoted : Bytes → Bytes
quoted k = codes "`" ++ (k ++ codes "`")

-- The keys of the actual value that are not declared.
unfoldable pub extras : Fields → Fields → List Bytes
extras decl end = []
extras decl (field k v act) =
    if not (contains_key k decl) then k ∷ extras decl act else extras decl act

-- The declared keys that must be present and are not.
unfoldable pub missing : Fields → Fields → List Bytes
missing end act = []
missing (field k d_ty decl) act =
    if not (contains_key k act) && not (is_any d_ty) then k ∷ missing decl act else missing decl act

unfoldable pub wrong_text : Bytes → VariableType → VariableType → Bytes
unfolding display
wrong_text k d_ty a_ty =
    quoted k
    ++ (codes " expected `" ++ (display d_ty ++ (codes "`, got `" ++ (display a_ty ++ codes "`"))))

abbrev pub wrong_field : Bytes → VariableType → Option VariableType → List Bytes → List Bytes
wrong_field k d_ty none rest = rest
wrong_field k d_ty (some a_ty) rest =
    if not (satisfies d_ty a_ty) then wrong_text k d_ty a_ty ∷ rest else rest

-- The texts for the declared fields that are present with another type.
unfoldable pub wrong : Fields → Fields → List Bytes
wrong end act = []
wrong (field k d_ty decl) act = wrong_field k d_ty (get k act) (wrong decl act)

abbrev plural : List Bytes → Bytes
plural ks = if length ks == 1 then [] else codes "s"

unfoldable pub names : Bytes → List Bytes → Bytes
unfolding join
names what ks = what ++ (plural ks ++ (codes ": " ++ join (codes ", ") (map quoted ks)))

-- A part for the fields listed, if there are any.
unfoldable pub part : Bytes → List Bytes → List Bytes → List Bytes
unfolding names
part what ks rest = if is_empty ks then rest else names what ks ∷ rest

unfoldable pub explain_objects : Fields → Fields → Bytes
unfolding join extras missing wrong part
explain_objects decl act = join (codes "; ") (
    part (codes "unknown field") (extras decl act)
      (part (codes "missing field") (missing decl act) (wrong decl act)))

unfoldable pub explain_types : VariableType → VariableType → Bytes
unfolding display
explain_types declared actual =
    codes "expected `" ++ (display declared ++ (codes "`, got `" ++ (display actual ++ codes "`")))

-- The `match` of `explain_mismatch`.
unfoldable pub explain_case : VariableType → VariableType → Bytes
unfolding explain_objects explain_types
explain_case (object decl) (object act) = explain_objects decl act
explain_case declared actual = explain_types declared actual

unfoldable pub explain_mismatch : VariableType → VariableType → Bytes
explain_mismatch declared actual =
    if satisfies declared actual then [] else explain_case declared actual
