-- ===== src/Types/Explained.antt =====
-- `explain_mismatch` against `satisfies`, crates/tfls-core/src/variable_type.rs.
use terraform_ls_rs.Base.{
  true, false, Option, none, some, List, [], ◌∷◌, ◌++◌, ◌≡◌, ◌≢◌, ◌↔◌, refl, Bytes, codes,
  Bool-cases, inl, inr, arith,
}
use terraform_ls_rs.Types.Shape.{VariableType, object, Fields, end, field, get, contains_key}
use terraform_ls_rs.Types.Satisfy.{
  satisfies, satisfies_fields, field_accepts, all_known, object_accepts,
}
use terraform_ls_rs.Types.Explain.{
  join, extras, missing, wrong_text, wrong_field, wrong, names, part, explain_objects,
  explain_types, explain_case, explain_mismatch,
}

contains_key-get : (k : Bytes) (fs : Fields) → (contains_key k fs ≡ false) ↔ (get k fs ≡ none)
unfolding contains_key get
contains_key-get k end = ground arith
contains_key-get k (field j v fs) = ground (arith, contains_key-get k fs)

extras-nil : (decl act : Fields) → extras decl act ≡ [] → all_known decl act ≡ true
unfolding extras all_known
extras-nil decl end h = refl
extras-nil decl (field k v act) h = ground (arith, extras-nil decl act)

-- With nothing missing and nothing wrong every declared field is accepted.
fields_fine :
    (decl act : Fields)
    → missing decl act ≡ []
    → wrong decl act ≡ []
    → satisfies_fields decl act ≡ true
unfolding missing wrong satisfies field_accepts
fields_fine end act h k = refl
fields_fine (field k d decl) act h w = ground (arith, fields_fine decl act, contains_key-get k act)

-- A list of texts that, if it has a first one, has a non-empty first one.
abbrev Solid : List Bytes → Type 0
Solid [] = Unit
Solid (p ∷ ps) = p ≢ []

append-ne_nil : (p q : Bytes) → p ≢ [] → p ++ q ≢ []
append-ne_nil [] q h e = h refl
append-ne_nil (b ∷ p) q h e = cc

join-nil : (sep : Bytes) (ps : List Bytes) → Solid ps → join sep ps ≡ [] → ps ≡ []
unfolding join
join-nil sep [] h e = refl
join-nil sep (p ∷ []) h e = absurd (h e)
join-nil sep (p ∷ q ∷ ps) h e = absurd (append-ne_nil p (sep ++ join sep (q ∷ ps)) h e)

wrong_text-ne_nil : (k : Bytes) (d a : VariableType) → wrong_text k d a ≢ []
unfolding wrong_text
wrong_text-ne_nil k d a e = cc

wrong_field-Solid :
    (k : Bytes) (d : VariableType) (o : Option VariableType) (rest : List Bytes)
    → Solid rest
    → Solid (wrong_field k d o rest)
wrong_field-Solid k d none rest h = h
wrong_field-Solid k d (some a) rest h = elim (Bool-cases (satisfies d a)) [
  | inl good ↦ rw good h
  | inr bad ↦ rw bad (wrong_text-ne_nil k d a)
]

wrong-Solid : (decl act : Fields) → Solid (wrong decl act)
unfolding wrong
wrong-Solid end act = tt
wrong-Solid (field k d decl) act =
    wrong_field-Solid k d (get k act) (wrong decl act) (wrong-Solid decl act)

part-Solid :
    (what : Bytes) (ks rest : List Bytes) → what ≢ [] → Solid rest → Solid (part what ks rest)
unfolding part names
part-Solid what [] rest h s = s
part-Solid what (k ∷ ks) rest h s = append-ne_nil what _ h

part-nil : (what : Bytes) (ks rest : List Bytes) → part what ks rest ≡ [] → (ks ≡ []) × (rest ≡ [])
unfolding part
part-nil what [] rest e = (refl, e)
part-nil what (k ∷ ks) rest e = absurd (cc)

explain_objects-nil :
    (decl act : Fields)
    → explain_objects decl act ≡ []
    → (extras decl act ≡ []) × (missing decl act ≡ []) × (wrong decl act ≡ [])
unfolding explain_objects
explain_objects-nil decl act e =
    let unknown : Bytes = codes "unknown field" in
    let absent : Bytes = codes "missing field" in
    let rest = part absent (missing decl act) (wrong decl act) in
    let empty =
      join-nil (codes "; ") (part unknown (extras decl act) rest)
        (part-Solid unknown (extras decl act) rest (λ h. cc)
          (part-Solid absent (missing decl act) (wrong decl act) (λ h. cc) (wrong-Solid decl act)))
        e in
    let (no_extras, others) = part-nil unknown (extras decl act) rest empty in
    let (no_missing, no_wrong) = part-nil absent (missing decl act) (wrong decl act) others in
    (no_extras, no_missing, no_wrong)

explain_types-ne_nil : (d a : VariableType) → explain_types d a ≢ []
unfolding explain_types
explain_types-ne_nil d a e = cc

objects_fine :
    (decl act : Fields)
    → explain_objects decl act ≡ []
    → satisfies (object decl) (object act) ≡ true
unfolding satisfies object_accepts
objects_fine decl act e =
    let (no_extras, no_missing, no_wrong) = explain_objects-nil decl act e in
    ground (arith, extras-nil decl act no_extras, fields_fine decl act no_missing no_wrong)

case_fine : (d a : VariableType) → explain_case d a ≡ [] → satisfies d a ≡ true
unfolding explain_case
case_fine (object decl) (object act) e = objects_fine decl act e
case_fine d a e = absurd (explain_types-ne_nil d a e)

-- `explain_mismatch` is empty exactly if the value's type satisfies the declared one: every
-- mismatch is explained by a text, and nothing else is.
pub explain_mismatch-nil_iff :
    (declared actual : VariableType)
    → (explain_mismatch declared actual ≡ []) ↔ (satisfies declared actual ≡ true)
unfolding explain_mismatch
explain_mismatch-nil_iff declared actual = elim (Bool-cases (satisfies declared actual)) [
  | inl good ↦ rw good ((λ e. refl), (λ e. refl))
  | inr bad ↦ (λ e. case_fine declared actual (rw bad at e), λ good. absurd (cc (bad, good)))
]
