-- ===== src/Keys/Distinct.antt =====
-- The loop over the keys of `map_duplicate_keys_diagnostics`,
-- crates/tfls-diag/src/map_duplicate_keys.rs.
use terraform_ls_rs.Base.{
  false, List, [], ◌∷◌, ◌≡◌, ◌↔◌, refl, Bytes, bytes_eq, any, All, Bool-cases, inl, inr, arith,
}
use terraform_ls_rs.Keys.Extract.{Key, duplicates}

-- No key has the name of one before it.
abbrev pub IsDistinct : List Key → Type 0
IsDistinct [] = Unit
IsDistinct (k ∷ keys) = All (λ (j : Key). bytes_eq j.name k.name ≡ false) keys × IsDistinct keys

-- None of the names was seen.
abbrev Unseen : List Bytes → List Key → Type 0
Unseen seen keys = All (λ (k : Key). any (bytes_eq k.name) seen ≡ false) keys

Unseen-cons :
    (name : Bytes) (seen : List Bytes) (keys : List Key)
    → Unseen (name ∷ seen) keys
      ↔ (All (λ (j : Key). bytes_eq j.name name ≡ false) keys × Unseen seen keys)
Unseen-cons name seen [] = (λ h. (tt, tt), λ h. tt)
Unseen-cons name seen (k ∷ keys) = (
  λ h. let (a, b) = (Unseen-cons name seen keys).0 h.1 in ((ground arith, a), (ground arith, b)),
  λ h. (ground arith, (Unseen-cons name seen keys).1 (h.0.1, h.1.1)),
)

Unseen-nil : (keys : List Key) → Unseen [] keys
Unseen-nil [] = tt
Unseen-nil (k ∷ keys) = (refl, Unseen-nil keys)

duplicates_iff :
    (seen : List Bytes) (keys : List Key)
    → (duplicates seen keys ≡ []) ↔ (Unseen seen keys × IsDistinct keys)
unfolding duplicates
duplicates_iff seen [] = (λ h. (tt, tt), λ h. refl)
duplicates_iff seen (k ∷ keys) = elim (Bool-cases (any (bytes_eq k.name) seen)) [
  | inl old ↦ rw old (λ h. absurd (ground arith), λ h. absurd (ground arith))
  | inr new ↦ rw new (
    λ h.
        let (unseen, distinct) = (duplicates_iff (k.name ∷ seen) keys).0 h in
        let (other, fresh) = (Unseen-cons k.name seen keys).0 unseen in
        ((refl, fresh), (other, distinct)),
    λ h.
        (duplicates_iff (k.name ∷ seen) keys).1
          ((Unseen-cons k.name seen keys).1 (h.1.0, h.0.1), h.1.1),
  )
]

-- Nothing is reported exactly when no key has the name of one before it.
pub duplicates-nil_iff : (keys : List Key) → (duplicates [] keys ≡ []) ↔ IsDistinct keys
duplicates-nil_iff keys =
    (λ h. ((duplicates_iff [] keys).0 h).1, λ h. (duplicates_iff [] keys).1 (Unseen-nil keys, h))
