-- ===== src/Document/Versions.antt =====
-- The versions of a document under `apply_versioned_changes`, crates/tfls-state/src/document.rs.
use terraform_ls_rs.Base.{
  true, false, none, [], ◌∷◌, ◌≡◌, ◌≢◌, refl, sym, ap, ◌∙◌, Bytes, Bool-cases, inl, inr, arith,
}
use terraform_ls_rs.Base.Int.{ℤ, leb_ℤ}
use terraform_ls_rs.Document.Rope.{Ropey}
use terraform_ls_rs.Document.State.{
  Frontend, DocumentState, apply_change, apply_changes, apply_versioned_changes,
}

leb_ℤ_total : (v w : ℤ) → v ≢ w → leb_ℤ v w ≡ false → leb_ℤ w v ≡ true
leb_ℤ_total v w h e = ground arith

leb_ℤ_refl : (v : ℤ) → leb_ℤ v v ≡ true
leb_ℤ_refl v = ground arith

leb_ℤ_trans : (u v w : ℤ) → leb_ℤ u v ≡ true → leb_ℤ v w ≡ true → leb_ℤ u w ≡ true
leb_ℤ_trans u v w h k = ground arith

leb_ℤ_antisym : (v w : ℤ) → leb_ℤ v w ≡ true → leb_ℤ w v ≡ true → v ≡ w
leb_ℤ_antisym v w h k = ground arith

module _ {Rope Parsed : Type 0} (ropey : Ropey Rope) (frontend : Frontend Rope Parsed) where
  -- The document after a batch that is the whole text of a version.
  abbrev pub with_text : ℤ → Bytes → DocumentState Rope Parsed → DocumentState Rope Parsed
  with_text version text doc =
      (apply_versioned_changes ropey frontend doc version
        (record { range = none; text = text } ∷ [])).0

  abbrev at_version : ℤ → Bytes → DocumentState Rope Parsed → DocumentState Rope Parsed
  at_version version text doc = record doc {
    rope = ropey.from_str text;
    format_cache = none;
    version = version;
  }

  with_text_stale :
      (version : ℤ) (text : Bytes) (doc : DocumentState Rope Parsed)
      → leb_ℤ version doc.version ≡ true
      → with_text version text doc ≡ doc
  unfolding apply_versioned_changes
  with_text_stale version text doc h = rw (h, with_text) refl

  with_text_newer :
      (version : ℤ) (text : Bytes) (doc : DocumentState Rope Parsed)
      → leb_ℤ version doc.version ≡ false
      → with_text version text doc ≡ at_version version text doc
  unfolding apply_versioned_changes apply_changes apply_change
  with_text_newer version text doc h = rw (h, with_text) refl

  -- The higher version wins when it comes first, and when it comes last.
  higher_wins :
      (v w : ℤ) (s t : Bytes) (doc : DocumentState Rope Parsed)
      → leb_ℤ w v ≡ false
      → leb_ℤ w doc.version ≡ false
      → with_text v s (with_text w t doc) ≡ with_text w t (with_text v s doc)
  higher_wins v w s t doc above newer =
      let below = leb_ℤ_total w v (λ e. ground (arith, leb_ℤ_refl v)) above in
      ap (with_text v s) (with_text_newer w t doc newer)
      ∙ with_text_stale v s (at_version w t doc) below
      ∙ sym (elim (Bool-cases (leb_ℤ v doc.version)) [
        | inl stale ↦
            ap (with_text w t) (with_text_stale v s doc stale) ∙ with_text_newer w t doc newer
        | inr also ↦
            ap (with_text w t) (with_text_newer v s doc also)
            ∙ with_text_newer w t (at_version v s doc) above
      ])

  -- Two batches that are each the whole text of a version, of two versions, leave the same document
  -- in either order of their arrival.
  pub apply_versioned_changes_comm :
      (v w : ℤ) (s t : Bytes) (doc : DocumentState Rope Parsed)
      → v ≢ w
      → with_text v s (with_text w t doc) ≡ with_text w t (with_text v s doc)
  apply_versioned_changes_comm v w s t doc ne = elim (Bool-cases (leb_ℤ w doc.version)) [
    | inl stale ↦ elim (Bool-cases (leb_ℤ v doc.version)) [
      | inl also ↦
          ap (with_text v s) (with_text_stale w t doc stale)
          ∙ with_text_stale v s doc also
          ∙ sym (ap (with_text w t) (with_text_stale v s doc also) ∙ with_text_stale w t doc stale)
      | inr newer ↦
          sym (higher_wins w v t s doc (ground (arith, leb_ℤ_trans v w doc.version)) newer)
    ]
    | inr newer ↦ elim (Bool-cases (leb_ℤ w v)) [
      | inr above ↦ higher_wins v w s t doc above newer
      | inl below ↦ sym (
          higher_wins w v t s doc
            (ground (arith, λ (k : leb_ℤ v w ≡ true). ne (leb_ℤ_antisym v w k below)))
            (ground (arith, leb_ℤ_trans w v doc.version)))
    ]
  ]
