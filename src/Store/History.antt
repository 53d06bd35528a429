-- ===== src/Store/History.antt =====
-- Histories of calls of the mutators of crates/tfls-state/src/store.rs.
use terraform_ls_rs.Base.{
  Option, List, [], ◌∷◌, ◌≡◌, refl, sym, subst, ◌∙◌, Result, ok, err, Bytes, Bool-cases, inl, inr,
}
use terraform_ls_rs.Base.Int.{ℤ, leb_ℤ}
use terraform_ls_rs.Symbols.{SymbolTable, Reference}
use terraform_ls_rs.Document.Rope.{Ropey}
use terraform_ls_rs.Document.State.{
  Frontend, DocumentState, TextDocumentContentChangeEvent, ChangeFailure, EditFailure,
  out_of_bounds, reversed_range, edited, with_rope, apply_change, then_changes, apply_changes,
  advanced, apply_versioned_changes, reparse,
}
use terraform_ls_rs.Store.Entries.{definition_entries, reference_entries, AllIn}
use terraform_ls_rs.Store.State.{
  StateStore, upsert_document, upsert_document_unless_open, remove_document, reparse_document,
  apply_and_reparse_document, mark_open, mark_closed,
}
use terraform_ls_rs.Store.Consistent.{IsLocated}

module _ {Rope Parsed : Type 0} (ropey : Ropey Rope) (frontend : Frontend Rope Parsed) where
  -- What the analysis finds in a file lies in this file.
  abbrev pub Locates : Type 0
  Locates =
      (parsed : Parsed) (uri : Bytes) (rope : Rope)
      → AllIn uri (definition_entries (frontend.compute_analysis parsed uri rope).0)
        × AllIn uri (reference_entries (frontend.compute_analysis parsed uri rope).1)

  -- The URL and what was found are as before.
  pub record Kept (doc doc' : DocumentState Rope Parsed) : Type 0 where
    pub uri : doc'.uri ≡ doc.uri
    pub symbols : doc'.symbols ≡ doc.symbols
    pub references : doc'.references ≡ doc.references

  Kept-with_rope :
      (doc : DocumentState Rope Parsed) (r : Result Rope EditFailure)
      → Kept doc (with_rope ropey frontend doc r).0
  Kept-with_rope doc (err (out_of_bounds source)) = record {
    uri = refl;
    symbols = refl;
    references = refl;
  }
  Kept-with_rope doc (err reversed_range) = record { uri = refl; symbols = refl; references = refl }
  Kept-with_rope doc (ok rope) = record { uri = refl; symbols = refl; references = refl }

  Kept-then_changes :
      (doc : DocumentState Rope Parsed)
      (r : DocumentState Rope Parsed × Result (Unit {0}) ChangeFailure)
      (rest : DocumentState Rope Parsed
        → DocumentState Rope Parsed × Result (Unit {0}) ChangeFailure)
      → Kept doc r.0
      → ((d : DocumentState Rope Parsed) → Kept d (rest d).0)
      → Kept doc (then_changes ropey frontend r rest).0
  Kept-then_changes doc (doc', err e) rest k h = k
  Kept-then_changes doc (doc', ok _) rest k h = record {
    uri = (h doc').uri ∙ k.uri;
    symbols = (h doc').symbols ∙ k.symbols;
    references = (h doc').references ∙ k.references;
  }

  Kept-apply_changes :
      (changes : List TextDocumentContentChangeEvent) (doc : DocumentState Rope Parsed)
      → Kept doc (apply_changes ropey frontend changes doc).0
  unfolding apply_changes apply_change
  Kept-apply_changes [] doc = record { uri = refl; symbols = refl; references = refl }
  Kept-apply_changes (change ∷ changes) doc =
      Kept-then_changes doc (apply_change ropey frontend doc change)
        (apply_changes ropey frontend changes)
        (Kept-with_rope doc (edited ropey frontend doc.rope change.text change.range))
        (Kept-apply_changes changes)

  Kept-advanced :
      (version : ℤ) (doc : DocumentState Rope Parsed)
      (r : DocumentState Rope Parsed × Result (Unit {0}) ChangeFailure)
      → Kept doc r.0
      → Kept doc (advanced ropey frontend version r).0
  Kept-advanced version doc (doc', err e) k = k
  Kept-advanced version doc (doc', ok _) k = record {
    uri = k.uri;
    symbols = k.symbols;
    references = k.references;
  }

  pub Kept-apply_versioned_changes :
      (doc : DocumentState Rope Parsed) (version : ℤ)
      (changes : List TextDocumentContentChangeEvent)
      → Kept doc (apply_versioned_changes ropey frontend doc version changes).0
  unfolding apply_versioned_changes
  Kept-apply_versioned_changes doc version changes = elim (Bool-cases (leb_ℤ version doc.version)) [
    | inl stale ↦ rw stale (record { uri = refl; symbols = refl; references = refl })
    | inr newer ↦ rw newer (
        Kept-advanced version doc (apply_changes ropey frontend changes doc)
          (Kept-apply_changes changes doc))
  ]

  pub Kept-IsLocated :
      (uri : Bytes) (doc doc' : DocumentState Rope Parsed)
      → Kept doc doc'
      → IsLocated uri doc
      → IsLocated uri doc'
  Kept-IsLocated uri doc doc' k own = record {
    keyed = k.uri ∙ own.keyed;
    definitions_in =
        subst (λ (t : SymbolTable). AllIn uri (definition_entries t)) (sym k.symbols)
          own.definitions_in;
    references_in =
        subst (λ (t : List Reference). AllIn uri (reference_entries t)) (sym k.references)
          own.references_in;
  }

  pub reparse-IsLocated :
      (uri : Bytes) (doc : DocumentState Rope Parsed)
      → Locates
      → IsLocated uri doc
      → IsLocated uri (reparse ropey frontend doc)
  unfolding reparse
  reparse-IsLocated uri doc locates own =
      let parsed = frontend.parse_source (ropey.to_string doc.rope) doc.uri in
      let found =
        subst
          (λ (u : Bytes).
            AllIn u (definition_entries (frontend.compute_analysis parsed doc.uri doc.rope).0)
            × AllIn u (reference_entries (frontend.compute_analysis parsed doc.uri doc.rope).1))
          own.keyed (locates parsed doc.uri doc.rope) in
      elim (Bool-cases (frontend.has_body parsed)) [
        | inl body ↦
            rw body
              (record { keyed = own.keyed; definitions_in = found.0; references_in = found.1 })
        | inr no_body ↦ rw no_body (record {
          keyed = own.keyed;
          definitions_in = own.definitions_in;
          references_in = own.references_in;
        })
      ]

  -- One call of a mutator. Its documents are located, and its changes are applied without an error.
  pub data Step : StateStore Rope Parsed → StateStore Rope Parsed → Type 0 where
    opens : (s : StateStore Rope Parsed) (uri : Bytes) → Step s (mark_open uri s)
    closes : (s : StateStore Rope Parsed) (uri : Bytes) → Step s (mark_closed uri s)
    upserts :
        (s : StateStore Rope Parsed) (doc : DocumentState Rope Parsed)
        → IsLocated doc.uri doc
        → Step s (upsert_document doc s)
    upserts_unless_open :
        (s : StateStore Rope Parsed) (doc : DocumentState Rope Parsed)
        → IsLocated doc.uri doc
        → Step s (upsert_document_unless_open doc s).0
    removes : (s : StateStore Rope Parsed) (uri : Bytes) → Step s (remove_document uri s).0
    reparses :
        (s : StateStore Rope Parsed) (uri : Bytes) → Step s (reparse_document ropey frontend uri s)
    changes :
        (s : StateStore Rope Parsed) (uri : Bytes) (version : ℤ)
        (cs : List TextDocumentContentChangeEvent) (r : Option ℤ)
        → (apply_and_reparse_document ropey frontend uri version cs s).1 ≡ ok r
        → Step s (apply_and_reparse_document ropey frontend uri version cs s).0

  pub data Reach (s : StateStore Rope Parsed) : StateStore Rope Parsed → Type 0 where
    here : Reach s s
    next : {t u : StateStore Rope Parsed} → Reach s t → Step t u → Reach s u
