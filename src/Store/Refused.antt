-- ===== src/Store/Refused.antt =====
-- What a refused change of a document does to the indexes of crates/tfls-state/src/store.rs.
use terraform_ls_rs.Base.{Option, none, some, List, [], ◌≡◌, refl, Result, ok, err, Bytes, arith}
use terraform_ls_rs.Base.Int.{ℤ}
use terraform_ls_rs.Base.Scan.{bytes_eq_iff}
use terraform_ls_rs.Symbols.{SymbolKey}
use terraform_ls_rs.Document.Rope.{Ropey}
use terraform_ls_rs.Document.State.{
  Frontend, DocumentState, TextDocumentContentChangeEvent, ChangeFailure, apply_versioned_changes,
}
use terraform_ls_rs.Store.Index.{or_default}
use terraform_ls_rs.Store.Entries.{of_uri}
use terraform_ls_rs.Store.State.{
  StateStore, remove_from_indexes, applied, applied_to, apply_and_reparse_document,
}
use terraform_ls_rs.Store.Consistent.{
  nothing_left, own_definitions, own_references, IsConsistent, IsWithout,
  remove_from_indexes-IsWithout,
}

module _ {Rope Parsed : Type 0} (ropey : Ropey Rope) (frontend : Frontend Rope Parsed) where
  -- The document is in the store, and nothing of it in the indexes.
  pub record IsLost (uri : Bytes) (s : StateStore Rope Parsed) : Type 0 where
    pub document : (doc : DocumentState Rope Parsed) × (s.documents uri ≡ some doc)
    pub definitions : (k : SymbolKey) → of_uri uri (or_default (s.definitions_by_name k)) ≡ []
    pub references : (k : SymbolKey) → of_uri uri (or_default (s.references_by_name k)) ≡ []

  applied-IsLost :
      (uri : Bytes) (s : StateStore Rope Parsed)
      (a : DocumentState Rope Parsed × Result (Option ℤ) ChangeFailure) (e : ChangeFailure)
      → IsWithout uri s
      → (applied ropey frontend uri s a).1 ≡ err e
      → IsLost uri (applied ropey frontend uri s a).0
  applied-IsLost uri s (doc, err e') e w h = record {
    document = (doc, rw ((bytes_eq_iff uri uri).1 refl));
    definitions = λ k.
        nothing_left uri (of_uri uri (or_default (s.definitions_by_name k)))
          (own_definitions (s.documents uri) k) (w.definitions uri k);
    references = λ k.
        nothing_left uri (of_uri uri (or_default (s.references_by_name k)))
          (own_references (s.documents uri) k) (w.references uri k);
  }
  applied-IsLost uri s (doc, ok none) e w h = absurd (ground arith)
  applied-IsLost uri s (doc, ok (some version)) e w h = absurd (ground arith)

  applied_to-IsLost :
      (uri : Bytes) (version : ℤ) (cs : List TextDocumentContentChangeEvent)
      (s : StateStore Rope Parsed) (o : Option (DocumentState Rope Parsed)) (e : ChangeFailure)
      → IsWithout uri s
      → (applied_to ropey frontend uri version cs s o).1 ≡ err e
      → IsLost uri (applied_to ropey frontend uri version cs s o).0
  applied_to-IsLost uri version cs s none e w h = absurd (ground arith)
  applied_to-IsLost uri version cs s (some doc) e w h =
      applied-IsLost uri s (apply_versioned_changes ropey frontend doc version cs) e w h

  -- A change of a document that is refused, with an error or by a panic of the rope, leaves the
  -- document in the store, and leaves nothing of it in either index.
  pub apply_and_reparse_document-IsLost :
      (uri : Bytes) (version : ℤ) (cs : List TextDocumentContentChangeEvent)
      (s : StateStore Rope Parsed) (e : ChangeFailure)
      → IsConsistent s
      → (apply_and_reparse_document ropey frontend uri version cs s).1 ≡ err e
      → IsLost uri (apply_and_reparse_document ropey frontend uri version cs s).0
  unfolding apply_and_reparse_document
  apply_and_reparse_document-IsLost uri version cs s e c h =
      let t = remove_from_indexes uri s in
      applied_to-IsLost uri version cs t (t.documents uri) e (remove_from_indexes-IsWithout uri s c)
        h
