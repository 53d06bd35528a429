-- ===== src/Store/Preserved.antt =====
-- The invariant is kept by the mutators of crates/tfls-state/src/store.rs.
use terraform_ls_rs.Base.{
  Bool, true, false, Option, none, some, List, ◌≡◌, refl, subst, Result, ok, err, Bytes, Bool-cases,
  inl, inr, arith,
}
use terraform_ls_rs.Base.Int.{ℤ}
use terraform_ls_rs.Document.Rope.{Ropey}
use terraform_ls_rs.Document.State.{
  Frontend, DocumentState, TextDocumentContentChangeEvent, ChangeFailure, apply_versioned_changes,
  reparse,
}
use terraform_ls_rs.Store.State.{
  StateStore, set_at, add_to_indexes, remove_from_indexes, upsert_document,
  upsert_document_unless_open, insert_document, remove_document, reparsed, reparse_document,
  applied, applied_to, apply_and_reparse_document, mark_open, mark_closed,
}
use terraform_ls_rs.Store.Consistent.{
  IsLocated, IsLocated?, IsConsistent, IsWithout, remove_from_indexes-IsWithout, add-IsConsistent,
  remove-IsConsistent, absent-IsConsistent,
}
use terraform_ls_rs.Store.History.{
  Locates, Kept-apply_versioned_changes, Kept-IsLocated, reparse-IsLocated, Step, opens, closes,
  upserts, upserts_unless_open, removes, reparses, changes, Reach, here, next,
}

module _ {Rope Parsed : Type 0} (ropey : Ropey Rope) (frontend : Frontend Rope Parsed) where
  upsert_document-IsConsistent :
      (doc : DocumentState Rope Parsed) (s : StateStore Rope Parsed)
      → IsLocated doc.uri doc
      → IsConsistent s
      → IsConsistent (upsert_document doc s)
  unfolding upsert_document insert_document add_to_indexes
  upsert_document-IsConsistent doc s own c =
      add-IsConsistent doc.uri doc (remove_from_indexes doc.uri s) own
        (remove_from_indexes-IsWithout doc.uri s c)

  located_at :
      (uri : Bytes) (s : StateStore Rope Parsed) (o : Option (DocumentState Rope Parsed))
      → s.documents uri ≡ o
      → IsWithout uri s
      → IsLocated? uri o
  located_at uri s o e w = subst (IsLocated? uri) e (w.located_in uri)

  reparsed-IsConsistent :
      (uri : Bytes) (o : Option (DocumentState Rope Parsed)) (s : StateStore Rope Parsed)
      → Locates ropey frontend
      → s.documents uri ≡ o
      → IsWithout uri s
      → IsConsistent (reparsed ropey frontend uri o s)
  reparsed-IsConsistent uri none s locates e w = absent-IsConsistent uri s e w
  reparsed-IsConsistent uri (some doc) s locates e w =
      add-IsConsistent uri (reparse ropey frontend doc) s
        (reparse-IsLocated ropey frontend uri doc locates (located_at uri s (some doc) e w)) w

  applied-IsConsistent :
      (uri : Bytes) (s : StateStore Rope Parsed)
      (a : DocumentState Rope Parsed × Result (Option ℤ) ChangeFailure) (r : Option ℤ)
      → Locates ropey frontend
      → IsLocated uri a.0
      → IsWithout uri s
      → (applied ropey frontend uri s a).1 ≡ ok r
      → IsConsistent (applied ropey frontend uri s a).0
  applied-IsConsistent uri s (doc, err e) r locates own w h = absurd (ground arith)
  applied-IsConsistent uri s (doc, ok none) r locates own w h = add-IsConsistent uri doc s own w
  applied-IsConsistent uri s (doc, ok (some version)) r locates own w h =
      add-IsConsistent uri (reparse ropey frontend doc) s
        (reparse-IsLocated ropey frontend uri doc locates own) w

  applied_to-IsConsistent :
      (uri : Bytes) (version : ℤ) (cs : List TextDocumentContentChangeEvent)
      (s : StateStore Rope Parsed) (o : Option (DocumentState Rope Parsed)) (r : Option ℤ)
      → Locates ropey frontend
      → s.documents uri ≡ o
      → IsWithout uri s
      → (applied_to ropey frontend uri version cs s o).1 ≡ ok r
      → IsConsistent (applied_to ropey frontend uri version cs s o).0
  applied_to-IsConsistent uri version cs s none r locates e w h = absent-IsConsistent uri s e w
  applied_to-IsConsistent uri version cs s (some doc) r locates e w h =
      applied-IsConsistent uri s (apply_versioned_changes ropey frontend doc version cs) r locates
        (Kept-IsLocated ropey frontend uri doc
          (apply_versioned_changes ropey frontend doc version cs).0
          (Kept-apply_versioned_changes ropey frontend doc version cs)
          (located_at uri s (some doc) e w))
        w h

  marked-IsConsistent :
      (s : StateStore Rope Parsed) (open_docs : Bytes → Bool)
      → IsConsistent s
      → IsConsistent (record s { open_docs = open_docs })
  marked-IsConsistent s open_docs c = record {
    located_in = c.located_in;
    definitions = c.definitions;
    references = c.references;
  }

  Step-IsConsistent :
      {s t : StateStore Rope Parsed}
      → Locates ropey frontend
      → Step ropey frontend s t
      → IsConsistent s
      → IsConsistent t
  unfolding upsert_document_unless_open remove_document reparse_document apply_and_reparse_document
      mark_open mark_closed
  Step-IsConsistent locates (opens s uri) c = marked-IsConsistent s (set_at uri true s.open_docs) c
  Step-IsConsistent locates (closes s uri) c =
      marked-IsConsistent s (set_at uri false s.open_docs) c
  Step-IsConsistent locates (upserts s doc own) c = upsert_document-IsConsistent doc s own c
  Step-IsConsistent locates (upserts_unless_open s doc own) c =
      elim (Bool-cases (s.open_docs doc.uri)) [
        | inl open_ ↦ rw open_ c
        | inr closed ↦ rw closed (upsert_document-IsConsistent doc s own c)
      ]
  Step-IsConsistent locates (removes s uri) c =
      remove-IsConsistent uri (remove_from_indexes uri s) (remove_from_indexes-IsWithout uri s c)
  Step-IsConsistent locates (reparses s uri) c =
      let t = remove_from_indexes uri s in
      reparsed-IsConsistent uri (t.documents uri) t locates refl
        (remove_from_indexes-IsWithout uri s c)
  Step-IsConsistent locates (changes s uri version cs r h) c =
      let t = remove_from_indexes uri s in
      applied_to-IsConsistent uri version cs t (t.documents uri) r locates refl
        (remove_from_indexes-IsWithout uri s c) h

  -- Where the analysis reports only locations of its own file, every history of calls keeps the
  -- documents and the indexes consistent, as long as no change of a document is refused: under each
  -- key, the entries of a URL are those of the symbols or references of its document, in order, and
  -- a URL without a document has none.
  pub Reach-IsConsistent :
      {s t : StateStore Rope Parsed}
      → Locates ropey frontend
      → IsConsistent s
      → Reach ropey frontend s t
      → IsConsistent t
  Reach-IsConsistent locates c here = c
  Reach-IsConsistent locates c (next r st) =
      Step-IsConsistent locates st (Reach-IsConsistent locates c r)
