-- ===== src/Store/State.antt =====
-- The documents of the store and their indexes, crates/tfls-state/src/store.rs: each mutator runs
-- under `index_lock` and is one step here.
use terraform_ls_rs.Base.{
  Bool, true, false, Option, none, some, List, if◌then◌else◌, Result, ok, err, Bytes, bytes_eq,
}
use terraform_ls_rs.Base.Int.{ℤ}
use terraform_ls_rs.Document.Rope.{Ropey}
use terraform_ls_rs.Document.State.{
  Frontend, DocumentState, TextDocumentContentChangeEvent, ChangeFailure, apply_versioned_changes,
  reparse,
}
use terraform_ls_rs.Store.Index.{
  Index, add_definitions, add_references, definition_keys, reference_keys, retain_keys, drop_empty,
}

-- The part of `StateStore` that documents live in. `open_docs` is a set.
pub record StateStore (Rope Parsed : Type 0) : Type 0 where
  pub documents : Bytes → Option (DocumentState Rope Parsed)
  pub definitions_by_name : Index
  pub references_by_name : Index
  pub open_docs : Bytes → Bool

-- `insert` and `remove` of a map and of a set.
abbrev pub set_at {ℓ} : {A : Type ℓ} → Bytes → A → (Bytes → A) → Bytes → A
set_at key a m k = if bytes_eq key k then a else m k

module _ {Rope Parsed : Type 0} where
  unfoldable pub mark_open : Bytes → StateStore Rope Parsed → StateStore Rope Parsed
  unfolding bytes_eq
  mark_open uri s = record s { open_docs = set_at uri true s.open_docs }

  unfoldable pub mark_closed : Bytes → StateStore Rope Parsed → StateStore Rope Parsed
  unfolding bytes_eq
  mark_closed uri s = record s { open_docs = set_at uri false s.open_docs }

  abbrev pub is_open : StateStore Rope Parsed → Bytes → Bool
  is_open s uri = s.open_docs uri

  unfoldable pub add_to_indexes :
      DocumentState Rope Parsed → StateStore Rope Parsed → StateStore Rope Parsed
  unfolding add_definitions add_references
  add_to_indexes doc s = record s {
    definitions_by_name = add_definitions doc.symbols s.definitions_by_name;
    references_by_name = add_references doc.references s.references_by_name;
  }

  abbrev pub without_document :
      Bytes → Option (DocumentState Rope Parsed) → StateStore Rope Parsed → StateStore Rope Parsed
  without_document uri none s = s
  without_document uri (some doc) s = record s {
    definitions_by_name =
        drop_empty (retain_keys uri (definition_keys doc.symbols) s.definitions_by_name);
    references_by_name =
        drop_empty (retain_keys uri (reference_keys doc.references) s.references_by_name);
  }

  unfoldable pub remove_from_indexes : Bytes → StateStore Rope Parsed → StateStore Rope Parsed
  unfolding drop_empty retain_keys definition_keys reference_keys
  remove_from_indexes uri s = without_document uri (s.documents uri) s

  unfoldable pub insert_document :
      DocumentState Rope Parsed → StateStore Rope Parsed → StateStore Rope Parsed
  unfolding bytes_eq
  insert_document doc s = record s { documents = set_at doc.uri (some doc) s.documents }

  unfoldable pub upsert_document :
      DocumentState Rope Parsed → StateStore Rope Parsed → StateStore Rope Parsed
  unfolding insert_document add_to_indexes remove_from_indexes
  upsert_document doc s = insert_document doc (add_to_indexes doc (remove_from_indexes doc.uri s))

  -- The test comes before the lock of the index. A call between whose test and lock the document
  -- opens is `upsert_document`.
  unfoldable pub upsert_document_unless_open :
      DocumentState Rope Parsed → StateStore Rope Parsed → StateStore Rope Parsed × Bool
  unfolding upsert_document
  upsert_document_unless_open doc s =
      if is_open s doc.uri then (s, false) else (upsert_document doc s, true)

  unfoldable pub remove_document :
      Bytes → StateStore Rope Parsed → StateStore Rope Parsed × Option (DocumentState Rope Parsed)
  unfolding remove_from_indexes bytes_eq
  remove_document uri s =
      let t = remove_from_indexes uri s in
      (record t { documents = set_at uri none t.documents }, t.documents uri)

  -- A change in place through `get_mut`: the document under a key, by another of the same key.
  abbrev pub put_back :
      Bytes → DocumentState Rope Parsed → StateStore Rope Parsed → StateStore Rope Parsed
  put_back uri doc s = record s { documents = set_at uri (some doc) s.documents }

  module _ (ropey : Ropey Rope) (frontend : Frontend Rope Parsed) where
    abbrev pub reparsed :
        Bytes → Option (DocumentState Rope Parsed) → StateStore Rope Parsed → StateStore Rope Parsed
    reparsed uri none s = s
    reparsed uri (some doc) s =
        let doc' = reparse ropey frontend doc in add_to_indexes doc' (put_back uri doc' s)

    unfoldable pub reparse_document : Bytes → StateStore Rope Parsed → StateStore Rope Parsed
    unfolding remove_from_indexes add_to_indexes reparse bytes_eq
    reparse_document uri s = let t = remove_from_indexes uri s in reparsed uri (t.documents uri) t

    -- The end of `apply_and_reparse_document`, after the changes: an error returns at once.
    abbrev pub applied :
        Bytes
        → StateStore Rope Parsed
        → DocumentState Rope Parsed × Result (Option ℤ) ChangeFailure
        → StateStore Rope Parsed × Result (Option ℤ) ChangeFailure
    applied uri s (doc, err e) = (put_back uri doc s, err e)
    applied uri s (doc, ok none) = (add_to_indexes doc (put_back uri doc s), ok none)
    applied uri s (doc, ok (some version)) =
        let doc' = reparse ropey frontend doc in
        (add_to_indexes doc' (put_back uri doc' s), ok (some version))

    abbrev pub applied_to :
        Bytes
        → ℤ
        → List TextDocumentContentChangeEvent
        → StateStore Rope Parsed
        → Option (DocumentState Rope Parsed)
        → StateStore Rope Parsed × Result (Option ℤ) ChangeFailure
    applied_to uri version changes s none = (s, ok none)
    applied_to uri version changes s (some doc) =
        applied uri s (apply_versioned_changes ropey frontend doc version changes)

    unfoldable pub apply_and_reparse_document :
        Bytes
        → ℤ
        → List TextDocumentContentChangeEvent
        → StateStore Rope Parsed
        → StateStore Rope Parsed × Result (Option ℤ) ChangeFailure
    unfolding remove_from_indexes add_to_indexes reparse bytes_eq apply_versioned_changes
    apply_and_reparse_document uri version changes s =
        let t = remove_from_indexes uri s in applied_to uri version changes t (t.documents uri)
