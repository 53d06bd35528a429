-- ===== src/Store/Consistent.antt =====
-- The invariant between the documents and the indexes of crates/tfls-state/src/store.rs.
use terraform_ls_rs.Base.{
  Option, none, some, List, [], ◌≡◌, refl, sym, ap, subst, ◌∙◌, if◌then◌else◌, Bytes, bytes_eq,
  Bool-cases, inl, inr, arith,
}
use terraform_ls_rs.Base.Scan.{bytes_eq_iff}
use terraform_ls_rs.Symbols.{SymbolLocation, SymbolKey}
use terraform_ls_rs.Document.State.{DocumentState}
use terraform_ls_rs.Store.Index.{Index, or_default, drop_empty, retain_keys}
use terraform_ls_rs.Store.Entries.{
  located, of_uri, definition_entries, reference_entries, AllIn, of_uri-removed, of_uri-added,
  add_definitions-eq, definition_keys-eq, add_references-eq, reference_keys-eq,
}
use terraform_ls_rs.Store.State.{
  StateStore, set_at, add_to_indexes, without_document, remove_from_indexes, put_back,
}

bytes_eq_sym : (u v : Bytes) → bytes_eq u v ≡ bytes_eq v u
bytes_eq_sym u v = ground (arith, bytes_eq_iff u v, bytes_eq_iff v u)

pub nothing_left :
    (uri : Bytes) (locs own : List SymbolLocation)
    → locs ≡ (if bytes_eq uri uri then [] else own)
    → locs ≡ []
nothing_left uri locs own h = ground (arith, bytes_eq_iff uri uri)

module _ {Rope Parsed : Type 0} where
  abbrev pub own_definitions : Option (DocumentState Rope Parsed) → SymbolKey → List SymbolLocation
  own_definitions none k = []
  own_definitions (some doc) k = located (definition_entries doc.symbols) k

  abbrev pub own_references : Option (DocumentState Rope Parsed) → SymbolKey → List SymbolLocation
  own_references none k = []
  own_references (some doc) k = located (reference_entries doc.references) k

  -- What was found in a document lies in it, at its URL.
  pub record IsLocated (uri : Bytes) (doc : DocumentState Rope Parsed) : Type 0 where
    pub keyed : doc.uri ≡ uri
    pub definitions_in : AllIn uri (definition_entries doc.symbols)
    pub references_in : AllIn uri (reference_entries doc.references)

  abbrev pub IsLocated? : Bytes → Option (DocumentState Rope Parsed) → Type 0
  IsLocated? uri none = Unit
  IsLocated? uri (some doc) = IsLocated uri doc

  -- Under each key, what the indexes have of each URL is exactly what the document of this URL has.
  pub record IsConsistent (s : StateStore Rope Parsed) : Type 0 where
    pub located_in : (uri : Bytes) → IsLocated? uri (s.documents uri)
    pub definitions :
        (uri : Bytes) (k : SymbolKey)
        → of_uri uri (or_default (s.definitions_by_name k)) ≡ own_definitions (s.documents uri) k
    pub references :
        (uri : Bytes) (k : SymbolKey)
        → of_uri uri (or_default (s.references_by_name k)) ≡ own_references (s.documents uri) k

  -- The indexes have nothing of `uri`, and of every other URL what its document has.
  pub record IsWithout (uri : Bytes) (s : StateStore Rope Parsed) : Type 0 where
    pub located_in : (u : Bytes) → IsLocated? u (s.documents u)
    pub definitions :
        (u : Bytes) (k : SymbolKey)
        → of_uri u (or_default (s.definitions_by_name k))
          ≡ (if bytes_eq u uri then [] else own_definitions (s.documents u) k)
    pub references :
        (u : Bytes) (k : SymbolKey)
        → of_uri u (or_default (s.references_by_name k))
          ≡ (if bytes_eq u uri then [] else own_references (s.documents u) k)

  documents-without :
      (uri : Bytes) (o : Option (DocumentState Rope Parsed)) (s : StateStore Rope Parsed)
      → (without_document uri o s).documents ≡ s.documents
  documents-without uri none s = refl
  documents-without uri (some doc) s = refl

  pub documents-remove_from_indexes :
      (uri : Bytes) (s : StateStore Rope Parsed)
      → (remove_from_indexes uri s).documents ≡ s.documents
  unfolding remove_from_indexes
  documents-remove_from_indexes uri s = documents-without uri (s.documents uri) s

  definitions-without :
      (uri u : Bytes) (k : SymbolKey) (o : Option (DocumentState Rope Parsed))
      (s : StateStore Rope Parsed)
      → of_uri uri (or_default (s.definitions_by_name k)) ≡ own_definitions o k
      → of_uri u (or_default ((without_document uri o s).definitions_by_name k))
        ≡ (if bytes_eq u uri then [] else of_uri u (or_default (s.definitions_by_name k)))
  definitions-without uri u k none s h = ground (arith, bytes_eq_iff u uri)
  definitions-without uri u k (some doc) s h =
      ap
        (λ (keys : List SymbolKey).
          of_uri u (or_default (drop_empty (retain_keys uri keys s.definitions_by_name) k)))
        (definition_keys-eq doc.symbols)
      ∙ of_uri-removed u uri (definition_entries doc.symbols) s.definitions_by_name k h

  references-without :
      (uri u : Bytes) (k : SymbolKey) (o : Option (DocumentState Rope Parsed))
      (s : StateStore Rope Parsed)
      → of_uri uri (or_default (s.references_by_name k)) ≡ own_references o k
      → of_uri u (or_default ((without_document uri o s).references_by_name k))
        ≡ (if bytes_eq u uri then [] else of_uri u (or_default (s.references_by_name k)))
  references-without uri u k none s h = ground (arith, bytes_eq_iff u uri)
  references-without uri u k (some doc) s h =
      ap
        (λ (keys : List SymbolKey).
          of_uri u (or_default (drop_empty (retain_keys uri keys s.references_by_name) k)))
        (reference_keys-eq doc.references)
      ∙ of_uri-removed u uri (reference_entries doc.references) s.references_by_name k h

  pub remove_from_indexes-IsWithout :
      (uri : Bytes) (s : StateStore Rope Parsed)
      → IsConsistent s
      → IsWithout uri (remove_from_indexes uri s)
  remove_from_indexes-IsWithout uri s c = record {
    located_in = λ u. rw (documents-remove_from_indexes uri s) (c.located_in u);
    definitions = λ u k. rw (documents-remove_from_indexes uri s) (
        unfold remove_from_indexes in
        definitions-without uri u k (s.documents uri) s (c.definitions uri k)
        ∙ ap (λ (l : List SymbolLocation). if bytes_eq u uri then [] else l) (c.definitions u k));
    references = λ u k. rw (documents-remove_from_indexes uri s) (
        unfold remove_from_indexes in
        references-without uri u k (s.documents uri) s (c.references uri k)
        ∙ ap (λ (l : List SymbolLocation). if bytes_eq u uri then [] else l) (c.references u k));
  }

  IsLocated?-set_at :
      (uri u : Bytes) (doc : DocumentState Rope Parsed)
      (m : Bytes → Option (DocumentState Rope Parsed))
      → IsLocated uri doc
      → IsLocated? u (m u)
      → IsLocated? u (set_at uri (some doc) m u)
  IsLocated?-set_at uri u doc m own h = elim (Bool-cases (bytes_eq uri u)) [
    | inl same ↦ rw same (subst (λ (v : Bytes). IsLocated v doc) ((bytes_eq_iff uri u).0 same) own)
    | inr other ↦ rw other h
  ]

  definitions-set_at :
      (uri u : Bytes) (k : SymbolKey) (doc : DocumentState Rope Parsed)
      (m : Bytes → Option (DocumentState Rope Parsed))
      → (if bytes_eq u uri
          then located (definition_entries doc.symbols) k
          else (if bytes_eq u uri then [] else own_definitions (m u) k))
        ≡ own_definitions (set_at uri (some doc) m u) k
  definitions-set_at uri u k doc m = elim (Bool-cases (bytes_eq uri u)) [
    | inl same ↦ rw (same, bytes_eq_sym u uri, same) refl
    | inr other ↦ rw (other, bytes_eq_sym u uri, other) refl
  ]

  references-set_at :
      (uri u : Bytes) (k : SymbolKey) (doc : DocumentState Rope Parsed)
      (m : Bytes → Option (DocumentState Rope Parsed))
      → (if bytes_eq u uri
          then located (reference_entries doc.references) k
          else (if bytes_eq u uri then [] else own_references (m u) k))
        ≡ own_references (set_at uri (some doc) m u) k
  references-set_at uri u k doc m = elim (Bool-cases (bytes_eq uri u)) [
    | inl same ↦ rw (same, bytes_eq_sym u uri, same) refl
    | inr other ↦ rw (other, bytes_eq_sym u uri, other) refl
  ]

  -- The index entries of a document go in, and the document goes in.
  pub add-IsConsistent :
      (uri : Bytes) (doc : DocumentState Rope Parsed) (s : StateStore Rope Parsed)
      → IsLocated uri doc
      → IsWithout uri s
      → IsConsistent (add_to_indexes doc (put_back uri doc s))
  unfolding add_to_indexes
  add-IsConsistent uri doc s own c = record {
    located_in = λ u. IsLocated?-set_at uri u doc s.documents own (c.located_in u);
    definitions = λ u k.
        ap (λ (index : Index). of_uri u (or_default (index k)))
          (add_definitions-eq doc.symbols s.definitions_by_name)
        ∙ of_uri-added u uri (definition_entries doc.symbols) s.definitions_by_name k
            own.definitions_in
            (nothing_left uri (of_uri uri (or_default (s.definitions_by_name k)))
              (own_definitions (s.documents uri) k) (c.definitions uri k))
        ∙ ap
            (λ (l : List SymbolLocation).
              if bytes_eq u uri then located (definition_entries doc.symbols) k else l)
            (c.definitions u k)
        ∙ definitions-set_at uri u k doc s.documents;
    references = λ u k.
        ap (λ (index : Index). of_uri u (or_default (index k)))
          (add_references-eq doc.references s.references_by_name)
        ∙ of_uri-added u uri (reference_entries doc.references) s.references_by_name k
            own.references_in
            (nothing_left uri (of_uri uri (or_default (s.references_by_name k)))
              (own_references (s.documents uri) k) (c.references uri k))
        ∙ ap
            (λ (l : List SymbolLocation).
              if bytes_eq u uri then located (reference_entries doc.references) k else l)
            (c.references u k)
        ∙ references-set_at uri u k doc s.documents;
  }

  -- Without the document, the indexes that have nothing of it are consistent.
  pub remove-IsConsistent :
      (uri : Bytes) (s : StateStore Rope Parsed)
      → IsWithout uri s
      → IsConsistent (record s { documents = set_at uri none s.documents })
  remove-IsConsistent uri s c = record {
    located_in = λ u. elim (Bool-cases (bytes_eq uri u)) [
      | inl same ↦ rw same tt
      | inr other ↦ rw other (c.located_in u)
    ];
    definitions = λ u k. c.definitions u k ∙ elim (Bool-cases (bytes_eq uri u)) [
      | inl same ↦ rw (same, bytes_eq_sym u uri, same) refl
      | inr other ↦ rw (other, bytes_eq_sym u uri, other) refl
    ];
    references = λ u k. c.references u k ∙ elim (Bool-cases (bytes_eq uri u)) [
      | inl same ↦ rw (same, bytes_eq_sym u uri, same) refl
      | inr other ↦ rw (other, bytes_eq_sym u uri, other) refl
    ];
  }

  -- Nothing was to be removed: there is no document.
  pub absent-IsConsistent :
      (uri : Bytes) (s : StateStore Rope Parsed)
      → s.documents uri ≡ none
      → IsWithout uri s
      → IsConsistent s
  absent-IsConsistent uri s e c = record {
    located_in = c.located_in;
    definitions = λ u k. c.definitions u k ∙ elim (Bool-cases (bytes_eq u uri)) [
      | inl same ↦ rw same (
          sym (
            ap (λ (o : Option (DocumentState Rope Parsed)). own_definitions o k)
              (ap s.documents ((bytes_eq_iff u uri).0 same) ∙ e)))
      | inr other ↦ rw other refl
    ];
    references = λ u k. c.references u k ∙ elim (Bool-cases (bytes_eq u uri)) [
      | inl same ↦ rw same (
          sym (
            ap (λ (o : Option (DocumentState Rope Parsed)). own_references o k)
              (ap s.documents ((bytes_eq_iff u uri).0 same) ∙ e)))
      | inr other ↦ rw other refl
    ];
  }
