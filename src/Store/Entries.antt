-- ===== src/Store/Entries.antt =====
-- The indexes of crates/tfls-state/src/store.rs as lists of entries, and what stands in an index
-- for one document.
use terraform_ls_rs.Base.{
  Bool, false, ◌&&◌, Option, none, some, List, [], ◌∷◌, ◌++◌, ◌≡◌, refl, sym, ap, ◌∙◌, map, any,
  All, append-nil, append_assoc, if◌then◌else◌, Bytes, bytes_eq, Bool-cases, inl, inr, arith,
}
use terraform_ls_rs.Base.Scan.{bytes_eq_iff}
use terraform_ls_rs.Symbols.{
  SymbolKind, SymbolLocation, Symbol, Reference, SymbolTable, SymbolKey, key_eq,
}
use terraform_ls_rs.Store.Index.{
  Index, or_default, push, push_symbols, symbol_keys, named, addressed, reference_key,
  add_definitions, add_references, definition_keys, reference_keys, without, retained, retain_keys,
  non_empty, drop_empty,
}

abbrev pub Entries : Type 0
Entries = List (SymbolKey × SymbolLocation)

-- The locations under one key, in order.
unfoldable pub located : Entries → SymbolKey → List SymbolLocation
unfolding key_eq
located [] k = []
located ((key, loc) ∷ entries) k =
    if key_eq key k then loc ∷ located entries k else located entries k

-- The locations of one document.
unfoldable pub of_uri : Bytes → List SymbolLocation → List SymbolLocation
unfolding bytes_eq
of_uri uri [] = []
of_uri uri (loc ∷ locs) = if bytes_eq loc.uri uri then loc ∷ of_uri uri locs else of_uri uri locs

abbrev pub keys_of : Entries → List SymbolKey
keys_of entries = map (λ (e : SymbolKey × SymbolLocation). e.0) entries

pub push_entries : Entries → Index → Index
push_entries [] index = index
push_entries ((key, loc) ∷ entries) index = push_entries entries (push key loc index)

module _ {A : Type 0} (key_of : A → SymbolKey) where
  abbrev pub symbol_entries : List (A × Symbol) → Entries
  symbol_entries [] = []
  symbol_entries ((a, sym) ∷ entries) = (key_of a, sym.location) ∷ symbol_entries entries

  push_symbols-eq :
      (xs : List (A × Symbol)) (index : Index)
      → push_symbols key_of xs index ≡ push_entries (symbol_entries xs) index
  unfolding push_symbols push_entries
  push_symbols-eq [] index = refl
  push_symbols-eq ((a, sym) ∷ xs) index = push_symbols-eq xs (push (key_of a) sym.location index)

  symbol_keys-eq : (xs : List (A × Symbol)) → symbol_keys key_of xs ≡ keys_of (symbol_entries xs)
  unfolding symbol_keys
  symbol_keys-eq [] = refl
  symbol_keys-eq ((a, sym) ∷ xs) = ap (λ (l : List SymbolKey). key_of a ∷ l) (symbol_keys-eq xs)

-- The entries of a document's symbols, in the order in which `add_to_indexes` pushes them.
abbrev pub definition_entries : SymbolTable → Entries
definition_entries symbols =
    symbol_entries (named SymbolKind.variable) symbols.variables
    ++ (symbol_entries (named SymbolKind.local) symbols.locals
        ++ (symbol_entries (named SymbolKind.output) symbols.outputs
            ++ (symbol_entries (named SymbolKind.module_) symbols.modules
                ++ (symbol_entries (addressed SymbolKind.resource) symbols.resources
                    ++ symbol_entries (addressed SymbolKind.data_source) symbols.data_sources))))

abbrev pub reference_entries : List Reference → Entries
reference_entries [] = []
reference_entries (r ∷ references) =
    (reference_key r.kind, r.location) ∷ reference_entries references

push_entries-append :
    (xs ys : Entries) (index : Index)
    → push_entries (xs ++ ys) index ≡ push_entries ys (push_entries xs index)
unfolding push_entries
push_entries-append [] ys index = refl
push_entries-append ((key, loc) ∷ xs) ys index = push_entries-append xs ys (push key loc index)

keys_of-append : (xs ys : Entries) → keys_of (xs ++ ys) ≡ keys_of xs ++ keys_of ys
keys_of-append [] ys = refl
keys_of-append ((key, loc) ∷ xs) ys = ap (λ (l : List SymbolKey). key ∷ l) (keys_of-append xs ys)

pub add_definitions-eq :
    (symbols : SymbolTable) (index : Index)
    → add_definitions symbols index ≡ push_entries (definition_entries symbols) index
unfolding add_definitions
add_definitions-eq symbols index = simp (push_symbols-eq, push_entries-append)

pub definition_keys-eq :
    (symbols : SymbolTable) → definition_keys symbols ≡ keys_of (definition_entries symbols)
unfolding definition_keys
definition_keys-eq symbols = simp (symbol_keys-eq, keys_of-append)

pub add_references-eq :
    (references : List Reference) (index : Index)
    → add_references references index ≡ push_entries (reference_entries references) index
unfolding add_references push_entries
add_references-eq [] index = refl
add_references-eq (r ∷ references) index =
    add_references-eq references (push (reference_key r.kind) r.location index)

pub reference_keys-eq :
    (references : List Reference)
    → reference_keys references ≡ keys_of (reference_entries references)
unfolding reference_keys
reference_keys-eq [] = refl
reference_keys-eq (r ∷ references) =
    ap (λ (l : List SymbolKey). reference_key r.kind ∷ l) (reference_keys-eq references)

pushed :
    (key : SymbolKey) (loc : SymbolLocation) (entries : Entries) (index : Index) (k : SymbolKey)
    → or_default (push key loc index k) ++ located entries k
      ≡ or_default (index k) ++ located ((key, loc) ∷ entries) k
unfolding push located
pushed key loc entries index k = elim (Bool-cases (key_eq key k)) [
  | inl same ↦ rw same (append_assoc (or_default (index k)) (loc ∷ []) (located entries k))
  | inr other ↦ rw other refl
]

at-push_entries :
    (entries : Entries) (index : Index) (k : SymbolKey)
    → or_default (push_entries entries index k) ≡ or_default (index k) ++ located entries k
unfolding push_entries
at-push_entries [] index k = unfold located in sym (append-nil (or_default (index k)))
at-push_entries ((key, loc) ∷ entries) index k =
    at-push_entries entries (push key loc index) k ∙ pushed key loc entries index k

-- What is left of the locations of one document after those of another, or of itself, went.
of_uri-without :
    (u uri : Bytes) (locs : List SymbolLocation)
    → of_uri u (without uri locs) ≡ (if bytes_eq u uri then [] else of_uri u locs)
unfolding of_uri without
of_uri-without u uri [] = ground arith
of_uri-without u uri (loc ∷ locs) = ground (
  arith,
  of_uri-without u uri locs,
  bytes_eq_iff loc.uri uri,
  bytes_eq_iff loc.uri u,
  bytes_eq_iff u uri,
)

of_uri-append :
    (u : Bytes) (xs ys : List SymbolLocation) → of_uri u (xs ++ ys) ≡ of_uri u xs ++ of_uri u ys
unfolding of_uri
of_uri-append u [] ys = refl
of_uri-append u (loc ∷ xs) ys = elim (Bool-cases (bytes_eq loc.uri u)) [
  | inl same ↦ rw same (ap (λ (l : List SymbolLocation). loc ∷ l) (of_uri-append u xs ys))
  | inr other ↦ rw other (of_uri-append u xs ys)
]

of_uri-retained :
    (u uri : Bytes) (o : Option (List SymbolLocation))
    → of_uri u (or_default (retained uri o))
      ≡ (if bytes_eq u uri then [] else of_uri u (or_default o))
of_uri-retained u uri none = unfold of_uri in ground arith
of_uri-retained u uri (some locs) = of_uri-without u uri locs

or_default-non_empty : (o : Option (List SymbolLocation)) → or_default (non_empty o) ≡ or_default o
or_default-non_empty none = refl
or_default-non_empty (some []) = refl
or_default-non_empty (some (loc ∷ locs)) = refl

-- The keys have `k`.
abbrev has_key : SymbolKey → List SymbolKey → Bool
has_key k keys = any (λ (key : SymbolKey). key_eq key k) keys

of_uri-retain_keys :
    (u uri : Bytes) (keys : List SymbolKey) (index : Index) (k : SymbolKey)
    → of_uri u (or_default (retain_keys uri keys index k))
      ≡ (if bytes_eq u uri && has_key k keys then [] else of_uri u (or_default (index k)))
unfolding retain_keys
of_uri-retain_keys u uri [] index k = ground arith
of_uri-retain_keys u uri (key ∷ keys) index k = ground (
  arith,
  of_uri-retain_keys u uri keys (λ j. if key_eq key j then retained uri (index j) else index j) k,
  of_uri-retained u uri (index k),
)

located_none :
    (entries : Entries) (k : SymbolKey)
    → has_key k (keys_of entries) ≡ false
    → located entries k ≡ []
unfolding located
located_none [] k h = refl
located_none ((key, loc) ∷ entries) k h = ground (arith, located_none entries k)

-- Every location is in the document.
abbrev pub AllIn : Bytes → Entries → Type 0
AllIn uri entries = All (λ (e : SymbolKey × SymbolLocation). e.1.uri ≡ uri) entries

of_uri-located :
    (u uri : Bytes) (entries : Entries) (k : SymbolKey)
    → AllIn uri entries
    → of_uri u (located entries k) ≡ (if bytes_eq u uri then located entries k else [])
unfolding of_uri located
of_uri-located u uri [] k h = ground arith
of_uri-located u uri ((key, loc) ∷ entries) k h =
    ground (arith, of_uri-located u uri entries k h.1, bytes_eq_iff loc.uri u, bytes_eq_iff u uri)

-- The index after the entries of a document, which were all of it there, went.
pub of_uri-removed :
    (u uri : Bytes) (entries : Entries) (index : Index) (k : SymbolKey)
    → of_uri uri (or_default (index k)) ≡ located entries k
    → of_uri u (or_default (drop_empty (retain_keys uri (keys_of entries) index) k))
      ≡ (if bytes_eq u uri then [] else of_uri u (or_default (index k)))
unfolding drop_empty
of_uri-removed u uri entries index k h = ground (
  arith,
  ap (of_uri u) (or_default-non_empty (retain_keys uri (keys_of entries) index k)),
  of_uri-retain_keys u uri (keys_of entries) index k,
  located_none entries k,
  bytes_eq_iff u uri,
)

-- The index after the entries of a document were added.
pub of_uri-added :
    (u uri : Bytes) (entries : Entries) (index : Index) (k : SymbolKey)
    → AllIn uri entries
    → of_uri uri (or_default (index k)) ≡ []
    → of_uri u (or_default (push_entries entries index k))
      ≡ (if bytes_eq u uri then located entries k else of_uri u (or_default (index k)))
of_uri-added u uri entries index k own none_left =
    ap (of_uri u) (at-push_entries entries index k)
    ∙ of_uri-append u (or_default (index k)) (located entries k)
    ∙ elim (Bool-cases (bytes_eq u uri)) [
      | inl same ↦
          rw (of_uri-located u uri entries k own, same)
            (ap (λ (l : List SymbolLocation). l ++ located entries k)
              (ap (λ (v : Bytes). of_uri v (or_default (index k))) ((bytes_eq_iff u uri).0 same)
                ∙ none_left))
      | inr other ↦
          rw (of_uri-located u uri entries k own, other)
            (append-nil (of_uri u (or_default (index k))))
    ]
