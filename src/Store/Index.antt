-- ===== src/Store/Index.antt =====
-- The secondary indexes of the store, crates/tfls-state/src/store.rs: `add_to_indexes`,
-- `remove_from_indexes` and `collect_doc_keys`. A `DashMap` is the function that looks a key up.
use terraform_ls_rs.Base.{
  not, Option, none, some, List, [], ◌∷◌, ◌++◌, if◌then◌else◌, Bytes, bytes_eq,
}
use terraform_ls_rs.Symbols.{
  SymbolKind, SymbolLocation, Symbol, ResourceAddress, ReferenceKind, Reference, SymbolTable,
  SymbolKey, key_eq, resource_key,
}

abbrev pub Index : Type 0
Index = SymbolKey → Option (List SymbolLocation)

abbrev pub or_default : Option (List SymbolLocation) → List SymbolLocation
or_default none = []
or_default (some locs) = locs

-- `index.entry(key).or_default().push(loc)`.
unfoldable pub push : SymbolKey → SymbolLocation → Index → Index
unfolding key_eq
push key loc index k = if key_eq key k then some (or_default (index k) ++ loc ∷ []) else index k

-- One loop of `add_to_indexes`, over the entries of one kind.
module _ {A : Type 0} (key_of : A → SymbolKey) where
  unfoldable pub push_symbols : List (A × Symbol) → Index → Index
  unfolding push
  push_symbols [] index = index
  push_symbols ((a, sym) ∷ entries) index =
      push_symbols entries (push (key_of a) sym.location index)

  -- One loop of `collect_doc_keys`.
  unfoldable pub symbol_keys : List (A × Symbol) → List SymbolKey
  symbol_keys [] = []
  symbol_keys ((a, sym) ∷ entries) = key_of a ∷ symbol_keys entries

-- `SymbolKey::new(kind, name)` and `SymbolKey::resource(kind, …)` of an address.
abbrev pub named : SymbolKind → Bytes → SymbolKey
named kind name = record { kind = kind; name = name }

abbrev pub addressed : SymbolKind → ResourceAddress → SymbolKey
addressed kind addr = resource_key kind addr.resource_type addr.name

unfoldable pub reference_key : ReferenceKind → SymbolKey
unfolding resource_key
reference_key (ReferenceKind.variable name) = named SymbolKind.variable name
reference_key (ReferenceKind.local name) = named SymbolKind.local name
reference_key (ReferenceKind.module_ name) = named SymbolKind.module_ name
reference_key (ReferenceKind.resource resource_type name) =
    resource_key SymbolKind.resource resource_type name
reference_key (ReferenceKind.data_source resource_type name) =
    resource_key SymbolKind.data_source resource_type name

unfoldable pub add_definitions : SymbolTable → Index → Index
unfolding push_symbols resource_key
add_definitions symbols index =
    let variables = push_symbols (named SymbolKind.variable) symbols.variables index in
    let locals = push_symbols (named SymbolKind.local) symbols.locals variables in
    let outputs = push_symbols (named SymbolKind.output) symbols.outputs locals in
    let modules = push_symbols (named SymbolKind.module_) symbols.modules outputs in
    let resources = push_symbols (addressed SymbolKind.resource) symbols.resources modules in
    push_symbols (addressed SymbolKind.data_source) symbols.data_sources resources

unfoldable pub add_references : List Reference → Index → Index
unfolding push reference_key
add_references [] index = index
add_references (r ∷ references) index =
    add_references references (push (reference_key r.kind) r.location index)

unfoldable pub definition_keys : SymbolTable → List SymbolKey
unfolding symbol_keys resource_key
definition_keys symbols =
    symbol_keys (named SymbolKind.variable) symbols.variables
    ++ (symbol_keys (named SymbolKind.local) symbols.locals
        ++ (symbol_keys (named SymbolKind.output) symbols.outputs
            ++ (symbol_keys (named SymbolKind.module_) symbols.modules
                ++ (symbol_keys (addressed SymbolKind.resource) symbols.resources
                    ++ symbol_keys (addressed SymbolKind.data_source) symbols.data_sources))))

unfoldable pub reference_keys : List Reference → List SymbolKey
unfolding reference_key
reference_keys [] = []
reference_keys (r ∷ references) = reference_key r.kind ∷ reference_keys references

-- `Vec::retain(|loc| loc.uri != *uri)`.
unfoldable pub without : Bytes → List SymbolLocation → List SymbolLocation
unfolding bytes_eq
without uri [] = []
without uri (loc ∷ locs) =
    if not (bytes_eq loc.uri uri) then loc ∷ without uri locs else without uri locs

abbrev pub retained : Bytes → Option (List SymbolLocation) → Option (List SymbolLocation)
retained uri none = none
retained uri (some locs) = some (without uri locs)

-- The loop over the keys of the document.
unfoldable pub retain_keys : Bytes → List SymbolKey → Index → Index
unfolding without key_eq
retain_keys uri [] index = index
retain_keys uri (key ∷ keys) index =
    retain_keys uri keys (λ k. if key_eq key k then retained uri (index k) else index k)

abbrev pub non_empty : Option (List SymbolLocation) → Option (List SymbolLocation)
non_empty none = none
non_empty (some []) = none
non_empty (some (loc ∷ locs)) = some (loc ∷ locs)

-- `index.retain(|_, v| !v.is_empty())`.
unfoldable pub drop_empty : Index → Index
drop_empty index k = non_empty (index k)
