-- ===== src/Symbols.antt =====
-- Symbols and references, which the parser finds and the other parts read:
-- crates/tfls-core/src/types.rs and crates/tfls-parser/src/references.rs. A URL is its text.
use terraform_ls_rs.Base.{
  ℕ, Bool, true, false, Option, List, ◌&&◌, ◌≡◌, ◌↔◌, ◌++◌, arith, Bytes, bytes_eq, codes,
}
use terraform_ls_rs.Base.Scan.{bytes_eq_iff}

pub record Position : Type 0 where
  pub line : ℕ
  pub character : ℕ

pub record Range : Type 0 where
  pub start : Position
  pub end : Position

pub data SymbolKind : Type 0 where
  variable local output resource data_source module_ provider terraform_block : SymbolKind

pub record ResourceAddress : Type 0 where
  pub resource_type : Bytes
  pub name : Bytes

pub record SymbolLocation : Type 0 where
  pub uri : Bytes
  pub start_line : ℕ
  pub start_character : ℕ
  pub end_line : ℕ
  pub end_character : ℕ

-- `SymbolLocation::range`.
abbrev pub range_of : SymbolLocation → Range
range_of loc = record {
  start = record { line = loc.start_line; character = loc.start_character };
  end = record { line = loc.end_line; character = loc.end_character };
}

pub record Symbol : Type 0 where
  pub name : Bytes
  pub kind : SymbolKind
  pub location : SymbolLocation
  pub name_range : Range
  pub detail : Option Bytes
  pub doc : Option Bytes

pub data ReferenceKind : Type 0 where
  variable local module_ : Bytes → ReferenceKind
  resource data_source : Bytes → Bytes → ReferenceKind

pub record Reference : Type 0 where
  pub kind : ReferenceKind
  pub location : SymbolLocation

-- The symbols of one document by kind. A `HashMap` is the list of its entries in the order of its
-- iteration.
pub record SymbolTable : Type 0 where
  pub variables : List (Bytes × Symbol)
  pub locals : List (Bytes × Symbol)
  pub outputs : List (Bytes × Symbol)
  pub resources : List (ResourceAddress × Symbol)
  pub data_sources : List (ResourceAddress × Symbol)
  pub modules : List (Bytes × Symbol)

unfoldable pub kind_eq : SymbolKind → SymbolKind → Bool
kind_eq SymbolKind.variable SymbolKind.variable = true
kind_eq SymbolKind.local SymbolKind.local = true
kind_eq SymbolKind.output SymbolKind.output = true
kind_eq SymbolKind.resource SymbolKind.resource = true
kind_eq SymbolKind.data_source SymbolKind.data_source = true
kind_eq SymbolKind.module_ SymbolKind.module_ = true
kind_eq SymbolKind.provider SymbolKind.provider = true
kind_eq SymbolKind.terraform_block SymbolKind.terraform_block = true
kind_eq _ _ = false

kind_eq_iff : (a b : SymbolKind) → (kind_eq a b ≡ true) ↔ (a ≡ b)
unfolding kind_eq
kind_eq_iff a b = ground arith

-- `SymbolKey` of crates/tfls-state/src/store.rs, with its derived `PartialEq`.
pub record SymbolKey : Type 0 where
  pub kind : SymbolKind
  pub name : Bytes

-- `SymbolKey::resource`.
unfoldable pub resource_key : SymbolKind → Bytes → Bytes → SymbolKey
resource_key kind resource_type name = record {
  kind = kind;
  name = resource_type ++ (codes "." ++ name);
}

unfoldable pub key_eq : SymbolKey → SymbolKey → Bool
unfolding kind_eq bytes_eq
key_eq a b = kind_eq a.kind b.kind && bytes_eq a.name b.name

pub key_eq_iff : (a b : SymbolKey) → (key_eq a b ≡ true) ↔ (a ≡ b)
unfolding key_eq
key_eq_iff a b = ground (arith, kind_eq_iff a.kind b.kind, bytes_eq_iff a.name b.name)
