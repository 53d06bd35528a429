-- ===== src/Tokens/Encode.antt =====
-- `encode_tokens` of crates/tfls-lsp/src/handlers/semantic_tokens.rs, on the symbols of a document in
-- the order of `for_each_symbol` and on its references. Subtraction on ℕ is `saturating_sub`.
use terraform_ls_rs.Base.{
  ℕ, ◌-◌, Option, none, some, List, [], ◌∷◌, ◌++◌, Ordering, ◌==◌, not, if◌then◌else◌, map, compare,
}
use terraform_ls_rs.Base.Order.{then_with, is_lt}
use terraform_ls_rs.Symbols.{Range, SymbolKind, Symbol, ReferenceKind, Reference, range_of}

pub record RawToken : Type 0 where
  pub line : ℕ
  pub character : ℕ
  pub length : ℕ
  pub type_id : ℕ
  pub modifiers : ℕ

pub record SemanticToken : Type 0 where
  pub delta_line : ℕ
  pub delta_start : ℕ
  pub length : ℕ
  pub token_type : ℕ
  pub token_modifiers_bitset : ℕ

-- The legend's indices `TYPE`, `VARIABLE` and `NAMESPACE`.
abbrev pub type_ : ℕ
type_ = 1

abbrev pub variable_ : ℕ
variable_ = 2

abbrev pub namespace_ : ℕ
namespace_ = 4

unfoldable pub push_label_token : List RawToken → Range → ℕ → List RawToken
push_label_token raw range type_id =
    let length = range.end.character - range.start.character in
    if not (range.start.line == range.end.line)
    then raw
    else if length == 0
    then raw
    else record {
      line = range.start.line;
      character = range.start.character;
      length = length;
      type_id = type_id;
      modifiers = 0;
    }
      ∷ raw

-- `visit`: the token type of a symbol, if its kind gets a token.
abbrev pub symbol_type : SymbolKind → Option ℕ
symbol_type SymbolKind.variable = some variable_
symbol_type SymbolKind.local = some variable_
symbol_type SymbolKind.output = some variable_
symbol_type SymbolKind.resource = some type_
symbol_type SymbolKind.data_source = some type_
symbol_type SymbolKind.module_ = some namespace_
symbol_type SymbolKind.provider = none
symbol_type SymbolKind.terraform_block = none

abbrev pub visit_typed : List RawToken → Range → Option ℕ → List RawToken
visit_typed raw range none = raw
visit_typed raw range (some type_id) = push_label_token raw range type_id

abbrev pub visit : Symbol → List RawToken → List RawToken
visit sym raw = visit_typed raw sym.name_range (symbol_type sym.kind)

-- The pushes in order: what is pushed first stands first.
unfoldable pub label_tokens : List Symbol → List RawToken
unfolding push_label_token
label_tokens [] = []
label_tokens (sym ∷ symbols) = visit sym (label_tokens symbols)

abbrev pub reference_type : ReferenceKind → ℕ
reference_type (ReferenceKind.variable name) = variable_
reference_type (ReferenceKind.local name) = variable_
reference_type (ReferenceKind.module_ name) = namespace_
reference_type (ReferenceKind.resource resource_type name) = type_
reference_type (ReferenceKind.data_source resource_type name) = type_

unfoldable pub reference_width : Reference → ℕ
reference_width r =
    let range = range_of r.location in
    if range.start.line == range.end.line then range.end.character - range.start.character else 0

unfoldable pub from_range : Range → ℕ → ℕ → RawToken
from_range range type_id length = record {
  line = range.start.line;
  character = range.start.character;
  length = length;
  type_id = type_id;
  modifiers = 0;
}

unfoldable pub reference_token : Reference → RawToken
unfolding reference_width from_range
reference_token r = from_range (range_of r.location) (reference_type r.kind) (reference_width r)

unfoldable pub cmp_token : RawToken → RawToken → Ordering
cmp_token a b = then_with (compare a.line b.line) (compare a.character b.character)

-- The stable sort: `x` stays in front of what is not less.
unfoldable pub insert_token : RawToken → List RawToken → List RawToken
unfolding cmp_token
insert_token x [] = x ∷ []
insert_token x (y ∷ ys) =
    let on = insert_token x ys in if is_lt (cmp_token y x) then y ∷ on else x ∷ y ∷ ys

unfoldable pub sort_tokens : List RawToken → List RawToken
unfolding insert_token
sort_tokens [] = []
sort_tokens (x ∷ xs) = insert_token x (sort_tokens xs)

-- One turn of the loop of `encode_delta`.
unfoldable pub delta : ℕ → ℕ → RawToken → SemanticToken
delta prev_line prev_char t =
    let delta_line = t.line - prev_line in
    record {
      delta_line = delta_line;
      delta_start = if delta_line == 0 then t.character - prev_char else t.character;
      length = t.length;
      token_type = t.type_id;
      token_modifiers_bitset = t.modifiers;
    }

unfoldable pub encode_delta_from : ℕ → ℕ → List RawToken → List SemanticToken
unfolding delta
encode_delta_from prev_line prev_char [] = []
encode_delta_from prev_line prev_char (t ∷ tokens) =
    delta prev_line prev_char t ∷ encode_delta_from t.line t.character tokens

unfoldable pub encode_delta : List RawToken → List SemanticToken
unfolding encode_delta_from
encode_delta tokens = encode_delta_from 0 0 tokens

abbrev pub raw_tokens : List Symbol → List Reference → List RawToken
raw_tokens symbols references = label_tokens symbols ++ map reference_token references

unfoldable pub encode_tokens : List Symbol → List Reference → List SemanticToken
unfolding label_tokens reference_token sort_tokens encode_delta
encode_tokens symbols references = encode_delta (sort_tokens (raw_tokens symbols references))
