-- ===== src/Store/Tests.antt =====
-- Runs of the document and store models over ASCII text, and the theorems at a store of one
-- document.
use terraform_ls_rs.Base.{
  is_char_boundary, starts_char, false, not, none, some, [], ◌∷◌, ◌≡◌, refl, ok, err, arith, Bytes,
  bytes_eq, codes, is_empty,
}
use terraform_ls_rs.Base.Int.{pos}
use terraform_ls_rs.Symbols.{
  SymbolKind, SymbolLocation, SymbolTable, SymbolKey, key_eq, kind_eq, range_of,
}
use terraform_ls_rs.Document.Ascii.{boundary, ascii}
use terraform_ls_rs.Document.Position.{
  line_starts_after, line_start_bytes, visible_chars, byte_in_line, offset_in_line,
  lsp_position_to_byte_offset,
}
use terraform_ls_rs.Document.State.{
  Frontend, DocumentState, TextDocumentContentChangeEvent, ChangeFailure, edit_application, new,
  replaced, apply_change, apply_changes, apply_versioned_changes, reparse,
}
use terraform_ls_rs.Document.Versions.{with_text, apply_versioned_changes_comm}
use terraform_ls_rs.Store.Index.{
  push, push_symbols, symbol_keys, add_definitions, add_references, definition_keys, reference_keys,
  retain_keys, drop_empty, without,
}
use terraform_ls_rs.Store.Entries.{of_uri}
use terraform_ls_rs.Store.State.{
  StateStore, add_to_indexes, remove_from_indexes, insert_document, upsert_document,
  apply_and_reparse_document,
}
use terraform_ls_rs.Store.Consistent.{IsLocated, IsConsistent}
use terraform_ls_rs.Store.History.{Locates, here, next, upserts}
use terraform_ls_rs.Store.Preserved.{Reach-IsConsistent}
use terraform_ls_rs.Store.Refused.{IsLost, apply_and_reparse_document-IsLost}

abbrev first_line : Bytes → SymbolLocation
first_line uri = record {
  uri = uri;
  start_line = 0;
  start_character = 0;
  end_line = 0;
  end_character = 1;
}

abbrev no_symbols : SymbolTable
no_symbols = record {
  variables = [];
  locals = [];
  outputs = [];
  resources = [];
  data_sources = [];
  modules = [];
}

-- A file that is not empty declares the variable that its text names.
abbrev analysed : Bytes → Bytes → SymbolTable
analysed [] uri = no_symbols
analysed (b ∷ text) uri = record no_symbols {
  variables =
      (
        b ∷ text,
        record {
          name = b ∷ text;
          kind = SymbolKind.variable;
          location = first_line uri;
          name_range = range_of (first_line uri);
          detail = none;
          doc = none;
        },
      )
      ∷ [];
}

abbrev plain : Frontend Bytes Bytes
plain = record {
  parse_source = λ text uri. text;
  has_body = λ parsed. not (is_empty parsed);
  no_body = [];
  compute_analysis = λ parsed uri rope. (analysed parsed uri, [], []);
}

abbrev main : Bytes
main = codes "file:///main.tf"

-- The document of the text `region`, at version 1.
abbrev region : DocumentState Bytes Bytes
region = record {
  uri = main;
  rope = codes "region";
  version = pos 1;
  parsed = codes "region";
  symbols = analysed (codes "region") main;
  references = [];
  test_runs = [];
  format_cache = none;
}

abbrev empty : StateStore Bytes Bytes
empty = record {
  documents = λ uri. none;
  definitions_by_name = λ k. none;
  references_by_name = λ k. none;
  open_docs = λ uri. false;
}

abbrev region_key : SymbolKey
region_key = record { kind = SymbolKind.variable; name = codes "region" }

program : Unit {0}
unfolding new apply_change apply_changes apply_versioned_changes replaced reparse line_starts_after
    line_start_bytes lsp_position_to_byte_offset visible_chars byte_in_line offset_in_line boundary
    is_char_boundary starts_char push push_symbols symbol_keys add_definitions add_references
    definition_keys reference_keys retain_keys drop_empty without add_to_indexes remove_from_indexes
    insert_document upsert_document apply_and_reparse_document bytes_eq key_eq kind_eq
program = tt

new-region : new ascii plain main (codes "region") (pos 1) ≡ region
unfolding program
new-region = refl

-- The fourth character of the second line.
second_line :
    lsp_position_to_byte_offset ascii (codes "ab\ncdefg\n") (record { line = 1; character = 3 })
    ≡ ok 6
unfolding program
second_line = refl

-- A column past the end of a line is its end.
past_end :
    lsp_position_to_byte_offset ascii (codes "ab\ncd\n") (record { line = 0; character = 9 }) ≡ ok 2
unfolding program
past_end = refl

indexed :
    (upsert_document region empty).definitions_by_name region_key ≡ some (first_line main ∷ [])
unfolding program
indexed = refl

abbrev out_of_bounds : TextDocumentContentChangeEvent
out_of_bounds = record {
  range = some (record {
    start = record { line = 9; character = 0 };
    end = record { line = 9; character = 0 };
  });
  text = codes "x";
}

abbrev refused : ChangeFailure
refused = edit_application (record { uri = main; source = record { line = 9; total_lines = 1 } })

is_refused :
    (apply_and_reparse_document ascii plain main
      (pos 2)
      (out_of_bounds ∷ [])
      (upsert_document region empty)).1
    ≡ err refused
unfolding program
is_refused = refl

empty-IsConsistent : IsConsistent empty
unfolding of_uri
empty-IsConsistent = record {
  located_in = λ uri. tt;
  definitions = λ uri k. refl;
  references = λ uri k. refl;
}

region-IsLocated : IsLocated main region
region-IsLocated = record { keyed = refl; definitions_in = (refl, tt); references_in = tt }

plain-Locates : Locates ascii plain
plain-Locates [] uri rope = (tt, tt)
plain-Locates (b ∷ text) uri rope = ((refl, tt), tt)

upserted-IsConsistent : IsConsistent (upsert_document region empty)
upserted-IsConsistent =
    Reach-IsConsistent ascii plain plain-Locates empty-IsConsistent
      (next here (upserts empty region region-IsLocated))

apply_versioned_changes_comm_example :
    with_text ascii plain (pos 3) (codes "a") (with_text ascii plain (pos 2) (codes "b") region)
    ≡ with_text ascii plain (pos 2) (codes "b") (with_text ascii plain (pos 3) (codes "a") region)
apply_versioned_changes_comm_example =
    apply_versioned_changes_comm ascii plain (pos 3) (pos 2) (codes "a") (codes "b") region
      (ground arith)

Reach-IsConsistent_example : IsConsistent (upsert_document region empty)
Reach-IsConsistent_example =
    Reach-IsConsistent ascii plain plain-Locates empty-IsConsistent
      (next here (upserts empty region region-IsLocated))

apply_and_reparse_document-IsLost_example :
    IsLost ascii plain main
      (apply_and_reparse_document ascii plain main
        (pos 2)
        (out_of_bounds ∷ [])
        (upsert_document region empty)).0
apply_and_reparse_document-IsLost_example =
    apply_and_reparse_document-IsLost ascii plain main (pos 2) (out_of_bounds ∷ [])
      (upsert_document region empty) refused upserted-IsConsistent is_refused
