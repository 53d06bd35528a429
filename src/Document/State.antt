-- ===== src/Document/State.antt =====
-- `DocumentState`, crates/tfls-state/src/document.rs: its construction, and the changes that the
-- editor sends. A method that changes the document returns it with its result.
use terraform_ls_rs.Base.{
  ℕ, ltb, Bool, Option, none, some, List, [], ◌∷◌, if◌then◌else◌, Result, ok, err, Bytes,
}
use terraform_ls_rs.Base.Int.{ℤ, pos, leb_ℤ}
use terraform_ls_rs.Symbols.{Range, Symbol, SymbolTable, Reference}
use terraform_ls_rs.Document.Rope.{Ropey}
use terraform_ls_rs.Document.Position.{LineOutOfBounds, lsp_position_to_byte_offset}

pub record TextEdit : Type 0 where
  pub range : Range
  pub new_text : Bytes

pub record FormatCacheEntry : Type 0 where
  pub version : ℤ
  pub style_marker : ℕ
  pub edit : Option TextEdit

pub record TextDocumentContentChangeEvent : Type 0 where
  pub range : Option Range
  pub text : Bytes

-- `StateError::EditApplication`, with its source.
pub record EditApplication : Type 0 where
  pub uri : Bytes
  pub source : LineOutOfBounds

-- How the edit of a range fails: an end is out of bounds, or `remove` panics since the range ends
-- before it starts.
pub data EditFailure : Type 0 where
  out_of_bounds : LineOutOfBounds → EditFailure
  reversed_range : EditFailure

-- How a change fails: with an error of the program, or by a panic, which nothing between the
-- rope and the caller of the store catches.
pub data ChangeFailure : Type 0 where
  edit_application : EditApplication → ChangeFailure
  panicked : ChangeFailure

-- The parser of hcl_edit and the analysis of its tree: a file, whether it has a body, and what is
-- found in it.
pub record Frontend (Rope Parsed : Type 0) : Type 0 where
  pub parse_source : Bytes → Bytes → Parsed
  pub has_body : Parsed → Bool
  pub no_body : Parsed
  pub compute_analysis : Parsed → Bytes → Rope → SymbolTable × List Reference × List Symbol

pub record DocumentState (Rope Parsed : Type 0) : Type 0 where
  pub uri : Bytes
  pub rope : Rope
  pub version : ℤ
  pub parsed : Parsed
  pub symbols : SymbolTable
  pub references : List Reference
  pub test_runs : List Symbol
  pub format_cache : Option FormatCacheEntry

module _ {Rope Parsed : Type 0} (ropey : Ropey Rope) (frontend : Frontend Rope Parsed) where
  unfoldable pub new : Bytes → Bytes → ℤ → DocumentState Rope Parsed
  new uri text version =
      let rope = ropey.from_str text in
      let parsed = frontend.parse_source text uri in
      let (symbols, references, test_runs) = frontend.compute_analysis parsed uri rope in
      record {
        uri = uri;
        rope = rope;
        version = version;
        parsed = parsed;
        symbols = symbols;
        references = references;
        test_runs = test_runs;
        format_cache = none;
      }

  unfoldable pub hydrated_from_cache :
      Bytes → Bytes → SymbolTable → List Reference → DocumentState Rope Parsed
  hydrated_from_cache uri text symbols references = record {
    uri = uri;
    rope = ropey.from_str text;
    version = pos 0;
    parsed = frontend.no_body;
    symbols = symbols;
    references = references;
    test_runs = [];
    format_cache = none;
  }

  -- The text `text` in place of the bytes from `start` to `end`.
  unfoldable pub replaced : Rope → ℕ → ℕ → Bytes → Result Rope EditFailure
  replaced rope start end text =
      let start_char = ropey.byte_to_char rope start in
      let end_char = ropey.byte_to_char rope end in
      if ltb end_char start_char
      then err reversed_range
      else ok (ropey.insert (ropey.remove rope start_char end_char) start_char text)

  -- The rope after a change of a range, whose two ends are converted first.
  abbrev pub edited_range :
      Rope → Bytes → Result ℕ LineOutOfBounds → Result ℕ LineOutOfBounds → Result Rope EditFailure
  edited_range rope text (err source) end = err (out_of_bounds source)
  edited_range rope text (ok start) (err source) = err (out_of_bounds source)
  edited_range rope text (ok start) (ok end) = replaced rope start end text

  abbrev pub edited : Rope → Bytes → Option Range → Result Rope EditFailure
  edited rope text none = ok (ropey.from_str text)
  edited rope text (some range) =
      edited_range rope text (lsp_position_to_byte_offset ropey rope range.start)
        (lsp_position_to_byte_offset ropey rope range.end)

  -- What `apply_change` does with the edited rope.
  abbrev pub with_rope :
      DocumentState Rope Parsed
      → Result Rope EditFailure
      → DocumentState Rope Parsed × Result (Unit {0}) ChangeFailure
  with_rope doc (err (out_of_bounds source)) =
      (doc, err (edit_application (record { uri = doc.uri; source = source })))
  with_rope doc (err reversed_range) = (doc, err panicked)
  with_rope doc (ok rope) = (record doc { rope = rope; format_cache = none }, ok tt)

  unfoldable pub apply_change :
      DocumentState Rope Parsed
      → TextDocumentContentChangeEvent
      → DocumentState Rope Parsed × Result (Unit {0}) ChangeFailure
  unfolding replaced lsp_position_to_byte_offset
  apply_change doc change = with_rope doc (edited doc.rope change.text change.range)

  -- The loop over the changes, which the first error ends.
  abbrev pub then_changes :
      DocumentState Rope Parsed × Result (Unit {0}) ChangeFailure
      → (DocumentState Rope Parsed → DocumentState Rope Parsed × Result (Unit {0}) ChangeFailure)
      → DocumentState Rope Parsed × Result (Unit {0}) ChangeFailure
  then_changes (doc, err e) rest = (doc, err e)
  then_changes (doc, ok _) rest = rest doc

  unfoldable pub apply_changes :
      List TextDocumentContentChangeEvent
      → DocumentState Rope Parsed
      → DocumentState Rope Parsed × Result (Unit {0}) ChangeFailure
  unfolding apply_change
  apply_changes [] doc = (doc, ok tt)
  apply_changes (change ∷ changes) doc =
      then_changes (apply_change doc change) (apply_changes changes)

  abbrev pub advanced :
      ℤ
      → DocumentState Rope Parsed × Result (Unit {0}) ChangeFailure
      → DocumentState Rope Parsed × Result (Option ℤ) ChangeFailure
  advanced version (doc, err e) = (doc, err e)
  advanced version (doc, ok _) = (record doc { version = version }, ok (some version))

  unfoldable pub apply_versioned_changes :
      DocumentState Rope Parsed
      → ℤ
      → List TextDocumentContentChangeEvent
      → DocumentState Rope Parsed × Result (Option ℤ) ChangeFailure
  unfolding apply_changes
  apply_versioned_changes doc version changes =
      if leb_ℤ version doc.version
      then (doc, ok none)
      else advanced version (apply_changes changes doc)

  unfoldable pub reparse : DocumentState Rope Parsed → DocumentState Rope Parsed
  reparse doc =
      let parsed = frontend.parse_source (ropey.to_string doc.rope) doc.uri in
      let (symbols, references, test_runs) = frontend.compute_analysis parsed doc.uri doc.rope in
      if frontend.has_body parsed
      then record doc {
        parsed = parsed;
        symbols = symbols;
        references = references;
        test_runs = test_runs;
      }
      else record doc { parsed = parsed }
