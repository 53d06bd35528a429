-- ===== src/Lib.antt =====
-- terraform-ls-rs, a language server for Terraform and OpenTofu: the parts that decide something.
--
-- The server parses `.tf` files (crates/tfls-parser), keeps documents, symbols and background work
-- in a store (crates/tfls-state), infers types and checks versions (crates/tfls-core), turns both
-- into diagnostics (crates/tfls-diag) and answers the editor (crates/tfls-lsp).
--
-- Modelled, file by file:
-- + Base: what all parts share. Text is its UTF-8 bytes (`Bytes`); Base.Text has the functions of
--   `str` that the code calls, Base.Order the derived `Ord` of Rust and its laws.
-- + Version: crates/tfls-core/src/version_constraint.rs. Version.Constraint is its data,
--   Version.Parse is `parse`, Version.Cursor is `cursor_slot`, Version.Key is `version_key` with the
--   derived order of `VersionKey`, Version.Satisfy is the evaluation of constraints. A slice out of
--   range is a panic, `none`. An error message is the constructor that names its format string, with
--   the parts put into it. These loops need no fuel: all walk the text or a list.
--   `cursor_slot` takes an offset between two characters: inside one the slice of the code panics.
-- + Jobs: crates/tfls-state/src/jobs.rs. Jobs.Queue has the locked state `Inner` and its operations,
--   each one step; Jobs.Idle has the histories of calls and Jobs.Taken the jobs
--   that a sequence of calls returns. The order inside the heap, which
--   `BinaryHeap` leaves open, is that of a list from which `pop` takes a greatest entry. The wait of
--   `next` on tokio's `Notify` is not modelled: it calls `try_next` until a job comes. A
--   `PathBuf` is the list of its components, which its equality compares.
-- + Types: crates/tfls-core/src/variable_type.rs. Types.Shape is `VariableType` with `Display`,
--   Types.Satisfy and Types.Explain are `satisfies` and `explain_mismatch`, Types.MergeShapes is
--   `merge_shapes`, Types.MergeTypes `merge_types`, on fuel one above the depths of the two types,
--   which each level of the recursion takes one of. A `BTreeMap` is the list of its entries in the
--   order of the keys. The functions that read parsed expressions of hcl_edit are not modelled.
-- + Git: crates/tfls-core/src/git_ref.rs. Git.Sha and Git.Ref are its functions. The semver crate is
--   the parameter `Semver`: the parser, the order of versions and whether one is a pre-release. The
--   sorts of the standard library are stable insertion sorts.
-- + Source: crates/tfls-diag/src/git_source.rs. Source.RefValue is `ref_value_with_span` and the two
--   functions that call it. The text functions find whole ASCII markers, so that the slices are at
--   the boundaries of characters.
-- + Tokens: crates/tfls-lsp/src/handlers/semantic_tokens.rs. Tokens.Encode is `encode_tokens`,
--   Tokens.Decode is what the Language Server Protocol says that an editor reads.
-- + Symbols: the records of crates/tfls-core/src/types.rs and crates/tfls-parser/src/references.rs.
-- + Document: crates/tfls-state/src/document.rs (Document.State) and the conversions of
--   crates/tfls-parser/src/position.rs (Document.Position), in which a panic is no value; a slice
--   panics inside a character. In Document.State the panic of `remove` at a reversed range is the
--   failure `panicked`. The ropey crate is the parameter `Ropey`; the parser of hcl_edit and the
--   analysis of its tree are the parameter `Frontend`.
-- + Store: crates/tfls-state/src/store.rs. Store.Index has the two indexes, Store.State the mutators,
--   each of which runs under one lock and is one step; Store.History has the histories of calls. A
--   concurrent map is the function that looks a key up. `upsert_document_unless_open` asks whether
--   the document is open before it takes the lock: where it opens in between, the call is the step
--   `upsert_document`.
-- + Keys: crates/tfls-diag/src/map_duplicate_keys.rs. Keys.Quoted is `read_string`, Keys.Heredoc
--   `skip_heredoc`, Keys.Extract the scan of an object literal. The scanners work on the text that is
--   left; their fuel is its length and one more, of which each turn takes one, and it is enough
--   because each turn steps over at least one byte.
-- + Locals: crates/tfls-diag/src/cyclic_locals.rs. Locals.Search is `find_cycle_from` and `dfs`,
--   on the locals and the names that their values refer to, and Locals.Report the loops that report
--   cycles. The fuel of a search is one more than the locals, and it is enough because each call
--   below the first marks a local that was not marked.
-- + Json: crates/tfls-parser/src/json.rs. Json.Write is the writer, Json.Document `parse_json_source`;
--   serde_json and the parser of HCL are parameters. Json.Text has the text that is written as a
--   function of the value, Json.Read a reader of HCL literals, on fuel for each part of a value, and
--   Json.Conform the documents that are converted without an error.
-- + Frames: the scans of crates/tfls-core/src/completion.rs for strings, heredocs and interpolations.
--   Frames.Heredoc has the lines that open and close a heredoc, Frames.Scan the machine,
--   and Frames.Comments the one that finds comments. A round is
--   one step of the loop over the text that is left, and the fuel is the length of the text, which is
--   enough because each round steps over a byte. A depth is a natural number where the code has a
--   `u32`; it is at most the length of the text.
--
-- Not modelled: the HCL syntax tree and its traversals, which come from the hcl_edit crate, the
-- request handlers of crates/tfls-lsp, and all input and output (files, sockets, provider plugins).
--
-- Numbers are the native ℕ. A `usize` that counts bytes of a text in memory is unbounded here; `i64`
-- and `u64` segments of a version are bounded where the code parses them.
pub mod Base
pub mod Document
pub mod Store
pub mod Symbols
pub mod Version
pub mod Frames
pub mod Git
pub mod Jobs
pub mod Json
pub mod Keys
pub mod Locals
pub mod Types
pub mod Source
pub mod Tokens
