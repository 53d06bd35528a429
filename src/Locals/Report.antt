-- ===== src/Locals/Report.antt =====
-- The reports on cycles, crates/tfls-diag/src/cyclic_locals.rs, from the locals of a file.
use terraform_ls_rs.Base.{
  Bool, ◌&&◌, ◌||◌, Option, none, some, List, [], ◌∷◌, ◌++◌, map, ◌==◌, ltb, if◌then◌else◌, Bytes,
  bytes_eq, codes,
}
use terraform_ls_rs.Symbols.{Range}
use terraform_ls_rs.Locals.Search.{LocalDef, contains, find_cycle_from, dfs}

-- The fields of `lsp_types::Diagnostic` that differ between the reports.
pub record Diagnostic : Type 0 where
  pub range : Range
  pub message : Bytes

-- `parts.join(" -> ")`.
unfoldable pub join : List Bytes → Bytes
join [] = []
join (part ∷ []) = part
join (part ∷ next ∷ parts) = part ++ (codes " -> " ++ join (next ∷ parts))

abbrev pub close_loop : List Bytes → List Bytes
close_loop [] = []
close_loop (first ∷ parts) = (first ∷ parts) ++ (first ∷ [])

unfoldable pub render_path : List Bytes → Bytes
unfolding join
render_path path = join (close_loop (map (λ (n : Bytes). codes "local." ++ n) path))

unfoldable pub find_def : List LocalDef → Bytes → Option LocalDef
find_def [] name = none
find_def (d ∷ defs) name = if bytes_eq name d.name then some d else find_def defs name

abbrev pub diagnostic : Bytes → Bytes → LocalDef → Diagnostic
diagnostic member rendered def = record {
  range = def.range;
  message = codes "`local." ++ (member ++ (codes "` is part of a dependency cycle: " ++ rendered));
}

abbrev pub push_report : Bytes → Bytes → Option LocalDef → List Diagnostic → List Diagnostic
push_report member rendered none out = out
push_report member rendered (some def) out = out ++ (diagnostic member rendered def ∷ [])

-- The names that were reported, and the reports.
pub record Reports : Type 0 where
  pub reported : List Bytes
  pub out : List Diagnostic

-- The loop over the members of a cycle.
unfoldable pub report_members : List LocalDef → Bytes → List Bytes → Reports → Reports
unfolding find_def
report_members defs rendered [] r = r
report_members defs rendered (member ∷ path) r =
    let fresh : Reports = record {
      reported = member ∷ r.reported;
      out = push_report member rendered (find_def defs member) r.out;
    } in
    report_members defs rendered path (if contains r.reported member then r else fresh)

abbrev pub report_cycle : List LocalDef → Option (List Bytes) → Reports → Reports
report_cycle defs none r = r
report_cycle defs (some path) r = report_members defs (render_path path) path r

-- The loop over the names.
unfoldable pub report_from : List LocalDef → List LocalDef → Reports → Reports
unfolding report_members render_path dfs
report_from defs [] r = r
report_from defs (d ∷ names) r =
    report_from defs names
      (if contains r.reported d.name then r else report_cycle defs (find_cycle_from d.name defs) r)

-- The key of the sort: the start of the range.
abbrev pub before_key : Diagnostic → Diagnostic → Bool
before_key a b =
    ltb a.range.start.line b.range.start.line
    || a.range.start.line == b.range.start.line
      && ltb a.range.start.character b.range.start.character

-- The stable sort: a report stays in front of those that are not less.
unfoldable pub insert_diagnostic : Diagnostic → List Diagnostic → List Diagnostic
insert_diagnostic d [] = d ∷ []
insert_diagnostic d (e ∷ out) =
    let rest = insert_diagnostic d out in if before_key e d then e ∷ rest else d ∷ e ∷ out

unfoldable pub sort_diagnostics : List Diagnostic → List Diagnostic
unfolding insert_diagnostic
sort_diagnostics [] = []
sort_diagnostics (d ∷ out) = insert_diagnostic d (sort_diagnostics out)

-- `cyclic_locals_diagnostics`, for the locals that `collect_locals` finds. Without a local the loop
-- has no round.
unfoldable pub cyclic_locals_diagnostics : List LocalDef → List Diagnostic
unfolding report_from sort_diagnostics
cyclic_locals_diagnostics defs =
    sort_diagnostics (report_from defs defs (record { reported = []; out = [] })).out
