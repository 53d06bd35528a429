-- ===== src/Locals/Reported.antt =====
-- What crates/tfls-diag/src/cyclic_locals.rs reports.
use terraform_ls_rs.Base.{
  true, none, List, [], ◌∷◌, ◌≡◌, ◌↔◌, refl, ap, ◌∙◌, Bytes, bytes_eq, length, All, Bool-cases, inl,
  inr, arith,
}
use terraform_ls_rs.Base.Scan.{bytes_eq_iff}
use terraform_ls_rs.Locals.Search.{LocalDef, contains_key, find_cycle_from}
use terraform_ls_rs.Locals.Cycle.{Walk}
use terraform_ls_rs.Locals.Missed.{find_cycle_from-none}
use terraform_ls_rs.Locals.Report.{
  Diagnostic, Reports, report_from, sort_diagnostics, cyclic_locals_diagnostics,
}
use terraform_ls_rs.Locals.Sound.{IsReport, report_from-IsReport, All-sort_diagnostics}
use terraform_ls_rs.Locals.Silent.{length-sort_diagnostics, report_from-none, Walk-defined}

none_of :
    (defs names : List LocalDef) (name : Bytes)
    → All (λ (d : LocalDef). find_cycle_from d.name defs ≡ none) names
    → contains_key names name ≡ true
    → find_cycle_from name defs ≡ none
none_of defs [] name h k = absurd (ground arith)
none_of defs (d ∷ names) name h k = elim (Bool-cases (bytes_eq name d.name)) [
  | inl same ↦ ap (λ n. find_cycle_from n defs) ((bytes_eq_iff name d.name).0 same) ∙ h.0
  | inr other ↦ none_of defs names name h.1 (ground arith)
]

no_reports :
    (defs : List LocalDef) (out : List Diagnostic)
    → ((name : Bytes) (names : List Bytes) → ¬ (Walk defs name names name))
    → All (IsReport defs) out
    → out ≡ []
no_reports defs [] h k = refl
no_reports defs (d ∷ out) h ((member, [], def, e, m, c, cycle), k) = absurd cycle
no_reports defs (d ∷ out) h ((member, x ∷ names, def, e, m, c, cycle), k) = absurd (h x names cycle)

-- Each report is about a member of a cycle of locals, stands at the member's key, and names the
-- cycle. There is no report exactly when no name is on a cycle.
pub cyclic_locals_diagnostics-IsReport :
    (defs : List LocalDef)
    → All (IsReport defs) (cyclic_locals_diagnostics defs)
      × ((cyclic_locals_diagnostics defs ≡ [])
          ↔ ((name : Bytes) (names : List Bytes) → ¬ (Walk defs name names name)))
unfolding cyclic_locals_diagnostics
cyclic_locals_diagnostics-IsReport defs =
    let start : Reports = record { reported = []; out = [] } in
    let out = (report_from defs defs start).out in
    let reports : All (IsReport defs) (sort_diagnostics out) =
      All-sort_diagnostics (IsReport defs) out (report_from-IsReport defs defs start tt) in
    (
      reports,
      (
        λ e name names w.
            find_cycle_from-none name defs names
              (none_of defs defs name
                (report_from-none defs defs
                  (omega (arith, ap length e, length-sort_diagnostics out)))
                (Walk-defined defs name names name w))
              w,
        λ h. no_reports defs (sort_diagnostics out) h reports,
      ),
    )
