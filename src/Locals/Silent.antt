-- ===== src/Locals/Silent.antt =====
-- Without a report of crates/tfls-diag/src/cyclic_locals.rs no search found a cycle.
use terraform_ls_rs.Base.{
  suc, ◌≤◌, Bool, true, false, Option, none, some, Option-cases, List, [], ◌∷◌, ◌≡◌, refl, sym,
  subst, ap, ◌∙◌, if◌then◌else◌, Bytes, bytes_eq, length, length-append, All, Bool-cases, inl, inr,
  arith,
}
use terraform_ls_rs.Locals.Search.{LocalDef, contains, contains_key, find_cycle_from}
use terraform_ls_rs.Locals.Cycle.{Walk, IsCycle}
use terraform_ls_rs.Locals.Report.{
  Diagnostic, Reports, render_path, find_def, diagnostic, push_report, report_members, report_cycle,
  report_from, insert_diagnostic, sort_diagnostics,
}
use terraform_ls_rs.Locals.Sound.{find_cycle_from-IsCycle}

grows_if :
    (b : Bool) (r s : Reports)
    → length r.out ≤ length s.out
    → length r.out ≤ length (if b then r else s).out
grows_if true r s h = omega arith
grows_if false r s h = h

length-insert_diagnostic :
    (d : Diagnostic) (out : List Diagnostic) → length (insert_diagnostic d out) ≡ suc (length out)
unfolding insert_diagnostic
length-insert_diagnostic d [] = refl
length-insert_diagnostic d (e ∷ out) = ground (arith, length-insert_diagnostic d out)

pub length-sort_diagnostics : (out : List Diagnostic) → length (sort_diagnostics out) ≡ length out
unfolding sort_diagnostics
length-sort_diagnostics [] = refl
length-sort_diagnostics (d ∷ out) =
    omega (arith, length-insert_diagnostic d (sort_diagnostics out), length-sort_diagnostics out)

-- Reports are never taken back.
push_report-grows :
    (member rendered : Bytes) (o : Option LocalDef) (out : List Diagnostic)
    → length out ≤ length (push_report member rendered o out)
push_report-grows member rendered none out = omega arith
push_report-grows member rendered (some def) out =
    omega (arith, length-append out (diagnostic member rendered def ∷ []))

report_members-grows :
    (defs : List LocalDef) (rendered : Bytes) (members : List Bytes) (r : Reports)
    → length r.out ≤ length (report_members defs rendered members r).out
unfolding report_members
report_members-grows defs rendered [] r = omega arith
report_members-grows defs rendered (m ∷ members) r =
    let fresh : Reports = record {
      reported = m ∷ r.reported;
      out = push_report m rendered (find_def defs m) r.out;
    } in
    omega (
      arith,
      grows_if (contains r.reported m) r fresh
          (push_report-grows m rendered (find_def defs m) r.out),
      report_members-grows defs rendered members (if contains r.reported m then r else fresh),
    )

report_cycle-grows :
    (defs : List LocalDef) (o : Option (List Bytes)) (r : Reports)
    → length r.out ≤ length (report_cycle defs o r).out
report_cycle-grows defs none r = omega arith
report_cycle-grows defs (some path) r = report_members-grows defs (render_path path) path r

report_from-grows :
    (defs names : List LocalDef) (r : Reports)
    → length r.out ≤ length (report_from defs names r).out
unfolding report_from
report_from-grows defs [] r = omega arith
report_from-grows defs (d ∷ names) r =
    let next = report_cycle defs (find_cycle_from d.name defs) r in
    omega (
      arith,
      grows_if (contains r.reported d.name) r next
          (report_cycle-grows defs (find_cycle_from d.name defs) r),
      report_from-grows defs names (if contains r.reported d.name then r else next),
    )

push_report-some :
    (member rendered : Bytes) (o : Option LocalDef) (def : LocalDef) (out : List Diagnostic)
    → o ≡ some def
    → 1 ≤ length (push_report member rendered o out)
push_report-some member rendered none def out e = absurd (ground arith)
push_report-some member rendered (some d) def out e =
    omega (arith, length-append out (diagnostic member rendered d ∷ []))

find_def-defined :
    (defs : List LocalDef) (name : Bytes)
    → contains_key defs name ≡ true
    → (def : LocalDef) × (find_def defs name ≡ some def)
unfolding find_def
find_def-defined [] name h = absurd (ground arith)
find_def-defined (d ∷ defs) name h = elim (Bool-cases (bytes_eq name d.name)) [
  | inl same ↦ (d, rw same refl)
  | inr other ↦ let (def, e) = find_def-defined defs name (ground arith) in (def, rw other e)
]

pub Walk-defined :
    (defs : List LocalDef) (a : Bytes) (names : List Bytes) (b : Bytes)
    → Walk defs a names b
    → contains_key defs b ≡ true
Walk-defined defs a [] b h = h.1
Walk-defined defs a (x ∷ names) b h = Walk-defined defs x names b h.1

-- A cycle gives a report.
report_members-cycle :
    (defs : List LocalDef) (rendered : Bytes) (path : List Bytes)
    → IsCycle defs path
    → 1 ≤ length (report_members defs rendered path (record { reported = []; out = [] })).out
unfolding report_members
report_members-cycle defs rendered [] h = absurd h
report_members-cycle defs rendered (x ∷ names) h =
    let (def, e) = find_def-defined defs x (Walk-defined defs x names x h) in
    omega (
      arith,
      push_report-some x rendered (find_def defs x) def [] e,
      report_members-grows defs rendered names
          (record { reported = x ∷ []; out = push_report x rendered (find_def defs x) [] }),
    )

-- Without a report no search found a cycle.
pub report_from-none :
    (defs names : List LocalDef)
    → length (report_from defs names (record { reported = []; out = [] })).out ≡ 0
    → All (λ (d : LocalDef). find_cycle_from d.name defs ≡ none) names
unfolding report_from
report_from-none defs [] h = tt
report_from-none defs (d ∷ names) h = elim (Option-cases (find_cycle_from d.name defs)) [
  | inl e ↦ (
    e,
    report_from-none defs names (
        ap
          (λ o.
            length
              (report_from defs names
                (report_cycle defs o (record { reported = []; out = [] }))).out)
          (sym e)
        ∙ h),
  )
  | inr (path, e) ↦
      let start : Reports = record { reported = []; out = [] } in
      let first : 1 ≤ length (report_cycle defs (find_cycle_from d.name defs) start).out =
        subst (λ o. 1 ≤ length (report_cycle defs o start).out) (sym e)
          (report_members-cycle defs (render_path path) path
            (find_cycle_from-IsCycle defs d.name path e)) in
      absurd (
        omega (
          arith,
          first,
          h,
          report_from-grows defs names (report_cycle defs (find_cycle_from d.name defs) start),
        ))
]
