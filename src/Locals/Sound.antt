-- ===== src/Locals/Sound.antt =====
-- Every report of crates/tfls-diag/src/cyclic_locals.rs is about a cycle.
use terraform_ls_rs.Base.{
  Bool, true, false, Option, none, some, List, [], ◌∷◌, ◌≡◌, refl, subst, if◌then◌else◌, Bytes, All,
  All-append, Bool-cases, inl, inr, arith,
}
use terraform_ls_rs.Locals.Search.{
  LocalDef, Outcome, cyclic, acyclic, out_of_fuel, contains, nothing, search_from, found,
  find_cycle_from,
}
use terraform_ls_rs.Locals.Cycle.{IsCycle}
use terraform_ls_rs.Locals.Unvisited.{contains-All}
use terraform_ls_rs.Locals.Ends.{Right, search_from-Right}
use terraform_ls_rs.Locals.Report.{
  Diagnostic, Reports, render_path, find_def, diagnostic, push_report, report_members, report_cycle,
  report_from, before_key, insert_diagnostic, sort_diagnostics,
}

-- The report is about a local on a cycle, stands at its key and names the cycle.
abbrev pub IsReport : List LocalDef → Diagnostic → Type 0
IsReport defs d =
    (member : Bytes) × (path : List Bytes) × (def : LocalDef) × (find_def defs member ≡ some def)
    × (d ≡ diagnostic member (render_path path) def)
    × (contains path member ≡ true)
    × IsCycle defs path

found-IsCycle :
    (defs : List LocalDef) (o : Outcome) (path : List Bytes)
    → found o ≡ some path
    → Right defs nothing o
    → IsCycle defs path
found-IsCycle defs (cyclic p) path e h = subst (IsCycle defs) (ground arith) h
found-IsCycle defs (acyclic s) path e h = absurd (ground arith)
found-IsCycle defs out_of_fuel path e h = absurd h

push_report-IsReport :
    (defs : List LocalDef) (path : List Bytes) (member : Bytes) (o : Option LocalDef)
    (out : List Diagnostic)
    → find_def defs member ≡ o
    → contains path member ≡ true
    → IsCycle defs path
    → All (IsReport defs) out
    → All (IsReport defs) (push_report member (render_path path) o out)
push_report-IsReport defs path member none out e c h k = k
push_report-IsReport defs path member (some def) out e c h k =
    All-append (IsReport defs) out (diagnostic member (render_path path) def ∷ []) k
      ((member, path, def, e, refl, c, h), tt)

All-if :
    (P : Diagnostic → Type 0) (b : Bool) (r s : Reports)
    → All P r.out
    → All P s.out
    → All P (if b then r else s).out
All-if P true r s h k = h
All-if P false r s h k = k

report_members-IsReport :
    (defs : List LocalDef) (path members : List Bytes) (r : Reports)
    → IsCycle defs path
    → All (λ m. contains path m ≡ true) members
    → All (IsReport defs) r.out
    → All (IsReport defs) (report_members defs (render_path path) members r).out
unfolding report_members
report_members-IsReport defs path [] r h c k = k
report_members-IsReport defs path (m ∷ members) r h c k =
    let fresh : Reports = record {
      reported = m ∷ r.reported;
      out = push_report m (render_path path) (find_def defs m) r.out;
    } in
    report_members-IsReport defs path members (if contains r.reported m then r else fresh) h c.1 (
      All-if (IsReport defs) (contains r.reported m) r fresh k
        (push_report-IsReport defs path m (find_def defs m) r.out refl c.0 h k))

report_cycle-IsReport :
    (defs : List LocalDef) (o : Option (List Bytes)) (r : Reports)
    → ((path : List Bytes) → o ≡ some path → IsCycle defs path)
    → All (IsReport defs) r.out
    → All (IsReport defs) (report_cycle defs o r).out
report_cycle-IsReport defs none r h k = k
report_cycle-IsReport defs (some path) r h k =
    report_members-IsReport defs path path r (h path refl) (contains-All path path (λ d e. e)) k

pub find_cycle_from-IsCycle :
    (defs : List LocalDef) (name : Bytes) (path : List Bytes)
    → find_cycle_from name defs ≡ some path
    → IsCycle defs path
find_cycle_from-IsCycle defs name path e =
    found-IsCycle defs (search_from defs name) path e (search_from-Right defs name)

pub report_from-IsReport :
    (defs names : List LocalDef) (r : Reports)
    → All (IsReport defs) r.out
    → All (IsReport defs) (report_from defs names r).out
unfolding report_from
report_from-IsReport defs [] r k = k
report_from-IsReport defs (d ∷ names) r k =
    let next = report_cycle defs (find_cycle_from d.name defs) r in
    report_from-IsReport defs names (if contains r.reported d.name then r else next) (
      All-if (IsReport defs) (contains r.reported d.name) r next k (
        report_cycle-IsReport defs (find_cycle_from d.name defs) r
          (find_cycle_from-IsCycle defs d.name) k))

All-insert_diagnostic :
    (P : Diagnostic → Type 0) (d : Diagnostic) (out : List Diagnostic)
    → P d
    → All P out
    → All P (insert_diagnostic d out)
unfolding insert_diagnostic
All-insert_diagnostic P d [] h k = (h, tt)
All-insert_diagnostic P d (e ∷ out) h k = elim (Bool-cases (before_key e d)) [
  | inl less ↦ rw less (k.0, All-insert_diagnostic P d out h k.1)
  | inr other ↦ rw other (h, k)
]

pub All-sort_diagnostics :
    (P : Diagnostic → Type 0) (out : List Diagnostic) → All P out → All P (sort_diagnostics out)
unfolding sort_diagnostics
All-sort_diagnostics P [] h = tt
All-sort_diagnostics P (d ∷ out) h =
    All-insert_diagnostic P d (sort_diagnostics out) h.0 (All-sort_diagnostics P out h.1)
