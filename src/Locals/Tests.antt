-- ===== src/Locals/Tests.antt =====
-- Runs of the search for a cycle, and its theorem at three locals.
use terraform_ls_rs.Base.{ℕ, none, some, All, Bytes, ◌↔◌, List, [], ◌∷◌, ◌≡◌, refl, bytes_eq, codes}
use terraform_ls_rs.Locals.Search.{
  LocalDef, deps_of, position, remove, pop, visit_deps, dfs, nothing, search_from, find_cycle_from,
}
use terraform_ls_rs.Symbols.{Range}
use terraform_ls_rs.Locals.Cycle.{Walk}
use terraform_ls_rs.Locals.Report.{
  render_path, join, find_def, report_members, report_from, insert_diagnostic, sort_diagnostics,
  cyclic_locals_diagnostics,
}
use terraform_ls_rs.Locals.Sound.{IsReport}
use terraform_ls_rs.Locals.Reported.{cyclic_locals_diagnostics-IsReport}
use terraform_ls_rs.Locals.Ends.{Right, search_from-Right}

program : Unit {0}
unfolding bytes_eq deps_of position remove pop visit_deps dfs render_path join find_def
    report_members report_from insert_diagnostic sort_diagnostics cyclic_locals_diagnostics
program = tt

abbrev line_range : ℕ → Range
line_range line = record {
  start = record { line = line; character = 2 };
  end = record { line = line; character = 3 };
}

-- `d` is on no cycle, but refers to `a`, which is on a cycle with `b`; `c` refers to no local.
abbrev locals : List LocalDef
locals =
    record { name = codes "d"; deps = codes "c" ∷ codes "a" ∷ []; range = line_range 1 }
    ∷ record {
      name = codes "a";
      deps = codes "c" ∷ codes "x" ∷ codes "b" ∷ [];
      range = line_range 2;
    }
    ∷ record { name = codes "b"; deps = codes "c" ∷ codes "a" ∷ []; range = line_range 3 }
    ∷ record { name = codes "c"; deps = []; range = line_range 4 }
    ∷ []

from_d : find_cycle_from (codes "d") locals ≡ some (codes "a" ∷ codes "b" ∷ [])
unfolding program
from_d = refl

from_b : find_cycle_from (codes "b") locals ≡ some (codes "b" ∷ codes "a" ∷ [])
unfolding program
from_b = refl

from_c : find_cycle_from (codes "c") locals ≡ none
unfolding program
from_c = refl

-- `e` and `f` refer to one another and `g` to itself. The search from `f` finds the cycle of `g`, so
-- that nothing is reported at `e` and `f`.
abbrev hidden : List LocalDef
hidden =
    record { name = codes "e"; deps = codes "f" ∷ []; range = line_range 1 }
    ∷ record { name = codes "f"; deps = codes "g" ∷ codes "e" ∷ []; range = line_range 2 }
    ∷ record { name = codes "g"; deps = codes "g" ∷ []; range = line_range 3 }
    ∷ []

hidden_reports :
    cyclic_locals_diagnostics hidden
    ≡ record {
      range = line_range 3;
      message = codes "`local.g` is part of a dependency cycle: local.g -> local.g";
    }
      ∷ []
unfolding program
hidden_reports = refl

cyclic_locals_diagnostics-IsReport_example :
    All (IsReport hidden) (cyclic_locals_diagnostics hidden)
    × ((cyclic_locals_diagnostics hidden ≡ [])
        ↔ ((name : Bytes) (names : List Bytes) → ¬ (Walk hidden name names name)))
cyclic_locals_diagnostics-IsReport_example = cyclic_locals_diagnostics-IsReport hidden

search_from-Right_example : Right locals nothing (search_from locals (codes "d"))
search_from-Right_example = search_from-Right locals (codes "d")
