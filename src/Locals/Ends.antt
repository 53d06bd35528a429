-- ===== src/Locals/Ends.antt =====
-- The search of crates/tfls-diag/src/cyclic_locals.rs ends, and the path that it returns is a cycle.
use terraform_ls_rs.Base.{
  ℕ, zero, suc, ◌+◌, ◌≤◌, ◌<◌, Bool, true, false, ◌||◌, List, [], ◌∷◌, ◌++◌, ◌≡◌, refl, sym, subst,
  ap, ◌∙◌, Bytes, bytes_eq, All, length, if◌then◌else◌, Bool-cases, inl, inr, arith,
}
use terraform_ls_rs.Base.Scan.{bytes_eq_iff}
use terraform_ls_rs.Locals.Search.{
  LocalDef, Progress, Outcome, cyclic, acyclic, out_of_fuel, contains, contains_key, deps_of,
  remove, pop, enter, leave, visit, or_else, visit_deps, dfs, nothing, search_from,
}
use terraform_ls_rs.Locals.Cycle.{Refers, IsCycle, LeadsTo, LeadsTo-append, drain_to-IsCycle}
use terraform_ls_rs.Locals.Unvisited.{
  unvisited, unvisited-le, unvisited-visit, unvisited-insert, pop-append, remove-absent,
  contains-append, contains-All,
}

-- A search that begins at `s` ends, with a cycle, or with the stack as it was.
abbrev pub Right : List LocalDef → Progress → Outcome → Type 0
Right defs s (cyclic path) = IsCycle defs path
Right defs s (acyclic s') =
    (s'.stack ≡ s.stack)
    × (s'.on_stack ≡ s.on_stack)
    × (unvisited defs s'.visited ≤ unvisited defs s.visited)
Right defs s out_of_fuel = ⊥

-- `node` is not on the stack, which leads to it, and is what `on_stack` holds.
abbrev pub Ready : List LocalDef → Bytes → Progress → Type 0
Ready defs node s =
    LeadsTo defs s.stack node
    × (contains s.on_stack node ≡ false)
    × ((d : Bytes) → contains s.on_stack d ≡ contains s.stack d)

-- The search that began at `base` has `node` on top of the stack.
abbrev Inside : List LocalDef → Bytes → Progress → Progress → Type 0
Inside defs node base s =
    (s.stack ≡ base.stack ++ (node ∷ []))
    × (s.on_stack ≡ node ∷ base.on_stack)
    × (unvisited defs s.visited ≤ unvisited defs base.visited)

enter-Inside :
    (defs : List LocalDef) (node : Bytes) (base : Progress)
    → contains base.on_stack node ≡ false
    → Inside defs node base (enter node base)
enter-Inside defs node base h = (refl, rw h refl, omega arith)

leave-Right :
    (defs : List LocalDef) (node : Bytes) (base s : Progress)
    → contains base.on_stack node ≡ false
    → Inside defs node base s
    → Right defs base (acyclic (leave node s))
leave-Right defs node base s h inside =
    let self : bytes_eq node node ≡ true = (bytes_eq_iff node node).1 refl in
    let removed : remove node (node ∷ base.on_stack) ≡ base.on_stack =
      unfold remove in ground (arith, remove-absent base.on_stack node h) in
    (ap pop inside.0 ∙ pop-append base.stack node, ap (remove node) inside.1 ∙ removed, inside.2)

or_else-Right :
    (defs : List LocalDef) (base s : Progress) (o : Outcome) (rest : Progress → Outcome)
    → Right defs s o
    → ((s' : Progress) → Right defs s (acyclic s') → Right defs base (rest s'))
    → Right defs base (or_else o rest)
or_else-Right defs base s (cyclic path) rest h f = h
or_else-Right defs base s (acyclic s') rest h f = f s' h
or_else-Right defs base s out_of_fuel rest h f = h

Right-if :
    (defs : List LocalDef) (base : Progress) (b : Bool) (o p : Outcome)
    → b ≡ false
    → Right defs base p
    → Right defs base (if b then o else p)
Right-if defs base true o p e h = absurd (ground arith)
Right-if defs base false o p e h = h

-- What holds on the stack of a search that is inside `node`.
module _ (defs : List LocalDef) (node : Bytes) (base : Progress)
    (ready : Ready defs node base) where
  Inside-same :
      (s : Progress)
      → Inside defs node base s
      → (d : Bytes) → contains s.on_stack d ≡ contains s.stack d
  Inside-same s inside d =
      ap (λ set. contains set d) inside.1
      ∙ ap (λ b. bytes_eq d node || b) (ready.2 d)
      ∙ sym (contains-append base.stack node d)
      ∙ ap (λ set. contains set d) (sym inside.0)

  Inside-LeadsTo :
      (s : Progress) (dep : Bytes)
      → Inside defs node base s
      → Refers defs node dep
      → LeadsTo defs s.stack dep
  Inside-LeadsTo s dep inside r =
      subst (λ stack. LeadsTo defs stack dep) (sym inside.0)
        (LeadsTo-append defs base.stack node dep ready.0 r)

  module _ (deeper : Bytes → Progress → Outcome) (limit : ℕ)
      (right : (dep : Bytes) (s : Progress)
        → Ready defs dep s
        → unvisited defs s.visited < limit
        → Right defs s (deeper dep s))
      (enough : unvisited defs base.visited ≤ limit) where
    deeper-Right :
        (dep : Bytes) (s : Progress)
        → Refers defs node dep
        → Inside defs node base s
        → contains s.on_stack dep ≡ false
        → contains s.visited dep ≡ false
        → Right defs (visit dep s) (deeper dep (visit dep s))
    deeper-Right dep s r inside off new =
        right dep (visit dep s) (Inside-LeadsTo s dep inside r, off, Inside-same s inside)
          (rw new (omega (arith, unvisited-visit defs dep s.visited new r.1)))

    deeper-or_else :
        (dep : Bytes) (deps : List Bytes) (s : Progress)
        → Refers defs node dep
        → Inside defs node base s
        → contains s.on_stack dep ≡ false
        → contains s.visited dep ≡ false
        → ((s' : Progress)
            → Inside defs node base s'
            → Right defs base (visit_deps deeper defs node deps s'))
        → Right defs base (or_else (deeper dep (visit dep s)) (visit_deps deeper defs node deps))
    deeper-or_else dep deps s r inside off new rest =
        or_else-Right defs base (visit dep s) (deeper dep (visit dep s))
          (visit_deps deeper defs node deps) (deeper-Right dep s r inside off new)
          (λ s' h. rest s' (
            h.0 ∙ inside.0,
            h.1 ∙ inside.1,
            omega (arith, h.2, inside.2, unvisited-insert defs dep s.visited),
          ))

    visit_deps-Right :
        (deps : List Bytes) (s : Progress)
        → All (λ d. contains (deps_of defs node) d ≡ true) deps
        → Inside defs node base s
        → Right defs base (visit_deps deeper defs node deps s)
    unfolding visit_deps
    visit_deps-Right [] s h inside = leave-Right defs node base s ready.1 inside
    visit_deps-Right (dep ∷ deps) s h inside = elim (Bool-cases (contains_key defs dep)) [
      | inr other ↦ rw other (visit_deps-Right deps s h.1 inside)
      | inl defined ↦ elim (Bool-cases (contains s.on_stack dep)) [
        | inl on ↦ rw defined (
            rw on (
              drain_to-IsCycle defs dep s.stack (Inside-LeadsTo s dep inside (h.0, defined))
                (sym (Inside-same s inside dep) ∙ on)))
        | inr off ↦ elim (Bool-cases (contains s.visited dep)) [
          | inl old ↦ rw defined (rw off (rw old (visit_deps-Right deps s h.1 inside)))
          | inr new ↦ rw defined (
              rw off (
                Right-if defs base (contains s.visited dep) (visit_deps deeper defs node deps s)
                  (or_else (deeper dep (visit dep s)) (visit_deps deeper defs node deps)) new
                  (deeper-or_else dep deps s (h.0, defined) inside off new
                    (λ s' inside'. visit_deps-Right deps s' h.1 inside'))))
        ]
      ]
    ]

-- With more fuel than there are locals that are not visited, the search ends.
dfs-Right :
    (fuel : ℕ) (defs : List LocalDef) (node : Bytes) (s : Progress)
    → Ready defs node s
    → unvisited defs s.visited < fuel
    → Right defs s (dfs fuel defs node s)
unfolding dfs
dfs-Right zero defs node s ready enough = absurd (omega arith)
dfs-Right (suc fuel) defs node s ready enough =
    visit_deps-Right defs node s ready (dfs fuel defs) fuel (dfs-Right fuel defs) (omega arith)
      (deps_of defs node) (enter node s)
      (contains-All (deps_of defs node) (deps_of defs node) (λ d h. h))
      (enter-Inside defs node s ready.1)

-- Whatever the locals refer to, the search from any name ends. If it reports a path, the path is a
-- cycle: it has a name, each name on it refers to the next, the last to the first, and all of them
-- are defined. Otherwise it leaves the stack and the set of the names on it empty.
pub search_from-Right :
    (defs : List LocalDef) (start : Bytes) → Right defs nothing (search_from defs start)
search_from-Right defs start =
    dfs-Right (length defs + 1) defs start nothing (tt, refl, λ d. refl)
      (omega (arith, unvisited-le defs []))
