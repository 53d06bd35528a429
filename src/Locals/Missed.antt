-- ===== src/Locals/Missed.antt =====
-- The search of crates/tfls-diag/src/cyclic_locals.rs misses no cycle through the name that it
-- starts from.
use terraform_ls_rs.Base.{
  ℕ, zero, suc, ◌+◌, Bool, true, false, none, List, [], ◌∷◌, ◌≡◌, ◌⊎◌, refl, sym, subst, ap, ◌∙◌,
  Bytes, bytes_eq, length, if◌then◌else◌, Bool-cases, inl, inr, arith,
}
use terraform_ls_rs.Base.Scan.{bytes_eq_iff}
use terraform_ls_rs.Locals.Search.{
  LocalDef, Progress, Outcome, cyclic, acyclic, out_of_fuel, contains, contains_key, deps_of,
  remove, enter, insert, leave, visit, or_else, visit_deps, dfs, nothing, search_from, found,
  find_cycle_from,
}
use terraform_ls_rs.Locals.Cycle.{Refers, Walk}
use terraform_ls_rs.Locals.Ends.{Right, search_from-Right}
use terraform_ls_rs.Locals.Unvisited.{remove-absent}
use terraform_ls_rs.Locals.Settled.{
  Done, Settled, Grows, Finished, Grows-insert, contains-insert, differs, Settled-visit, no_Walk,
}

-- Each name that `node` refers to is one of `deps`, or visited and not `start`.
abbrev Rest : List LocalDef → Bytes → Bytes → List Bytes → List Bytes → Type 0
Rest defs start node deps visited =
    (d : Bytes)
    → Refers defs node d
    → (contains deps d ≡ true) ⊎ ((contains visited d ≡ true) × (bytes_eq d start ≡ false))

-- The search that began at `base` is in the loop of `node`, with `deps` left.
abbrev Inside : List LocalDef → Bytes → Bytes → Progress → List Bytes → Progress → Type 0
Inside defs start node base deps s =
    (s.on_stack ≡ node ∷ base.on_stack)
    × Grows base.visited s.visited
    × Settled defs start s.on_stack s.visited
    × Rest defs start node deps s.visited

leave-Finished :
    (defs : List LocalDef) (start node : Bytes) (base s : Progress)
    → contains base.on_stack node ≡ false
    → Inside defs start node base [] s
    → Finished defs start node base (acyclic (leave node s))
leave-Finished defs start node base s h inside =
    let self : bytes_eq node node ≡ true = (bytes_eq_iff node node).1 refl in
    let removed : remove node (node ∷ base.on_stack) ≡ base.on_stack =
      unfold remove in ground (arith, remove-absent base.on_stack node h) in
    let same : remove node s.on_stack ≡ base.on_stack = ap (remove node) inside.0 ∙ removed in
    let done : Done defs start s.visited node =
      λ d r. elim (inside.3 d r) [ inl l ↦ absurd (ground arith) | inr v ↦ v ] in
    (
      same,
      inside.1,
      λ x k off. elim (Bool-cases (bytes_eq x node)) [
        | inl e ↦ subst (Done defs start s.visited) (sym ((bytes_eq_iff x node).0 e)) done
        | inr other ↦
            let out : contains base.on_stack x ≡ false =
              ap (λ set. contains set x) (sym same) ∙ off in
            let absent : contains (node ∷ base.on_stack) x ≡ false = ground arith in
            inside.2 x k (ap (λ set. contains set x) inside.0 ∙ absent)
      ],
      done,
    )

-- A dependency that was dealt with leaves the others.
Inside-next :
    (defs : List LocalDef) (start node : Bytes) (base s : Progress) (dep : Bytes)
    (deps : List Bytes)
    → Inside defs start node base (dep ∷ deps) s
    → (Refers defs node dep → (contains s.visited dep ≡ true) × (bytes_eq dep start ≡ false))
    → Inside defs start node base deps s
Inside-next defs start node base s dep deps inside h = (
  inside.0,
  inside.1,
  inside.2,
  λ d r. elim (Bool-cases (bytes_eq d dep)) [
    | inl same ↦
        let e : d ≡ dep = (bytes_eq_iff d dep).0 same in
        inr (
          subst
            (λ x. Refers defs node x → (contains s.visited x ≡ true) × (bytes_eq x start ≡ false))
            (sym e) h r)
    | inr other ↦ elim (inside.3 d r) [ inl l ↦ inl (ground arith) | inr v ↦ inr v ]
  ],
)

-- What a search of `dep` leaves, when it finds no cycle.
Inside-after :
    (defs : List LocalDef) (start node : Bytes) (base s s' : Progress) (dep : Bytes)
    (deps : List Bytes)
    → Inside defs start node base (dep ∷ deps) s
    → bytes_eq dep start ≡ false
    → Finished defs start dep (visit dep s) (acyclic s')
    → Inside defs start node base deps s'
Inside-after defs start node base s s' dep deps inside other h =
    let grows : Grows s.visited s'.visited = λ x k. h.1 x (Grows-insert dep s.visited x k) in
    Inside-next defs start node base s' dep deps
      (
        h.0 ∙ inside.0,
        λ x k. grows x (inside.1 x k),
        h.2,
        λ d r. elim (inside.3 d r) [ inl l ↦ inl l | inr v ↦ inr (grows d v.0, v.1) ],
      )
      (λ r. (h.1 dep (contains-insert dep s.visited), other))

or_else-Finished :
    (defs : List LocalDef) (start node dep : Bytes) (base s : Progress) (o : Outcome)
    (rest : Progress → Outcome)
    → Finished defs start dep s o
    → ((s' : Progress)
        → Finished defs start dep s (acyclic s')
        → Finished defs start node base (rest s'))
    → Finished defs start node base (or_else o rest)
or_else-Finished defs start node dep base s (cyclic path) rest h f = tt
or_else-Finished defs start node dep base s (acyclic s') rest h f = f s' h
or_else-Finished defs start node dep base s out_of_fuel rest h f = tt

Finished-if :
    (defs : List LocalDef) (start node : Bytes) (base : Progress) (b : Bool) (o p : Outcome)
    → b ≡ false
    → Finished defs start node base p
    → Finished defs start node base (if b then o else p)
Finished-if defs start node base true o p e h = absurd (ground arith)
Finished-if defs start node base false o p e h = h

-- `node` is not on the stack, and `start` is, once `node` is.
abbrev Ready : List LocalDef → Bytes → Bytes → Progress → Type 0
Ready defs start node s =
    (contains s.on_stack node ≡ false)
    × (contains (node ∷ s.on_stack) start ≡ true)
    × Settled defs start (node ∷ s.on_stack) s.visited

module _ (defs : List LocalDef) (start node : Bytes) (base : Progress)
    (ready : Ready defs start node base) (deeper : Bytes → Progress → Outcome)
    (finished : (dep : Bytes) (s : Progress)
      → Ready defs start dep s
      → Finished defs start dep s (deeper dep s)) where
  start_open :
      (s : Progress) (deps : List Bytes)
      → Inside defs start node base deps s
      → contains s.on_stack start ≡ true
  start_open s deps inside = ap (λ set. contains set start) inside.0 ∙ ready.1

  visit_deps-Finished :
      (deps : List Bytes) (s : Progress)
      → Inside defs start node base deps s
      → Finished defs start node base (visit_deps deeper defs node deps s)
  unfolding visit_deps
  visit_deps-Finished [] s inside = leave-Finished defs start node base s ready.0 inside
  visit_deps-Finished (dep ∷ deps) s inside = elim (Bool-cases (contains_key defs dep)) [
    | inr other ↦ rw other (
        visit_deps-Finished deps s
          (Inside-next defs start node base s dep deps inside (λ r. absurd (ground (arith, r.1)))))
    | inl defined ↦ elim (Bool-cases (contains s.on_stack dep)) [
      | inl on ↦ rw defined (rw on tt)
      | inr off ↦
          let other : bytes_eq dep start ≡ false =
            differs s.on_stack dep start off (start_open s (dep ∷ deps) inside) in
          elim (Bool-cases (contains s.visited dep)) [
            | inl old ↦ rw defined (
                rw off (
                  rw old (
                    visit_deps-Finished deps s
                      (Inside-next defs start node base s dep deps inside (λ r. (old, other))))))
            | inr new ↦ rw defined (
                rw off (
                  Finished-if defs start node base (contains s.visited dep)
                    (visit_deps deeper defs node deps s)
                    (or_else (deeper dep (visit dep s)) (visit_deps deeper defs node deps)) new
                    (or_else-Finished defs start node dep base (visit dep s)
                      (deeper dep (visit dep s)) (visit_deps deeper defs node deps)
                      (finished dep (visit dep s) (
                        off,
                        ground (arith, start_open s (dep ∷ deps) inside),
                        Settled-visit defs start dep s.on_stack s.visited inside.2,
                      ))
                      (λ s' h.
                        visit_deps-Finished deps s'
                          (Inside-after defs start node base s s' dep deps inside other h)))))
          ]
    ]
  ]

dfs-Finished :
    (fuel : ℕ) (defs : List LocalDef) (start node : Bytes) (s : Progress)
    → Ready defs start node s
    → Finished defs start node s (dfs fuel defs node s)
unfolding dfs
dfs-Finished zero defs start node s ready = tt
dfs-Finished (suc fuel) defs start node s ready =
    let entered : insert node s.on_stack ≡ node ∷ s.on_stack = rw (ready.0) refl in
    visit_deps-Finished defs start node s ready (dfs fuel defs) (dfs-Finished fuel defs start)
      (deps_of defs node) (enter node s)
      (
        entered,
        λ x k. k,
        subst (λ set. Settled defs start set s.visited) (sym entered) ready.2,
        λ d r. inl r.0,
      )

unfound :
    (defs : List LocalDef) (start : Bytes) (names : List Bytes) (o : Outcome)
    → found o ≡ none
    → Right defs nothing o
    → Finished defs start start nothing o
    → ¬ (Walk defs start names start)
unfound defs start names (cyclic path) e right h = absurd (ground arith)
unfound defs start names (acyclic s) e right h =
    no_Walk defs start s.visited (subst (λ set. Settled defs start set s.visited) h.0 h.2) names
      start h.3
unfound defs start names out_of_fuel e right h = absurd right

-- If the search from a name finds no path, the name is on no cycle: there is no walk along the
-- references between defined locals from the name to itself.
pub find_cycle_from-none :
    (start : Bytes) (defs : List LocalDef) (names : List Bytes)
    → find_cycle_from start defs ≡ none
    → ¬ (Walk defs start names start)
find_cycle_from-none start defs names e =
    let self : bytes_eq start start ≡ true = (bytes_eq_iff start start).1 refl in
    unfound defs start names (search_from defs start) e (search_from-Right defs start) (
      dfs-Finished (length defs + 1) defs start start nothing
        (refl, ground arith, λ x k off. absurd (ground arith)))
