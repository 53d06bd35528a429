-- ===== src/Locals/Unvisited.antt =====
-- The sets and the stack of the search of crates/tfls-diag/src/cyclic_locals.rs: how many locals are
-- not visited, and what is pushed and popped.
use terraform_ls_rs.Base.{
  ℕ, ◌+◌, ◌≤◌, ◌<◌, true, false, List, [], ◌∷◌, ◌++◌, ◌≡◌, refl, sym, ap, ◌∙◌, Bytes, bytes_eq, All,
  length, if◌then◌else◌, Bool-cases, inl, inr, arith,
}
use terraform_ls_rs.Base.Scan.{bytes_eq_iff}
use terraform_ls_rs.Locals.Search.{LocalDef, contains, contains_key, remove, pop, insert}

-- The number of locals that are not in the set.
unfoldable pub unvisited : List LocalDef → List Bytes → ℕ
unvisited [] visited = 0
unvisited (d ∷ defs) visited = (if contains visited d.name then 0 else 1) + unvisited defs visited

pub unvisited-le :
    (defs : List LocalDef) (visited : List Bytes) → unvisited defs visited ≤ length defs
unfolding unvisited
unvisited-le [] visited = omega arith
unvisited-le (d ∷ defs) visited = ground (arith, unvisited-le defs visited)

pub unvisited-cons :
    (defs : List LocalDef) (dep : Bytes) (visited : List Bytes)
    → unvisited defs (dep ∷ visited) ≤ unvisited defs visited
unfolding unvisited
unvisited-cons [] dep visited = omega arith
unvisited-cons (d ∷ defs) dep visited = ground (arith, unvisited-cons defs dep visited)

-- A local that is visited for the first time leaves fewer unvisited.
pub unvisited-visit :
    (defs : List LocalDef) (dep : Bytes) (visited : List Bytes)
    → contains visited dep ≡ false
    → contains_key defs dep ≡ true
    → unvisited defs (dep ∷ visited) < unvisited defs visited
unfolding unvisited
unvisited-visit [] dep visited h k = absurd (ground arith)
unvisited-visit (d ∷ defs) dep visited h k = elim (Bool-cases (bytes_eq dep d.name)) [
  | inl same ↦
      let e : dep ≡ d.name = (bytes_eq_iff dep d.name).0 same in
      let new : contains visited d.name ≡ false = ap (contains visited) (sym e) ∙ h in
      let self : bytes_eq d.name dep ≡ true = (bytes_eq_iff d.name dep).1 (sym e) in
      ground (arith, unvisited-cons defs dep visited)
  | inr other ↦ ground (arith, unvisited-visit defs dep visited)
]

pub unvisited-insert :
    (defs : List LocalDef) (dep : Bytes) (visited : List Bytes)
    → unvisited defs (insert dep visited) ≤ unvisited defs visited
unvisited-insert defs dep visited = elim (Bool-cases (contains visited dep)) [
  | inl old ↦ rw old (omega arith)
  | inr new ↦ rw new (unvisited-cons defs dep visited)
]

pub pop-append : (stack : List Bytes) (node : Bytes) → pop (stack ++ (node ∷ [])) ≡ stack
unfolding pop
pop-append [] node = refl
pop-append (x ∷ []) node = refl
pop-append (x ∷ y ∷ stack) node = ap (λ (l : List Bytes). x ∷ l) (pop-append (y ∷ stack) node)

pub remove-absent :
    (set : List Bytes) (node : Bytes) → contains set node ≡ false → remove node set ≡ set
unfolding remove
remove-absent [] node h = refl
remove-absent (x ∷ set) node h = ground (arith, remove-absent set node)

pub contains-append :
    (stack : List Bytes) (node d : Bytes)
    → contains (stack ++ (node ∷ [])) d ≡ contains (node ∷ stack) d
contains-append [] node d = refl
contains-append (x ∷ stack) node d = ground (arith, contains-append stack node d)

pub contains-All :
    (names : List Bytes) (others : List Bytes)
    → ((d : Bytes) → contains names d ≡ true → contains others d ≡ true)
    → All (λ d. contains others d ≡ true) names
contains-All [] others f = tt
contains-All (x ∷ names) others f =
    let self : bytes_eq x x ≡ true = (bytes_eq_iff x x).1 refl in
    (f x (ground arith), contains-All names others (λ d h. f d (ground arith)))
