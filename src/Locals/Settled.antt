-- ===== src/Locals/Settled.antt =====
-- The names that the search of crates/tfls-diag/src/cyclic_locals.rs is done with, and that those are
-- on no cycle through its start.
use terraform_ls_rs.Base.{
  true, false, List, [], ◌∷◌, ◌≡◌, refl, ap, Bytes, bytes_eq, Bool-cases, inl, inr, arith,
}
use terraform_ls_rs.Base.Scan.{bytes_eq_iff}
use terraform_ls_rs.Locals.Search.{
  LocalDef, Progress, Outcome, cyclic, acyclic, out_of_fuel, contains, insert,
}
use terraform_ls_rs.Locals.Cycle.{Refers, Walk}

-- `name` refers only to names that were visited, and not to `start`.
abbrev pub Done : List LocalDef → Bytes → List Bytes → Bytes → Type 0
Done defs start visited name =
    (d : Bytes) → Refers defs name d → (contains visited d ≡ true) × (bytes_eq d start ≡ false)

-- Every visited name that is not in `held` is done.
abbrev pub Settled : List LocalDef → Bytes → List Bytes → List Bytes → Type 0
Settled defs start held visited =
    (x : Bytes) → contains visited x ≡ true → contains held x ≡ false → Done defs start visited x

abbrev pub Grows : List Bytes → List Bytes → Type 0
Grows xs ys = (x : Bytes) → contains xs x ≡ true → contains ys x ≡ true

-- A search of `node` that finds no cycle is done with it.
abbrev pub Finished : List LocalDef → Bytes → Bytes → Progress → Outcome → Type 0
Finished defs start node s (cyclic path) = Unit
Finished defs start node s (acyclic s') =
    (s'.on_stack ≡ s.on_stack)
    × Grows s.visited s'.visited
    × Settled defs start s'.on_stack s'.visited
    × Done defs start s'.visited node
Finished defs start node s out_of_fuel = Unit

pub Done-Grows :
    (defs : List LocalDef) (start : Bytes) (xs ys : List Bytes) (name : Bytes)
    → Grows xs ys
    → Done defs start xs name
    → Done defs start ys name
Done-Grows defs start xs ys name g h d r = let (a, b) = h d r in (g d a, b)

pub Grows-insert : (dep : Bytes) (visited : List Bytes) → Grows visited (insert dep visited)
Grows-insert dep visited x h = elim (Bool-cases (contains visited dep)) [
  | inl old ↦ rw old h
  | inr new ↦ rw new (ground arith)
]

pub contains-insert :
    (dep : Bytes) (visited : List Bytes) → contains (insert dep visited) dep ≡ true
contains-insert dep visited = elim (Bool-cases (contains visited dep)) [
  | inl old ↦ rw old old
  | inr new ↦
      let self : bytes_eq dep dep ≡ true = (bytes_eq_iff dep dep).1 refl in rw new (ground arith)
]

contains-insert_other :
    (dep : Bytes) (visited : List Bytes) (x : Bytes)
    → bytes_eq x dep ≡ false
    → contains (insert dep visited) x ≡ true
    → contains visited x ≡ true
contains-insert_other dep visited x other = elim (Bool-cases (contains visited dep)) [
  | inl old ↦ rw old (λ h. h)
  | inr new ↦ rw new (λ h. ground arith)
]

-- A name that is not in a set differs from one that is.
pub differs :
    (set : List Bytes) (a b : Bytes)
    → contains set a ≡ false
    → contains set b ≡ true
    → bytes_eq a b ≡ false
differs set a b h k = elim (Bool-cases (bytes_eq a b)) [
  | inr other ↦ other
  | inl same ↦
      let e : contains set a ≡ contains set b = ap (contains set) ((bytes_eq_iff a b).0 same) in
      absurd (ground arith)
]

-- Marking `dep` keeps the others settled.
pub Settled-visit :
    (defs : List LocalDef) (start dep : Bytes) (held visited : List Bytes)
    → Settled defs start held visited
    → Settled defs start (dep ∷ held) (insert dep visited)
Settled-visit defs start dep held visited h x k off =
    Done-Grows defs start visited (insert dep visited) x (Grows-insert dep visited)
      (h x (contains-insert_other dep visited x (ground arith) k) (ground arith))

-- What a search with no walk back to `start` left is closed under references.
pub no_Walk :
    (defs : List LocalDef) (start : Bytes) (visited : List Bytes)
    → Settled defs start [] visited
    → (names : List Bytes) (a : Bytes) → Done defs start visited a
    → ¬ (Walk defs a names start)
no_Walk defs start visited settled [] a done w =
    let (seen, other) = done start w in
    let self : bytes_eq start start ≡ true = (bytes_eq_iff start start).1 refl in
    absurd (ground arith)
no_Walk defs start visited settled (x ∷ names) a done w =
    let (seen, other) = done x w.0 in
    no_Walk defs start visited settled names x (settled x seen refl) w.1
