-- ===== src/Locals/Search.antt =====
-- The search for a cycle, crates/tfls-diag/src/cyclic_locals.rs. The set and the map of the standard
-- library are lists in the order of their iteration; a set keeps one copy of an element.
use terraform_ls_rs.Base.{
  ℕ, zero, suc, ◌+◌, Bool, not, Option, none, some, List, [], ◌∷◌, ◌++◌, Bytes, bytes_eq, any, drop,
  length, if◌then◌else◌,
}
use terraform_ls_rs.Symbols.{Range}

-- `LocalDef` with its key: a local's name, the locals that its value refers to, and the range of its
-- key.
pub record LocalDef : Type 0 where
  pub name : Bytes
  pub deps : List Bytes
  pub range : Range

-- What `dfs` changes.
pub record Progress : Type 0 where
  pub stack : List Bytes
  pub on_stack : List Bytes
  pub visited : List Bytes

-- `dfs` returns true with the stack cut to a cycle, or false with what it changed.
pub data Outcome : Type 0 where
  cyclic : List Bytes → Outcome
  acyclic : Progress → Outcome
  out_of_fuel : Outcome

abbrev pub contains : List Bytes → Bytes → Bool
contains names name = any (bytes_eq name) names

abbrev pub contains_key : List LocalDef → Bytes → Bool
contains_key defs name = any (λ (d : LocalDef). bytes_eq name d.name) defs

-- The dependencies of a local, none for a name that is not defined.
unfoldable pub deps_of : List LocalDef → Bytes → List Bytes
deps_of [] name = []
deps_of (d ∷ defs) name = if bytes_eq name d.name then d.deps else deps_of defs name

-- `stack.drain(..pos)` for the first position of `dep`.
abbrev pub next_position : Option ℕ → Option ℕ
next_position none = none
next_position (some pos) = some (suc pos)

unfoldable pub position : Bytes → List Bytes → Option ℕ
position dep [] = none
position dep (x ∷ xs) = if bytes_eq x dep then some 0 else next_position (position dep xs)

abbrev pub drain_to : Option ℕ → List Bytes → List Bytes
drain_to none stack = stack
drain_to (some pos) stack = drop pos stack

-- `HashSet::insert` and `HashSet::remove`.
abbrev pub insert : Bytes → List Bytes → List Bytes
insert name set = if contains set name then set else name ∷ set

unfoldable pub remove : Bytes → List Bytes → List Bytes
remove name [] = []
remove name (x ∷ xs) = if bytes_eq name x then remove name xs else x ∷ remove name xs

unfoldable pub pop : List Bytes → List Bytes
pop [] = []
pop (x ∷ []) = []
pop (x ∷ y ∷ xs) = x ∷ pop (y ∷ xs)

abbrev pub enter : Bytes → Progress → Progress
enter node s = record s { stack = s.stack ++ (node ∷ []); on_stack = insert node s.on_stack }

abbrev pub leave : Bytes → Progress → Progress
leave node s = record s { stack = pop s.stack; on_stack = remove node s.on_stack }

abbrev pub visit : Bytes → Progress → Progress
visit dep s = record s { visited = insert dep s.visited }

-- `true` ends every loop that waits for it.
abbrev pub or_else : Outcome → (Progress → Outcome) → Outcome
or_else (cyclic path) rest = cyclic path
or_else (acyclic s) rest = rest s
or_else out_of_fuel rest = out_of_fuel

-- The loop over the dependencies of `node`, with `dfs` for `deeper`.
unfoldable pub visit_deps :
    (Bytes → Progress → Outcome) → List LocalDef → Bytes → List Bytes → Progress → Outcome
visit_deps deeper defs node [] s = acyclic (leave node s)
visit_deps deeper defs node (dep ∷ deps) s =
    let rest = visit_deps deeper defs node deps in
    if not (contains_key defs dep)
    then rest s
    else if contains s.on_stack dep
    then cyclic (drain_to (position dep s.stack) s.stack)
    else if contains s.visited dep
    then rest s
    else or_else (deeper dep (visit dep s)) rest

unfoldable pub dfs : ℕ → List LocalDef → Bytes → Progress → Outcome
dfs zero defs node s = out_of_fuel
dfs (suc fuel) defs node s = visit_deps (dfs fuel defs) defs node (deps_of defs node) (enter node s)

abbrev pub nothing : Progress
nothing = record { stack = []; on_stack = []; visited = [] }

-- The outcome of `dfs` from nothing.
abbrev pub search_from : List LocalDef → Bytes → Outcome
search_from defs start = dfs (length defs + 1) defs start nothing

abbrev pub found : Outcome → Option (List Bytes)
found (cyclic path) = some path
found (acyclic s) = none
found out_of_fuel = none

abbrev pub find_cycle_from : Bytes → List LocalDef → Option (List Bytes)
find_cycle_from start defs = found (search_from defs start)
