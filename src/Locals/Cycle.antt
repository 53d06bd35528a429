-- ===== src/Locals/Cycle.antt =====
-- What the search of crates/tfls-diag/src/cyclic_locals.rs reports: the walks along references.
use terraform_ls_rs.Base.{
  true, ℕ, suc, some, drop, refl, List, [], ◌∷◌, ◌++◌, ◌≡◌, subst, sym, Bytes, bytes_eq, Bool-cases,
  inl, inr, arith,
}
use terraform_ls_rs.Base.Scan.{bytes_eq_iff}
use terraform_ls_rs.Locals.Search.{LocalDef, contains, contains_key, deps_of, position, drain_to}

-- The value of `a` refers to `b`, and `b` is a local.
abbrev pub Refers : List LocalDef → Bytes → Bytes → Type 0
Refers defs a b = (contains (deps_of defs a) b ≡ true) × (contains_key defs b ≡ true)

-- Each name refers to the next, from `a` through `names` to `b`.
abbrev pub Walk : List LocalDef → Bytes → List Bytes → Bytes → Type 0
Walk defs a [] b = Refers defs a b
Walk defs a (x ∷ names) b = Refers defs a x × Walk defs x names b

-- Each name refers to the next, and the last to the first; there is a name.
abbrev pub IsCycle : List LocalDef → List Bytes → Type 0
IsCycle defs [] = ⊥
IsCycle defs (x ∷ names) = Walk defs x names x

-- Each name of the stack refers to the next, and the last to `b`.
abbrev pub LeadsTo : List LocalDef → List Bytes → Bytes → Type 0
LeadsTo defs [] b = Unit
LeadsTo defs (x ∷ names) b = Walk defs x names b

Walk-append :
    (defs : List LocalDef) (a : Bytes) (names : List Bytes) (node b : Bytes)
    → Walk defs a names node
    → Refers defs node b
    → Walk defs a (names ++ (node ∷ [])) b
Walk-append defs a [] node b h r = (h, r)
Walk-append defs a (x ∷ names) node b h r = (h.0, Walk-append defs x names node b h.1 r)

pub LeadsTo-append :
    (defs : List LocalDef) (stack : List Bytes) (node b : Bytes)
    → LeadsTo defs stack node
    → Refers defs node b
    → LeadsTo defs (stack ++ (node ∷ [])) b
LeadsTo-append defs [] node b h r = r
LeadsTo-append defs (x ∷ names) node b h r = Walk-append defs x names node b h r

LeadsTo-tail :
    (defs : List LocalDef) (x : Bytes) (names : List Bytes) (b : Bytes)
    → LeadsTo defs (x ∷ names) b
    → LeadsTo defs names b
LeadsTo-tail defs x [] b h = tt
LeadsTo-tail defs x (y ∷ names) b h = h.1

-- A name on the stack has a position, from which the stack is a cycle if its last refers to it.
cut_at :
    (defs : List LocalDef) (dep : Bytes) (stack : List Bytes)
    → LeadsTo defs stack dep
    → contains stack dep ≡ true
    → (pos : ℕ) × (position dep stack ≡ some pos) × IsCycle defs (drop pos stack)
unfolding position
cut_at defs dep [] h k = absurd (ground arith)
cut_at defs dep (x ∷ names) h k = elim (Bool-cases (bytes_eq x dep)) [
  | inl same ↦
      let e : x ≡ dep = (bytes_eq_iff x dep).0 same in
      rw same (0, refl, subst (λ y. Walk defs x names y) (sym e) h)
  | inr other ↦
      let (pos, at, cycle) =
        cut_at defs dep names (LeadsTo-tail defs x names dep h)
          (ground (arith, bytes_eq_iff dep x, bytes_eq_iff x dep)) in
      rw other (rw at (suc pos, refl, cycle))
]

-- The stack, cut at a name on it that its last refers to, is a cycle.
pub drain_to-IsCycle :
    (defs : List LocalDef) (dep : Bytes) (stack : List Bytes)
    → LeadsTo defs stack dep
    → contains stack dep ≡ true
    → IsCycle defs (drain_to (position dep stack) stack)
drain_to-IsCycle defs dep stack h k =
    let (pos, at, cycle) = cut_at defs dep stack h k in
    subst (λ p. IsCycle defs (drain_to p stack)) (sym at) cycle
