-- ===== src/Jobs/Priority.antt =====
-- Which job `try_next` of crates/tfls-state/src/jobs.rs takes.
use mathlib.Core.Option.{some-injective}
use terraform_ls_rs.Base.{
  ℕ, suc, ◌+◌, ◌<◌, true, false, Option, none, some, List, [], ◌∷◌, ◌≡◌, ◌≢◌, ◌⊎◌, inl, inr, refl,
  subst, All, All-map, length, get_elem?, Bool-cases, arith,
}
use terraform_ls_rs.Base.Order.{is_lt}
use terraform_ls_rs.Jobs.Queue.{rank, Entry, cmp_entry, Inner, pick, pop, try_next, take_entry, len}
use terraform_ls_rs.Jobs.Invariant.{IsWell, Distinct, pop-All}

-- `m` goes out before `e`: it has the higher priority, or the same and came in earlier.
abbrev pub Before : Entry → Entry → Type 0
Before m e =
    (rank e.priority < rank m.priority) ⊎ ((rank e.priority ≡ rank m.priority) × (m.seq < e.seq))

Before-trans : (a b c : Entry) → Before a b → Before b c → Before a c
Before-trans a b c h k = ground arith

Before-of_lt : (e m : Entry) → is_lt (cmp_entry e m) ≡ true → Before m e
unfolding cmp_entry
Before-of_lt e m h = ground arith

Before-of_not_lt : (e m : Entry) → m.seq ≢ e.seq → is_lt (cmp_entry e m) ≡ false → Before e m
unfolding cmp_entry
Before-of_not_lt e m new h = ground arith

abbrev pub First : Entry × List Entry → Type 0
First (m, rest) = All (Before m) rest

pick-First :
    (e : Entry) (o : Option (Entry × List Entry))
    → ((t : Entry × List Entry) → o ≡ some t → First t × (t.0.seq ≢ e.seq))
    → First (pick e o)
unfolding pick
pick-First e none h = tt
pick-First e (some (m, rest)) h =
    let (first, new) = h (m, rest) refl in
    elim (Bool-cases (is_lt (cmp_entry e m))) [
      | inl less ↦ rw less (Before-of_lt e m less, first)
      | inr more ↦
          let above = Before-of_not_lt e m new more in
          rw more (above, All-map (Before m) (Before e) rest (λ x. Before-trans e m x above) first)
    ]

pub pop-First :
    (es : List Entry) (m : Entry) (rest : List Entry)
    → Distinct (λ e. e.seq) es
    → pop es ≡ some (m, rest)
    → First (m, rest)
unfolding pop
pop-First [] m rest h e = absurd (cc)
pop-First (x ∷ es) m rest h e = subst First (some-injective _ _ e) (
    pick-First x (pop es) λ (m', rest') e'.
      (pop-First es m' rest' h.1 e', (pop-All (λ y. y.seq ≢ x.seq) es m' rest' h.0 e').0))

pick-length :
    (e : Entry) (o : Option (Entry × List Entry)) (n : ℕ)
    → ((t : Entry × List Entry) → o ≡ some t → length t.1 + 1 ≡ n)
    → (o ≡ none → n ≡ 0)
    → length (pick e o).1 ≡ n
unfolding pick
pick-length e none n h k = omega (arith, k refl)
pick-length e (some (m, rest)) n h k = ground (arith, h (m, rest) refl)

pub pop-length :
    (es : List Entry) (m : Entry) (rest : List Entry)
    → pop es ≡ some (m, rest)
    → length rest + 1 ≡ length es
unfolding pop
pop-length [] m rest e = absurd (cc)
pop-length (x ∷ es) m rest e =
    subst (λ (t : Entry × List Entry). length t.1 + 1 ≡ length (x ∷ es)) (some-injective _ _ e)
      (omega (
        arith,
        pick-length x (pop es) (length es) (λ (m', rest') e'. pop-length es m' rest' e')
            (none_only es),
      ))
  where
    none_only : (ys : List Entry) → pop ys ≡ none → length ys ≡ 0
    none_only [] n = refl
    none_only (y ∷ ys) n = absurd (cc)

pop-some : (es : List Entry) → 0 < length es → (t : Entry × List Entry) × (pop es ≡ some t)
unfolding pop
pop-some [] h = absurd (omega arith)
pop-some (x ∷ es) h = (pick x (pop es), refl)

-- Every entry stands at some index.
abbrev pub Among : List Entry → Entry → Type 0
Among es e = (i : ℕ) × (get_elem? es i ≡ some e)

All-Among : (es : List Entry) → All (Among es) es
All-Among [] = tt
All-Among (e ∷ es) =
    ((0, refl), All-map (Among es) (Among (e ∷ es)) es (λ x (i, at). (suc i, at)) (All-Among es))

-- In a well-formed queue that is not empty, `try_next` returns the job of an entry of the heap, and
-- each entry it leaves has a lower priority, or the same priority and a later arrival; the length
-- falls by one.
pub try_next_first :
    (q : Inner)
    → IsWell q
    → 0 < len q
    → (m : Entry) × (q' : Inner) × (try_next q ≡ (q', some m.job))
      × Among q.heap m
      × All (Before m) q'.heap
      × (len q' + 1 ≡ len q)
unfolding try_next len
try_next_first q w h =
    let ((m, rest), e) = pop-some q.heap h in
    (
      m,
      (take_entry q (some (m, rest))).0,
      rw e,
      (pop-All (Among q.heap) q.heap m rest (All-Among q.heap) e).0,
      pop-First q.heap m rest w.seqs e,
      pop-length q.heap m rest e,
    )
