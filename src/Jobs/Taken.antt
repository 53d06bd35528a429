-- ===== src/Jobs/Taken.antt =====
-- How long a job waits in the queue of crates/tfls-state/src/jobs.rs.
use terraform_ls_rs.Base.{
  ℕ, ◌+◌, ◌≤◌, ◌<◌, Option, none, some, List, [], ◌∷◌, ◌≡◌, ◌⊎◌, inl, inr, refl, sym, subst, ap,
  ◌∙◌, All, Bool-cases, if◌then◌else◌, ltb, ◌==◌, ◌&&◌, ◌||◌, arith,
}
use terraform_ls_rs.Base.Order.{is_lt}
use terraform_ls_rs.Jobs.Queue.{
  Job, Priority, rank, Entry, cmp_entry, Inner, contains, pick, pop, enqueue, try_next, complete,
}
use terraform_ls_rs.Jobs.Invariant.{IsWell, enqueue-IsWell, try_next-IsWell, complete-IsWell}
use terraform_ls_rs.Jobs.Priority.{Before, pop-First}

-- The calls of the producers and the consumer.
pub data Call : Type 0 where
  puts : Job → Priority → Call
  takes : Call
  completes : Call

abbrev pub emit : Option Job → List Job → List Job
emit none jobs = jobs
emit (some job) jobs = job ∷ jobs

-- The jobs that the calls of `try_next` return.
unfoldable pub returned : List Call → Inner → List Job
returned [] q = []
returned (puts job priority ∷ calls) q = returned calls (enqueue q job priority).0
returned (takes ∷ calls) q = emit (try_next q).1 (returned calls (try_next q).0)
returned (completes ∷ calls) q = returned calls (complete q)

-- The number of calls of `try_next`.
unfoldable pub takes_in : List Call → ℕ
takes_in [] = 0
takes_in (puts job priority ∷ calls) = takes_in calls
takes_in (takes ∷ calls) = takes_in calls + 1
takes_in (completes ∷ calls) = takes_in calls

-- No call enqueues at a priority higher than that of `e`.
abbrev pub NoneHigher : Entry → List Call → Type 0
NoneHigher e [] = Unit
NoneHigher e (puts job priority ∷ calls) = (rank priority ≤ rank e.priority) × NoneHigher e calls
NoneHigher e (takes ∷ calls) = NoneHigher e calls
NoneHigher e (completes ∷ calls) = NoneHigher e calls

abbrev pub IsIn : {A : Type 0} → A → List A → Type 0
IsIn x [] = ⊥
IsIn x (y ∷ ys) = (y ≡ x) ⊎ IsIn x ys

All-IsIn : (P : Entry → Type 0) (es : List Entry) (e : Entry) → All P es → IsIn e es → P e
All-IsIn P [] e h i = absurd i
All-IsIn P (x ∷ es) e h (inl here) = subst P here h.0
All-IsIn P (x ∷ es) e h (inr there) = All-IsIn P es e h.1 there

-- 1 for an entry that goes out before `e`: of higher priority, or of the same and earlier.
abbrev pub before_one : Entry → Entry → ℕ
before_one e x =
    if ltb (rank e.priority) (rank x.priority)
      || (rank e.priority == rank x.priority && ltb x.seq e.seq)
    then 1
    else 0

-- The entries that go out before `e`.
unfoldable pub ahead : Entry → List Entry → ℕ
ahead e [] = 0
ahead e (x ∷ es) = before_one e x + ahead e es

before_one-Before : (e x : Entry) → Before x e → before_one e x ≡ 1
before_one-Before e x h = ground arith

-- What `pop` took, and what it left.
abbrev Holds : Entry → Entry × List Entry → Type 0
Holds e (m, rest) = (m ≡ e) ⊎ IsIn e rest

abbrev ahead_of : Entry → Option (Entry × List Entry) → ℕ
ahead_of e none = 0
ahead_of e (some (m, rest)) = before_one e m + ahead e rest

pick-Holds_own : (x : Entry) (o : Option (Entry × List Entry)) → Holds x (pick x o)
unfolding pick
pick-Holds_own x none = inl refl
pick-Holds_own x (some (m, rest)) = elim (Bool-cases (is_lt (cmp_entry x m))) [
  | inl less ↦ rw less (inr (inl refl))
  | inr more ↦ rw more (inl refl)
]

pick-Holds :
    (e x m : Entry) (rest : List Entry) → Holds e (m, rest) → Holds e (pick x (some (m, rest)))
unfolding pick
pick-Holds e x m rest h = elim (Bool-cases (is_lt (cmp_entry x m))) [
  | inl less ↦ rw less (elim h [ inl own ↦ inl own | inr left ↦ inr (inr left) ])
  | inr more ↦ rw more (inr h)
]

-- An entry of the heap is taken or left.
pop-Holds :
    (es : List Entry) (e : Entry)
    → IsIn e es
    → (m : Entry) × (rest : List Entry) × (pop es ≡ some (m, rest)) × Holds e (m, rest)
unfolding pop
pop-Holds [] e i = absurd i
pop-Holds (x ∷ es) e (inl here) = (
  (pick x (pop es)).0,
  (pick x (pop es)).1,
  refl,
  subst (λ (y : Entry). Holds y (pick x (pop es))) here (pick-Holds_own x (pop es)),
)
pop-Holds (x ∷ es) e (inr there) =
    let (m, rest, popped, h) = pop-Holds es e there in
    (
      (pick x (some (m, rest))).0,
      (pick x (some (m, rest))).1,
      ap (λ o. some (pick x o)) popped,
      pick-Holds e x m rest h,
    )

pick-ahead :
    (e x : Entry) (o : Option (Entry × List Entry))
    → ahead_of e (some (pick x o)) ≡ before_one e x + ahead_of e o
unfolding pick ahead
pick-ahead e x none = refl
pick-ahead e x (some (m, rest)) = elim (Bool-cases (is_lt (cmp_entry x m))) [
  | inl less ↦ rw less (omega arith)
  | inr more ↦ rw more (omega arith)
]

pop-ahead : (e : Entry) (es : List Entry) → ahead_of e (pop es) ≡ ahead e es
unfolding pop ahead
pop-ahead e [] = refl
pop-ahead e (x ∷ es) = pick-ahead e x (pop es) ∙ ap (λ n. before_one e x + n) (pop-ahead e es)

-- An enqueue keeps a waiting entry, and puts nothing of at most its priority before it.
enqueue-ahead :
    (q : Inner) (e : Entry) (job : Job) (priority : Priority)
    → e.seq ≤ q.seq
    → rank priority ≤ rank e.priority
    → IsIn e q.heap
    → IsIn e (enqueue q job priority).0.heap
      × (ahead e (enqueue q job priority).0.heap ≡ ahead e q.heap)
unfolding enqueue ahead
enqueue-ahead q e job priority old low i = elim (Bool-cases (contains q.pending job)) [
  | inl known ↦ rw known (i, refl)
  | inr new ↦ rw new (inr i, ground arith)
]

-- A call of `try_next` returns the entry, or takes one that is before it.
abbrev Goes : Entry → Inner → Type 0
Goes e q =
    ((try_next q).1 ≡ some e.job)
    ⊎ ((j : Job) × ((try_next q).1 ≡ some j)
        × IsIn e (try_next q).0.heap
        × (ahead e (try_next q).0.heap + 1 ≡ ahead e q.heap))

try_next-Goes : (q : Inner) (e : Entry) → IsWell q → IsIn e q.heap → Goes e q
unfolding try_next
try_next-Goes q e w i =
    let (m, rest, popped, h) = pop-Holds q.heap e i in
    elim h [
      | inl own ↦ inl (rw popped (ap (λ (x : Entry). some x.job) own))
      | inr left ↦
          let first = All-IsIn (Before m) rest e (pop-First q.heap m rest w.seqs popped) left in
          let counted : before_one e m + ahead e rest ≡ ahead e q.heap =
            ap (ahead_of e) (sym popped) ∙ pop-ahead e q.heap in
          inr (
            m.job,
            rw popped refl,
            rw popped left,
            rw popped (omega (arith, before_one-Before e m first)),
          )
    ]

-- In a well-formed queue every waiting entry goes out: its job is returned by one of the calls that
-- follow if more of them are `try_next` than there are entries before it (of higher priority, or of
-- the same and earlier), and none of them enqueues at a higher priority.
pub returned-waiting :
    (calls : List Call) (q : Inner) (e : Entry)
    → IsWell q
    → IsIn e q.heap
    → NoneHigher e calls
    → ahead e q.heap < takes_in calls
    → IsIn e.job (returned calls q)
unfolding returned takes_in complete
returned-waiting [] q e w i low h = absurd (omega arith)
returned-waiting (puts job priority ∷ calls) q e w i (fits, low) h =
    let (still, same) =
      enqueue-ahead q e job priority (All-IsIn (λ x. x.seq ≤ q.seq) q.heap e w.given i) fits i in
    returned-waiting calls (enqueue q job priority).0 e (enqueue-IsWell q job priority w) still low
      (omega arith)
returned-waiting (takes ∷ calls) q e w i low h = elim (try_next-Goes q e w i) [
  | inl now ↦ rw now (inl refl)
  | inr (j, other, still, less) ↦
      rw other (
        inr (returned-waiting calls (try_next q).0 e (try_next-IsWell q w) still low (omega arith)))
]
returned-waiting (completes ∷ calls) q e w i low h =
    returned-waiting calls (complete q) e (complete-IsWell q w) i low h
