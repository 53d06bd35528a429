-- ===== src/Jobs/Invariant.antt =====
-- The invariant of the queue of crates/tfls-state/src/jobs.rs: jobs and sequence numbers are
-- distinct, and the pending set holds exactly the queued jobs.
use terraform_ls_rs.Base.{
  ℕ, ◌+◌, ◌≤◌, Bool, false, not, ◌&&◌, ◌||◌, Option, none, some, List, [], ◌∷◌, ◌≡◌, ◌≢◌, refl, sym,
  ap, subst, ◌∙◌, All, All-map, Bool-cases, inl, inr, arith,
}
use mathlib.Core.Option.{some-injective}
use terraform_ls_rs.Base.Order.{is_lt}
use terraform_ls_rs.Jobs.Queue.{
  Job, job_eq, job_eq_iff, Priority, Entry, cmp_entry, Inner, contains, remove, pick, pop, enqueue,
  try_next, take_entry, complete,
}

unfoldable pub has_job : List Entry → Job → Bool
has_job [] j = false
has_job (e ∷ es) j = job_eq j e.job || has_job es j

-- Entries that all differ by `key`.
abbrev pub Distinct {ℓ} : {K : Type ℓ} → (Entry → K) → List Entry → Type ℓ
Distinct key [] = Unit
Distinct key (e ∷ es) = All (λ x. key x ≢ key e) es × Distinct key es

-- What a pop keeps of a heap that is not empty.
module _ {ℓ} (P : Entry → Type ℓ) where
  pick-All :
      (e : Entry) (o : Option (Entry × List Entry)) (es : List Entry)
      → ((m : Entry) (rest : List Entry) → o ≡ some (m, rest) → P m × All P rest)
      → P e
      → P (pick e o).0 × All P (pick e o).1
  unfolding pick
  pick-All e none es h p = (p, tt)
  pick-All e (some (m, rest)) es h p = elim (Bool-cases (is_lt (cmp_entry e m))) [
    | inl less ↦ rw less ((h m rest refl).0, (p, (h m rest refl).1))
    | inr more ↦ rw more (p, ((h m rest refl).0, (h m rest refl).1))
  ]

  pub pop-All :
      (es : List Entry) (m : Entry) (rest : List Entry)
      → All P es
      → pop es ≡ some (m, rest)
      → P m × All P rest
  unfolding pop
  pop-All [] m rest h e = absurd (cc)
  pop-All (x ∷ es) m rest h e =
      subst (λ (t : Entry × List Entry). P t.0 × All P t.1) (some-injective _ _ e)
        (pick-All x (pop es) es (λ m' rest' e'. pop-All es m' rest' h.1 e') h.0)

-- The rest of a popped heap has distinct keys again, and none of them is the key taken.
abbrev DistinctFrom {ℓ} : {K : Type ℓ} → (Entry → K) → Entry × List Entry → Type ℓ
DistinctFrom key (m, rest) = All (λ x. key x ≢ key m) rest × Distinct key rest

module _ {ℓ} {K : Type ℓ} (key : Entry → K) where
  pick-Distinct :
      (e : Entry) (o : Option (Entry × List Entry))
      → ((t : Entry × List Entry)
          → o ≡ some t
          → DistinctFrom key t × (key t.0 ≢ key e) × All (λ x. key x ≢ key e) t.1)
      → DistinctFrom key (pick e o)
  unfolding pick
  pick-Distinct e none h = (tt, tt)
  pick-Distinct e (some (m, rest)) h =
      let ((apart, distinct), new, others) = h (m, rest) refl in
      elim (Bool-cases (is_lt (cmp_entry e m))) [
        | inl less ↦ rw less (((λ p. new (sym p)), apart), (others, distinct))
        | inr more ↦ rw more ((new, others), (apart, distinct))
      ]

  pub pop-Distinct :
      (es : List Entry) (m : Entry) (rest : List Entry)
      → Distinct key es
      → pop es ≡ some (m, rest)
      → DistinctFrom key (m, rest)
  unfolding pop
  pop-Distinct [] m rest h e = absurd (cc)
  pop-Distinct (x ∷ es) m rest h e = subst (DistinctFrom key) (some-injective _ _ e) (
      pick-Distinct x (pop es) λ (m', rest') e'.
        let kept = pop-All (λ y. key y ≢ key x) es m' rest' h.0 e' in
        (pop-Distinct es m' rest' h.1 e', kept.0, kept.1))

pick-has_job :
    (e : Entry) (o : Option (Entry × List Entry)) (es : List Entry) (j : Job)
    → ((m : Entry) (rest : List Entry)
        → o ≡ some (m, rest)
        → has_job es j ≡ (job_eq j m.job || has_job rest j))
    → (o ≡ none → has_job es j ≡ false)
    → has_job (e ∷ es) j ≡ (job_eq j (pick e o).0.job || has_job (pick e o).1 j)
unfolding pick has_job
pick-has_job e none es j h n = rw (n refl)
pick-has_job e (some (m, rest)) es j h n = ground (arith, h m rest refl)

pop-none : (es : List Entry) → pop es ≡ none → es ≡ []
unfolding pop
pop-none [] e = refl
pop-none (x ∷ es) e = absurd (cc)

pub pop-has_job :
    (es : List Entry) (m : Entry) (rest : List Entry) (j : Job)
    → pop es ≡ some (m, rest)
    → has_job es j ≡ (job_eq j m.job || has_job rest j)
unfolding pop
pop-has_job [] m rest j e = absurd (cc)
pop-has_job (x ∷ es) m rest j e =
    subst (λ (t : Entry × List Entry). has_job (x ∷ es) j ≡ (job_eq j t.0.job || has_job t.1 j))
      (some-injective _ _ e)
      (pick-has_job x (pop es) es j (λ m' rest' e'. pop-has_job es m' rest' j e')
        λ n. rw (pop-none es n) (empty_heap j))
  where
    empty_heap : (k : Job) → has_job [] k ≡ false
    empty_heap k = unfold has_job in refl

pub contains-remove :
    (xs : List Job) (job j : Job)
    → contains (remove xs job) j ≡ (contains xs j && not (job_eq j job))
unfolding contains remove
contains-remove [] job j = refl
contains-remove (x ∷ xs) job j =
    ground (arith, contains-remove xs job j, job_eq_iff job x, job_eq_iff j x, job_eq_iff j job)

has_job-false : (es : List Entry) (j : Job) → All (λ x. x.job ≢ j) es → has_job es j ≡ false
unfolding has_job
has_job-false [] j h = refl
has_job-false (e ∷ es) j h = ground (arith, has_job-false es j h.1, job_eq_iff j e.job, h.0)

pub record IsWell (q : Inner) : Type 0 where
  -- No two queued entries have the same job, or the same sequence number.
  pub jobs : Distinct (λ e. e.job) q.heap
  pub seqs : Distinct (λ e. e.seq) q.heap
  -- Every sequence number was given out.
  pub given : All (λ e. e.seq ≤ q.seq) q.heap
  -- The pending set holds exactly the jobs in the heap.
  pub tracked : (j : Job) → contains q.pending j ≡ has_job q.heap j

has_job-All : (es : List Entry) (j : Job) → has_job es j ≡ false → All (λ e. e.job ≢ j) es
unfolding has_job
has_job-All [] j h = tt
has_job-All (e ∷ es) j h =
    ((λ p. ground (arith, job_eq_iff j e.job)), has_job-All es j (ground arith))

seq_fresh : (n : ℕ) (es : List Entry) → All (λ e. e.seq ≤ n) es → All (λ e. e.seq ≢ n + 1) es
seq_fresh n es h = All-map (λ e. e.seq ≤ n) _ es (λ e le. omega arith) h

seq_grows : (n : ℕ) (es : List Entry) → All (λ e. e.seq ≤ n) es → All (λ e. e.seq ≤ n + 1) es
seq_grows n es h = All-map (λ e. e.seq ≤ n) _ es (λ e le. omega arith) h

-- `enqueue` keeps the invariant.
pub enqueue-IsWell :
    (q : Inner) (job : Job) (priority : Priority) → IsWell q → IsWell (enqueue q job priority).0
unfolding enqueue contains has_job
enqueue-IsWell q job priority w = elim (Bool-cases (contains q.pending job)) [
  | inl old ↦ rw old w
  | inr new ↦ rw new (record {
    jobs = (has_job-All q.heap job (sym (w.tracked job) ∙ new), w.jobs);
    seqs = (seq_fresh q.seq q.heap w.given, w.seqs);
    given = (omega arith, seq_grows q.seq q.heap w.given);
    tracked = λ j. ap (λ b. job_eq j job || b) (w.tracked j);
  })
]

take_entry-IsWell :
    (q : Inner) (o : Option (Entry × List Entry))
    → pop q.heap ≡ o
    → IsWell q
    → IsWell (take_entry q o).0
take_entry-IsWell q none e w = w
take_entry-IsWell q (some (m, rest)) e w = record {
  jobs = (pop-Distinct (λ x. x.job) q.heap m rest w.jobs e).1;
  seqs = (pop-Distinct (λ x. x.seq) q.heap m rest w.seqs e).1;
  given = (pop-All (λ x. x.seq ≤ q.seq) q.heap m rest w.given e).1;
  tracked = λ j. ground (
    arith,
    contains-remove q.pending m.job j,
    w.tracked j,
    pop-has_job q.heap m rest j e,
    has_job-false rest m.job (pop-Distinct (λ x. x.job) q.heap m rest w.jobs e).0,
    job_eq_iff j m.job,
  );
}

-- `try_next` keeps the invariant.
pub try_next-IsWell : (q : Inner) → IsWell q → IsWell (try_next q).0
unfolding try_next
try_next-IsWell q w = take_entry-IsWell q (pop q.heap) refl w

-- `complete` keeps the invariant.
pub complete-IsWell : (q : Inner) → IsWell q → IsWell (complete q)
unfolding complete
complete-IsWell q w = record { jobs = w.jobs; seqs = w.seqs; given = w.given; tracked = w.tracked }

-- To enqueue a job a second time, at any priority, changes nothing and wakes nobody.
pub enqueue-enqueue :
    (q : Inner) (job : Job) (priority again : Priority)
    → enqueue (enqueue q job priority).0 job again ≡ ((enqueue q job priority).0, false)
unfolding enqueue contains
enqueue-enqueue q job priority again = ground (arith, job_eq_iff job job)
