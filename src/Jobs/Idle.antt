-- ===== src/Jobs/Idle.antt =====
-- Every history of the queue of crates/tfls-state/src/jobs.rs, and what `is_idle` says of it. The
-- mutex orders the calls of all producers and of the consumer, so a history is one sequence.
use terraform_ls_rs.Base.{
  ℕ, ◌+◌, ◌<◌, Bool, true, false, Option, none, some, List, ◌≡◌, ◌↔◌, refl, arith,
}
use terraform_ls_rs.Jobs.Queue.{
  Job, Priority, Entry, Inner, new, contains, pop, enqueue, try_next, take_entry, complete, len,
  is_idle,
}
use terraform_ls_rs.Jobs.Invariant.{
  IsWell, has_job, enqueue-IsWell, try_next-IsWell, complete-IsWell,
}
use terraform_ls_rs.Jobs.Priority.{pop-length}

-- A queue with the numbers of jobs accepted, taken and completed so far.
pub record History : Type 0 where
  pub queue : Inner
  pub accepted : ℕ
  pub taken : ℕ
  pub completed : ℕ

abbrev count : Bool → ℕ
count true = 1
count false = 0

abbrev taken_now : Option Job → ℕ
taken_now none = 0
taken_now (some j) = 1

abbrev pub after_enqueue : History → Job → Priority → History
after_enqueue h job priority = record h {
  queue = (enqueue h.queue job priority).0;
  accepted = h.accepted + count (enqueue h.queue job priority).1;
}

abbrev pub after_try_next : History → History
after_try_next h = record h {
  queue = (try_next h.queue).0;
  taken = h.taken + taken_now (try_next h.queue).1;
}

abbrev pub after_complete : History → History
after_complete h = record h { queue = complete h.queue; completed = h.completed + 1 }

-- Producers enqueue, the consumer takes, and it completes each job that it took once.
pub data Step : History → History → Type 0 where
  enqueues : (h : History) (job : Job) (priority : Priority) → Step h (after_enqueue h job priority)
  takes : (h : History) → Step h (after_try_next h)
  completes : (h : History) → h.completed < h.taken → Step h (after_complete h)

abbrev pub start : History
start = record { queue = new; accepted = 0; taken = 0; completed = 0 }

pub data Reach : History → Type 0 where
  here : Reach start
  next : {h k : History} → Reach h → Step h k → Reach k

-- The counters agree with the queue.
pub record IsCounted (h : History) : Type 0 where
  pub well : IsWell h.queue
  pub queued : len h.queue + h.taken ≡ h.accepted
  pub flying : h.queue.in_flight + h.completed ≡ h.taken

enqueue_counts :
    (q : Inner) (job : Job) (priority : Priority)
    → (len (enqueue q job priority).0 ≡ len q + count (enqueue q job priority).1)
      × ((enqueue q job priority).0.in_flight ≡ q.in_flight)
unfolding enqueue len
enqueue_counts q job priority = ground arith

take_entry_counts :
    (q : Inner) (o : Option (Entry × List Entry))
    → pop q.heap ≡ o
    → (len (take_entry q o).0 + taken_now (take_entry q o).1 ≡ len q)
      × ((take_entry q o).0.in_flight ≡ q.in_flight + taken_now (take_entry q o).1)
unfolding len
take_entry_counts q none e = (omega arith, omega arith)
take_entry_counts q (some (m, rest)) e = (omega (arith, pop-length q.heap m rest e), refl)

try_next_counts :
    (q : Inner)
    → (len (try_next q).0 + taken_now (try_next q).1 ≡ len q)
      × ((try_next q).0.in_flight ≡ q.in_flight + taken_now (try_next q).1)
unfolding try_next
try_next_counts q = take_entry_counts q (pop q.heap) refl

Step-IsCounted : {h k : History} → Step h k → IsCounted h → IsCounted k
Step-IsCounted (enqueues h job priority) c =
    let (lengths, flights) = enqueue_counts h.queue job priority in
    record {
      well = enqueue-IsWell h.queue job priority c.well;
      queued = omega (arith, c.queued);
      flying = omega (arith, c.flying);
    }
Step-IsCounted (takes h) c =
    let (lengths, flights) = try_next_counts h.queue in
    record {
      well = try_next-IsWell h.queue c.well;
      queued = omega (arith, c.queued);
      flying = omega (arith, c.flying);
    }
Step-IsCounted (completes h room) c = record {
  well = complete-IsWell h.queue c.well;
  queued = unfold complete len in c.queued;
  flying = unfold complete in omega (arith, c.flying);
}

start-IsWell : IsWell new
unfolding contains has_job
start-IsWell = record { jobs = tt; seqs = tt; given = tt; tracked = λ j. refl }

start-IsCounted : IsCounted start
unfolding len
start-IsCounted = record { well = start-IsWell; queued = refl; flying = refl }

-- In every history each queued job stands in the heap once, sequence numbers are distinct, the
-- pending set holds exactly the queued jobs, the accepted jobs are the queued and the taken ones,
-- and the taken ones are those in flight and those completed.
pub Reach-IsCounted : {h : History} → Reach h → IsCounted h
Reach-IsCounted here = start-IsCounted
Reach-IsCounted (next r s) = Step-IsCounted s (Reach-IsCounted r)

idle_iff : (q : Inner) → (is_idle q ≡ true) ↔ ((len q ≡ 0) × (q.in_flight ≡ 0))
unfolding is_idle len
idle_iff q = ground arith

-- In every history `is_idle` is true exactly if as many jobs were completed as were accepted.
pub is_idle_iff : (h : History) → Reach h → (is_idle h.queue ≡ true) ↔ (h.completed ≡ h.accepted)
is_idle_iff h r =
    let c = Reach-IsCounted r in
    let e = idle_iff h.queue in
    (
      λ idle. omega (arith, e.0 idle, c.queued, c.flying),
      λ all. e.1 (omega (arith, c.queued, c.flying), omega (arith, c.queued, c.flying)),
    )
