-- ===== src/Jobs/Queue.antt =====
-- `JobQueue` of crates/tfls-state/src/jobs.rs. An operation holds the mutex for its whole body, so
-- each is one step on `Inner`. The `BinaryHeap` is the list of its entries, in no stated order, and
-- `pop` takes a greatest one; the `HashSet` is the list of its members.
use Prim.Native.Nat.{compare}
use terraform_ls_rs.Base.{
  ℕ, ◌+◌, ◌-◌, Bool, true, false, ◌&&◌, ◌||◌, Option, none, some, List, [], ◌∷◌, ◌≡◌, ◌↔◌, Ordering,
  ◌==◌, if◌then◌else◌, Bytes, length, is_empty, arith, ℕ_discrete,
}
use terraform_ls_rs.Base.Order.{then_with, is_lt}

-- A `PathBuf` is the list of its components, which its equality compares.
abbrev pub PathBuf : Type 0
PathBuf = List Bytes

-- A URL is its text.
pub data Job : Type 0 where
  parse_file : (path : PathBuf) → Job
  reparse_document : (url : Bytes) → Job
  fetch_schemas : (working_dir : PathBuf) → Job
  fetch_functions : (binary : PathBuf) → Job
  scan_directory : (path : PathBuf) → Job
  bulk_workspace_scan : (path : PathBuf) → Job

unfoldable pub Job-discrete : Discrete Job
Job-discrete = hlevel ℕ_discrete

-- The derived equality.
unfoldable pub job_eq : Job → Job → Bool
unfolding Job-discrete ℕ_discrete
job_eq a b = elim (Job-discrete a b) [ yes p ↦ true | no p ↦ false ]

pub data Priority : Type 0 where
  low normal high immediate : Priority

unfoldable pub rank : Priority → ℕ
rank low = 0
rank normal = 1
rank high = 2
rank immediate = 3

pub record Entry : Type 0 where
  pub priority : Priority
  pub seq : ℕ
  pub job : Job

-- Higher priority first; lower `seq` first within one priority.
unfoldable pub cmp_entry : Entry → Entry → Ordering
unfolding rank
cmp_entry a b = then_with (compare (rank a.priority) (rank b.priority)) (compare b.seq a.seq)

pub record Inner : Type 0 where
  pub heap : List Entry
  pub pending : List Job
  pub in_flight : ℕ
  pub seq : ℕ

abbrev pub new : Inner
new = record { heap = []; pending = []; in_flight = 0; seq = 0 }

-- `HashSet::contains`, `insert` (false if the job was there) and `remove`.
unfoldable pub contains : List Job → Job → Bool
unfolding job_eq
contains [] job = false
contains (x ∷ xs) job = job_eq job x || contains xs job

unfoldable pub remove : List Job → Job → List Job
unfolding job_eq
remove [] job = []
remove (x ∷ xs) job = let rest = remove xs job in if job_eq job x then rest else x ∷ rest

-- The greater of an entry and what `pop` took from the others.
unfoldable pub pick : Entry → Option (Entry × List Entry) → Entry × List Entry
unfolding cmp_entry
pick e none = (e, [])
pick e (some (m, rest)) = if is_lt (cmp_entry e m) then (m, e ∷ rest) else (e, m ∷ rest)

-- `BinaryHeap::pop`.
unfoldable pub pop : List Entry → Option (Entry × List Entry)
unfolding pick
pop [] = none
pop (e ∷ es) = some (pick e (pop es))

-- `enqueue`, with whether the consumer is notified.
unfoldable pub enqueue : Inner → Job → Priority → Inner × Bool
enqueue q job priority = if contains q.pending job then (q, false) else (
  record q {
    heap = record { priority = priority; seq = q.seq + 1; job = job } ∷ q.heap;
    pending = job ∷ q.pending;
    seq = q.seq + 1;
  },
  true,
)

abbrev pub take_entry : Inner → Option (Entry × List Entry) → Inner × Option Job
take_entry q none = (q, none)
take_entry q (some (entry, rest)) = (
  record q { heap = rest; pending = remove q.pending entry.job; in_flight = q.in_flight + 1 },
  some entry.job,
)

unfoldable pub try_next : Inner → Inner × Option Job
try_next q = take_entry q (pop q.heap)

-- `saturating_sub(1)`.
unfoldable pub complete : Inner → Inner
complete q = record q { in_flight = q.in_flight - 1 }

unfoldable pub len : Inner → ℕ
len q = length q.heap

unfoldable pub is_idle : Inner → Bool
is_idle q = is_empty q.heap && q.in_flight == 0

pub job_eq_iff : (a b : Job) → (job_eq a b ≡ true) ↔ (a ≡ b)
unfolding job_eq
job_eq_iff a b = ground arith
