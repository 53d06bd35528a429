-- ===== src/Jobs/Tests.antt =====
-- Runs of the queue, and the theorems at small histories.
use terraform_ls_rs.Base.{
  List, inl, inr, [], ◌∷◌, ◌+◌, ◌<◌, true, false, some, ◌≡◌, ◌↔◌, refl, codes, All, arith,
}
use terraform_ls_rs.Jobs.Queue.{
  Job, parse_file, scan_directory, low, high, Entry, Inner, contains, remove, job_eq, pop, enqueue,
  try_next, len, is_idle,
}
use terraform_ls_rs.Jobs.Invariant.{enqueue-enqueue}
use terraform_ls_rs.Jobs.Priority.{Before, Among, try_next_first}
use terraform_ls_rs.Jobs.Taken.{
  Call, puts, takes, completes, returned, takes_in, IsIn, ahead, returned-waiting,
}
use terraform_ls_rs.Jobs.Idle.{
  History, start, after_enqueue, after_try_next, Reach, here, next, enqueues, IsCounted,
  Reach-IsCounted, is_idle_iff,
}

abbrev main_tf : Job
main_tf = parse_file (codes "main.tf" ∷ [])

abbrev modules : Job
modules = scan_directory (codes "modules" ∷ [])

abbrev two_queued : History
two_queued = after_enqueue (after_enqueue start main_tf low) modules high

two_queued-Reach : Reach two_queued
two_queued-Reach = next (next here (enqueues start main_tf low)) (enqueues _ modules high)

program : Unit {0}
unfolding enqueue contains remove job_eq pop try_next len is_idle
program = tt

takes_higher : (try_next two_queued.queue).1 ≡ some modules
unfolding program
takes_higher = refl

not_idle_yet : is_idle (after_try_next (after_try_next two_queued)).queue ≡ false
unfolding program
not_idle_yet = refl

two_long : 0 < len two_queued.queue
unfolding program
two_long = omega arith

try_next_first_example :
    (m : Entry) × (q' : Inner) × (try_next two_queued.queue ≡ (q', some m.job))
    × Among two_queued.queue.heap m
    × All (Before m) q'.heap
    × (len q' + 1 ≡ len two_queued.queue)
try_next_first_example =
    try_next_first two_queued.queue (Reach-IsCounted two_queued-Reach).well two_long

enqueue-enqueue_example :
    enqueue (enqueue two_queued.queue main_tf low).0 main_tf high
    ≡ ((enqueue two_queued.queue main_tf low).0, false)
enqueue-enqueue_example = enqueue-enqueue two_queued.queue main_tf low high

Reach-IsCounted_example : IsCounted two_queued
Reach-IsCounted_example = Reach-IsCounted two_queued-Reach

is_idle_iff_example :
    (is_idle two_queued.queue ≡ true) ↔ (two_queued.completed ≡ two_queued.accepted)
is_idle_iff_example = is_idle_iff two_queued two_queued-Reach

-- The first entry, behind the other one.
abbrev waiting : Entry
waiting = record { priority = low; seq = 1; job = main_tf }

abbrev calls : List Call
calls = takes ∷ puts modules low ∷ completes ∷ takes ∷ []

waiting-IsIn : IsIn waiting two_queued.queue.heap
unfolding program
waiting-IsIn = inr (inl refl)

enough_takes : ahead waiting two_queued.queue.heap < takes_in calls
unfolding program ahead takes_in
enough_takes = omega arith

returned-waiting_example : IsIn main_tf (returned calls two_queued.queue)
returned-waiting_example =
    returned-waiting calls two_queued.queue waiting (Reach-IsCounted two_queued-Reach).well
      waiting-IsIn (omega arith, tt) enough_takes
