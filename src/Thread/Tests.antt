-- ===== src/Thread/Tests.antt =====
-- Instances of the theorems on the scheduler and on donation.
use cs140_w.Prelude.{
  false, ℕ, ◌≡◌, refl, ◌==◌, if◌then◌else◌, Option, none, some, List, [], ◌∷◌, arith,
}
use cs140_w.Prelude.Int.{ℤ, pos}
use cs140_w.KernelList.{list_remove, list_max}
use cs140_w.Thread.{
  Status, running, ready, blocked, Thread, Kernel, Lock, put_status, put_thread, schedule,
  thread_block, thread_yield, next_thread_to_run, donate_priority, recalculate_donation,
}
use cs140_w.Thread.Ready.{Next, next_thread_to_run-Next}
use cs140_w.Thread.Schedule.{
  Sched, Switched, requeued, thread_block-Switched, thread_yield-Switched,
}
use cs140_w.Thread.Donation.{WaitsHeld, Donated, donate_priority-Donated}
use cs140_w.Thread.Priority.{thread_set_priority, Assigned, Highest, thread_set_priority-Settled}
use cs140_w.Thread.Recalculate.{Effective, recalculate_donation-Effective}

abbrev thread : Status → ℕ → ℕ → Option ℕ → List ℕ → Thread
thread s priority original waited held = record {
  status = s;
  priority = pos priority;
  original_priority = pos original;
  lock_waited_on = waited;
  locks_held = held;
}

-- Thread 0 runs with lock 0, for which thread 1 waits; threads 2 and 3 are ready, and 9 is idle.
abbrev threads : ℕ → Thread
threads t =
    if t == 0
    then thread running 31 10 none (0 ∷ [])
    else if t == 1
    then thread blocked 31 31 (some 0) (1 ∷ [])
    else if t == 2
    then thread ready 20 20 none []
    else if t == 3
    then thread ready 20 20 none []
    else thread blocked 0 0 none []

-- Lock 0 is held by thread 0, and lock 1 by thread 1.
abbrev locks : ℕ → Lock
locks l =
    if l == 0
    then record { holder = some 0; semaphore = record { value = 0; waiters = 1 ∷ [] } }
    else record { holder = some 1; semaphore = record { value = 0; waiters = [] } }

abbrev sample : Kernel
sample = record {
  threads = threads;
  locks = locks;
  ready_list = 2 ∷ 3 ∷ [];
  all_list = 0 ∷ 1 ∷ 2 ∷ 3 ∷ 9 ∷ [];
  current = 0;
  idle_thread = 9;
  thread_ticks = 3;
}

abbrev runs : Option Kernel → Option ℕ
runs none = none
runs (some k) = some k.current

-- Of two ready threads of one priority the one that came first runs.
block_runs_two : runs (thread_block sample) ≡ some 2
unfolding thread_block schedule next_thread_to_run list_remove list_max
block_runs_two = refl

sample-Sched : Sched sample
sample-Sched = record { now = refl; only = λ t h. ground arith; queued = λ t. ground arith }

next_thread_to_run-Next_example :
    Next sample (next_thread_to_run sample).0 (next_thread_to_run sample).1
next_thread_to_run-Next_example = next_thread_to_run-Next sample

thread_block-Switched_example :
    (k' : Kernel) × (thread_block sample ≡ some k') × Switched (put_status sample 0 blocked) k'
thread_block-Switched_example = thread_block-Switched sample sample-Sched

thread_yield-Switched_example :
    (k' : Kernel) × (thread_yield sample ≡ some k') × Switched (requeued sample) k'
thread_yield-Switched_example = thread_yield-Switched sample sample-Sched

-- Thread 0 gives itself the priority 5; the donation of thread 1 keeps it running.
thread_set_priority-Settled_example :
    (k' : Kernel) × (thread_set_priority false sample (pos 5) ≡ some k')
    × Sched k'
    × Highest k'
    × Assigned sample (pos 5) k'
thread_set_priority-Settled_example =
    thread_set_priority-Settled sample (pos 5) sample-Sched (λ e. cc) (λ e. cc, tt)

sample-WaitsHeld : WaitsHeld 4 sample
sample-WaitsHeld t l b w = (0, ground arith, omega arith)

-- A donation to thread 1 goes on to thread 0.
donate_priority-Donated_example :
    (k' : Kernel) × (donate_priority 5 sample (some 1) (pos 63) ≡ some k')
    × Donated sample (pos 63) 1 k'
donate_priority-Donated_example =
    donate_priority-Donated 5 4 1 (pos 63) sample sample-WaitsHeld (omega arith) (omega arith)

recalculate_donation-Effective_example :
    (p : ℤ) × (recalculate_donation sample
      ≡ some (put_thread sample 0 (record (sample.threads 0) { priority = p })))
    × Effective sample p
recalculate_donation-Effective_example =
    recalculate_donation-Effective sample (λ e. ground arith) (λ e. cc, tt)
