-- ===== src/Synch/Tests.antt =====
-- Instances of the theorems on semaphores and locks.
use cs140_w.Prelude.{ℕ, ◌≡◌, refl, ◌==◌, true, false, if◌then◌else◌, none, some, [], ◌∷◌, arith}
use cs140_w.Prelude.Int.{pos}
use cs140_w.Thread.{running, blocked, Kernel}
use cs140_w.Thread.Schedule.{Sched}
use cs140_w.Synch.{sema_down_round, sema_wake}
use cs140_w.Synch.Wake.{AllBlocked, Woken, sema_wake-Woken}
use cs140_w.Synch.Steps.{inside, acquire_step, announce}
use cs140_w.Synch.Interleaving.{System, Reach, busy, initial, next, acquire}
use cs140_w.Synch.Exclusion.{mutual_exclusion}
use cs140_w.Synch.Frame.{holder}

-- Thread 0 runs, and threads 1 and 2 wait for semaphore 0; 9 is the idle thread.
abbrev waited : Kernel
waited = record {
  threads = λ t. record {
    status = if t == 0 then running else blocked;
    priority = pos (if t == 2 then 40 else 31);
    original_priority = pos 31;
    lock_waited_on = none;
    locks_held = [];
  };
  locks = λ l. record { holder = none; semaphore = record { value = 0; waiters = 1 ∷ 2 ∷ [] } };
  ready_list = [];
  all_list = 0 ∷ 1 ∷ 2 ∷ 9 ∷ [];
  current = 0;
  idle_thread = 9;
  thread_ticks = 0;
}

waited-Sched : Sched waited
waited-Sched = record { now = refl; only = λ t h. ground arith; queued = λ t. ground arith }

waited-AllBlocked : AllBlocked waited (1 ∷ 2 ∷ [])
waited-AllBlocked = ((refl, λ e. omega arith), ((refl, λ e. omega arith), tt))

sema_wake-Woken_example :
    (t : ℕ) × (k' : Kernel) × (sema_wake waited 0 ≡ some k') × Woken waited 0 t k'
sema_wake-Woken_example = sema_wake-Woken waited 0 1 (2 ∷ []) waited-Sched refl waited-AllBlocked

-- Thread 0 takes a fresh lock.
abbrev fresh : Kernel
fresh = record waited {
  locks = λ l. record { holder = none; semaphore = record { value = 1; waiters = [] } };
}

-- A reachable state with thread 0 inside.
record Entered : Type 0 where
  last : System
  reach : Reach 0 last

abbrev entered : Entered
unfolding acquire_step announce sema_down_round
entered = record {
  last = _;
  reach =
      next
        (next
          (next
            (next (next (next (initial fresh refl refl) (acquire 1 refl)) (acquire 1 refl))
              (acquire 1 refl))
            (acquire 1 refl))
          (acquire 1 refl))
        (acquire 1 refl);
}

is_inside : (entered.last.pc 0 ≡ inside) × (holder entered.last.kernel 0 ≡ some 0)
unfolding entered
is_inside = (refl, refl)

mutual_exclusion_example :
    ((t u : ℕ) → busy (entered.last.pc t) ≡ true → busy (entered.last.pc u) ≡ true → t ≡ u)
    × ((t : ℕ) → entered.last.pc t ≡ inside → holder entered.last.kernel 0 ≡ some t)
    × (((t : ℕ) → busy (entered.last.pc t) ≡ false) → holder entered.last.kernel 0 ≡ none)
mutual_exclusion_example = mutual_exclusion entered.reach
