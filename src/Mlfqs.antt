-- ===== src/Mlfqs.antt =====
-- The multi-level feedback queue scheduler of pintos/src/threads/thread.c: the load average, what
-- each thread used of the processor lately, and the priorities that follow. Integers are unbounded;
-- overflow is not modelled.
pub mod Priority
pub mod Load
mod Tests
use cs140_w.Prelude.{ℕ, zero, suc, ◌+◌, ◌==◌, Bool, true, false, if◌then◌else◌, List, [], ◌∷◌}
use cs140_w.Prelude.Int.{ℤ, pos, ◌+ℤ◌, ◌-ℤ◌, ◌*ℤ◌, ltb_ℤ}
use cs140_w.FixedPoint.{
  fp_to_int_nearest, fp_to_int_zero, int_to_fp, add_fp_int, multiply_fp_fp, multiply_fp_int,
  divide_fp_fp, divide_fp_int,
}

-- The members of `struct thread` that this scheduler uses.
pub record Usage : Type 0 where
  pub nice : ℤ
  pub recent_cpu : ℤ
  pub priority : ℤ

pub record Mlfqs : Type 0 where
  pub threads : ℕ → Usage
  pub all_list : List ℕ
  pub ready_size : ℕ
  pub current : ℕ
  pub idle_thread : ℕ
  pub load_avg : ℤ

abbrev pub pri_min : ℤ
pri_min = pos 0

abbrev pub pri_max : ℤ
pri_max = pos 63

abbrev pub clamp : ℤ → ℤ
clamp p = if ltb_ℤ pri_max p then pri_max else if ltb_ℤ p pri_min then pri_min else p

unfoldable pub priority_of : ℤ → ℤ → ℤ
priority_of recent_cpu nice = clamp (
    fp_to_int_zero
      (int_to_fp pri_max -ℤ divide_fp_int recent_cpu (pos 4) -ℤ int_to_fp (nice *ℤ pos 2)))

-- `thread_update_priority`
unfoldable pub update_priority : Usage → Usage
update_priority t = record t { priority = priority_of t.recent_cpu t.nice }

-- `thread_update_load_avg`, on the number of threads that are ready or run.
unfoldable pub next_load : ℤ → ℕ → ℤ
next_load load_avg ready_threads_count =
    multiply_fp_fp (divide_fp_int (int_to_fp (pos 59)) (pos 60)) load_avg
    +ℤ multiply_fp_int (divide_fp_int (int_to_fp (pos 1)) (pos 60)) (pos ready_threads_count)

unfoldable pub update_load_avg : Mlfqs → Mlfqs
update_load_avg m = record m {
  load_avg =
      next_load m.load_avg (if m.current == m.idle_thread then m.ready_size else m.ready_size + 1);
}

-- `thread_get_load_avg`
unfoldable pub get_load_avg : Mlfqs → ℤ
get_load_avg m = fp_to_int_nearest (multiply_fp_int m.load_avg (pos 100))

-- The factor by which `thread_update_recent_cpu` lets the use of the processor fade.
unfoldable pub coefficient : ℤ → ℤ
coefficient load_avg =
    let two_load_avg = multiply_fp_int load_avg (pos 2) in
    divide_fp_fp two_load_avg (add_fp_int two_load_avg (pos 1))

-- `thread_update_recent_cpu`
unfoldable pub update_recent_cpu : ℤ → Usage → Usage
update_recent_cpu load_avg t = record t {
  recent_cpu = add_fp_int (multiply_fp_fp (coefficient load_avg) t.recent_cpu) t.nice;
}

abbrev pub update : (ℕ → Usage) → ℕ → Usage → ℕ → Usage
update f i a j = if i == j then a else f j

-- `thread_increment_recent_cpu`
unfoldable pub increment_recent_cpu : Mlfqs → Mlfqs
increment_recent_cpu m =
    let t = m.threads m.current in
    record m {
      threads =
          update m.threads m.current (record t { recent_cpu = add_fp_int t.recent_cpu (pos 1) });
    }

-- `thread_foreach` with an action that writes to its thread alone.
unfoldable pub foreach : List ℕ → (Usage → Usage) → (ℕ → Usage) → ℕ → Usage
foreach [] action threads = threads
foreach (t ∷ ts) action threads = foreach ts action (update threads t (action (threads t)))

-- `thread_get_recent_cpu`
unfoldable pub get_recent_cpu : Mlfqs → ℤ
get_recent_cpu m = fp_to_int_nearest (multiply_fp_int (m.threads m.current).recent_cpu (pos 100))

abbrev pub update_priorities : Mlfqs → Mlfqs
update_priorities m = record m { threads = foreach m.all_list update_priority m.threads }

abbrev pub second_mark : Mlfqs → Mlfqs
second_mark m =
    let m' = update_load_avg m in
    record m' { threads = foreach m'.all_list (update_recent_cpu m'.load_avg) m'.threads }

-- `thread_mlfqs_update`
unfoldable pub mlfqs_update : Bool → Mlfqs → Mlfqs
mlfqs_update second_mark_flag m = update_priorities (if second_mark_flag then second_mark m else m)
