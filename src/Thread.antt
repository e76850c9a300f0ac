-- ===== src/Thread.antt =====
-- pintos/src/threads/thread.c and threads/synch.c: the scheduler, priority donation, semaphores and
-- locks. A `struct thread` and a `struct lock` are named by numbers, and the kernel's state is a
-- record. Interrupts are off where the source turns them off, so each function here is one step; a
-- failed ASSERT, the use of a null pointer and the reading of a thread behind the tail of an empty
-- list are `none`. The page of a dying thread and address spaces are not modelled.
pub mod Ready
pub mod Schedule
pub mod Donation
pub mod Recalculate
pub mod Priority
mod Tests
use cs140_w.Prelude.{
  ℕ, zero, suc, ◌+◌, ◌-◌, ◌%◌, ◌^◌, ◌==◌, ltb, Bool, true, false, not, ◌&&◌, ◌||◌, if◌then◌else◌,
  Option, none, some, List, [], ◌∷◌, ◌++◌, ◌>>=◌, ◌>>◌, assert,
}
use cs140_w.Prelude.Int.{ℤ, pos, ltb_ℤ}
use cs140_w.KernelList.{list_max, list_remove}

-- `enum thread_status`
pub data Status : Type 0 where
  running ready blocked dying : Status

-- The members of `struct thread` that the scheduler and the locks use.
pub record Thread : Type 0 where
  pub status : Status
  pub priority : ℤ
  pub original_priority : ℤ
  pub lock_waited_on : Option ℕ
  pub locks_held : List ℕ

pub record Semaphore : Type 0 where
  pub value : ℕ
  pub waiters : List ℕ

-- `struct lock`
pub record Lock : Type 0 where
  pub holder : Option ℕ
  pub semaphore : Semaphore

pub record Kernel : Type 0 where
  pub threads : ℕ → Thread
  pub locks : ℕ → Lock
  pub ready_list : List ℕ
  pub all_list : List ℕ
  pub current : ℕ
  pub idle_thread : ℕ
  pub thread_ticks : ℕ

abbrev pub update {ℓ} : {A : Type ℓ} → (ℕ → A) → ℕ → A → ℕ → A
update f i a j = if i == j then a else f j

abbrev pub put_thread : Kernel → ℕ → Thread → Kernel
put_thread k t th = record k { threads = update k.threads t th }

abbrev pub put_lock : Kernel → ℕ → Lock → Kernel
put_lock k l lock = record k { locks = update k.locks l lock }

abbrev pub put_status : Kernel → ℕ → Status → Kernel
put_status k t s = put_thread k t (record (k.threads t) { status = s })

abbrev pub is_status : Status → Status → Bool
is_status running running = true
is_status ready ready = true
is_status blocked blocked = true
is_status dying dying = true
is_status _ _ = false

-- `thread_priority_comparator`
abbrev pub priority_comparator : (ℕ → Thread) → ℕ → ℕ → Bool
priority_comparator threads a b = ltb_ℤ (threads a).priority (threads b).priority

-- The thread of largest priority in a list, `none` if that is empty.
abbrev pub max_priority : (ℕ → Thread) → List ℕ → Option ℕ
max_priority threads l = list_max (priority_comparator threads) l

-- `next_thread_to_run` by the largest element of the ready list.
abbrev pub next_of : Option ℕ → Kernel → ℕ × Kernel
next_of none k = (k.idle_thread, k)
next_of (some t) k = (t, record k { ready_list = list_remove t k.ready_list })

unfoldable pub next_thread_to_run : Kernel → ℕ × Kernel
next_thread_to_run k = next_of (max_priority k.threads k.ready_list) k

-- `schedule` with `thread_schedule_tail`.
unfoldable pub schedule : Kernel → Option Kernel
schedule k =
    let (next, k') = next_thread_to_run k in
    assert (not (is_status (k.threads k.current).status running))
    >> some (record (put_status k' next running) { current = next; thread_ticks = 0 })

unfoldable pub thread_block : Kernel → Option Kernel
thread_block k = schedule (put_status k k.current blocked)

unfoldable pub thread_unblock : Kernel → ℕ → Option Kernel
thread_unblock k t =
    assert (is_status (k.threads t).status blocked)
    >> some (record (put_status k t ready) { ready_list = k.ready_list ++ t ∷ [] })

unfoldable pub thread_yield : Kernel → Option Kernel
thread_yield k = schedule (
    put_status
      (if k.current == k.idle_thread
        then k
        else record k { ready_list = k.ready_list ++ k.current ∷ [] })
      k.current ready)

-- `thread_exit` from the removal from `all_list` on.
unfoldable pub thread_exit : Kernel → Option Kernel
thread_exit k =
    schedule (put_status (record k { all_list = list_remove k.current k.all_list }) k.current dying)

-- `thread_not_highest_priority`
unfoldable pub not_highest_priority : Kernel → Option Bool
not_highest_priority k = max_priority k.threads k.ready_list >>= λ t.
    some (ltb_ℤ (k.threads k.current).priority (k.threads t).priority)

-- `thread_donate_priority`; `fuel` bounds the chain of locks, `none` is a null holder or a chain
-- that is longer.
unfoldable pub donate_priority : ℕ → Kernel → Option ℕ → ℤ → Option Kernel
donate_priority zero k t new_priority = none
donate_priority (suc fuel) k none new_priority = none
donate_priority (suc fuel) k (some t) new_priority =
    let th = k.threads t in
    let k' = put_thread k t (record th { priority = new_priority }) in
    let onward : Option Kernel = elim th.lock_waited_on [
      | none ↦ some k'
      | some l ↦ donate_priority fuel k' (k'.locks l).holder new_priority
    ] in
    if ltb_ℤ th.priority new_priority
    then (if is_status th.status blocked then onward else some k')
    else some k

-- The loop of `thread_recalculate_donation` over the locks held.
pub donation_loop : Kernel → List ℕ → ℤ → Option ℤ
donation_loop k [] max = some max
donation_loop k (l ∷ ls) max = max_priority k.threads (k.locks l).semaphore.waiters >>= λ t.
    donation_loop k ls (if ltb_ℤ max (k.threads t).priority then (k.threads t).priority else max)

-- The part of `thread_recalculate_donation` with interrupts off.
abbrev pub set_effective : Kernel → Option Kernel
set_effective k =
    let cur = k.threads k.current in
    donation_loop k cur.locks_held (pos 0) >>= λ max. some (
      put_thread k k.current (record cur {
        priority = if ltb_ℤ cur.original_priority max then max else cur.original_priority;
      }))

-- The test of `thread_recalculate_donation`, with interrupts on.
abbrev pub is_donated : Kernel → Bool
is_donated k =
    let cur = k.threads k.current in
    ltb_ℤ cur.priority cur.original_priority || ltb_ℤ cur.original_priority cur.priority

unfoldable pub recalculate_donation : Kernel → Option Kernel
recalculate_donation k = if is_donated k then set_effective k else some k
