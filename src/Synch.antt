-- ===== src/Synch.antt =====
-- pintos/src/threads/synch.c: semaphores, locks and condition variables over the scheduler. Every
-- semaphore is that of a `Lock` record, whose holder stays null where it is no lock. A function that
-- may sleep is cut where another thread can run: a round of the loop of `sema_down` either
-- decrements or blocks. The functions on locks are in Steps, a step at a time; `sema_up` and
-- `cond_signal` are calls that no interrupt cuts in two. Whether it is an interrupt handler that
-- calls is an argument.
pub mod Steps
pub mod Wake
pub mod Frame
pub mod Interleaving
pub mod Exclusion
mod Tests
use cs140_w.Prelude.{
  ℕ, zero, suc, ◌+◌, ◌-◌, ◌%◌, ◌^◌, ◌==◌, ltb, Bool, true, false, not, ◌&&◌, ◌||◌, if◌then◌else◌,
  Option, none, some, List, [], ◌∷◌, ◌++◌, ◌>>=◌, ◌>>◌, assert,
}
use cs140_w.Prelude.Int.{ltb_ℤ}
use cs140_w.KernelList.{list_max, list_remove}
use cs140_w.Thread.{
  Thread, Semaphore, Lock, Kernel, put_thread, put_lock, max_priority, thread_block, thread_unblock,
  thread_yield, not_highest_priority, donate_priority, recalculate_donation,
}

abbrev pub put_semaphore : Kernel → ℕ → Semaphore → Kernel
put_semaphore k l s = put_lock k l (record (k.locks l) { semaphore = s })

unfoldable pub sema_init : Kernel → ℕ → ℕ → Kernel
sema_init k l value = put_semaphore k l (record { value = value; waiters = [] })

-- One round of the loop of `sema_down`: whether the value was decremented.
unfoldable pub sema_down_round : Kernel → ℕ → Option (Bool × Kernel)
sema_down_round k l =
    let s = (k.locks l).semaphore in
    if s.value == 0
    then (thread_block (put_semaphore k l (record s { waiters = s.waiters ++ k.current ∷ [] }))
        >>= λ k'. some (false, k'))
    else some (true, put_semaphore k l (record s { value = s.value - 1 }))

unfoldable pub sema_try_down : Kernel → ℕ → Bool × Kernel
sema_try_down k l =
    let s = (k.locks l).semaphore in
    if ltb 0 s.value
    then (true, put_semaphore k l (record s { value = s.value - 1 }))
    else (false, k)

-- The waiter that `sema_up` unblocks, if any.
abbrev pub unblock_waiter : Option ℕ → Kernel → ℕ → Option Kernel
unblock_waiter none k l = some k
unblock_waiter (some t) k l =
    let s = (k.locks l).semaphore in
    thread_unblock (put_semaphore k l (record s { waiters = list_remove t s.waiters })) t

-- The part of `sema_up` with interrupts off.
unfoldable pub sema_wake : Kernel → ℕ → Option Kernel
sema_wake k l = unblock_waiter (max_priority k.threads (k.locks l).semaphore.waiters) k l >>= λ k'.
    (let s = (k'.locks l).semaphore in
      some (put_semaphore k' l (record s { value = (s.value + 1) % 2 ^ 32 })))

-- The end of `sema_up`: a thread of higher priority runs at once, but not from a handler.
abbrev pub yield_to_higher : Bool → Kernel → Option Kernel
yield_to_higher true k = some k
yield_to_higher false k =
    not_highest_priority k >>= λ higher. (if higher then thread_yield k else some k)

unfoldable pub sema_up : Bool → Bool → Kernel → ℕ → Option Kernel
sema_up mlfqs in_handler k l = do
  k1 ← sema_wake k l
  k2 ← if mlfqs then some k1 else recalculate_donation k1
  yield_to_higher in_handler k2

abbrev pub held_by : Kernel → ℕ → ℕ → Bool
held_by k l t = elim ((k.locks l).holder) [ none ↦ false | some h ↦ h == t ]

unfoldable pub lock_init : Kernel → ℕ → Kernel
lock_init k l = sema_init (put_lock k l (record (k.locks l) { holder = none })) l 1

-- `struct semaphore_elem` in the waiters of a condition: the semaphore and the waiting thread.
pub record Waiter : Type 0 where
  pub semaphore : ℕ
  pub waiting_thread : ℕ

-- `sema_elem_priority_comparator`
abbrev pub waiter_comparator : (ℕ → Thread) → Waiter → Waiter → Bool
waiter_comparator threads a b =
    ltb_ℤ (threads a.waiting_thread).priority (threads b.waiting_thread).priority

unfoldable pub remove_waiter : ℕ → List Waiter → List Waiter
remove_waiter s [] = []
remove_waiter s (w ∷ ws) = if s == w.semaphore then ws else w ∷ remove_waiter s ws

-- `cond_signal`, with the waiters of the condition.
unfoldable pub cond_signal : Bool → Kernel → List Waiter → ℕ → Option (List Waiter × Kernel)
cond_signal mlfqs k ws l =
    assert (held_by k l k.current) >> elim (list_max (waiter_comparator k.threads) ws) [
      | none ↦ some (ws, k)
      | some w ↦ sema_up mlfqs false k w.semaphore >>= λ k'. some (remove_waiter w.semaphore ws, k')
    ]
