-- ===== src/Synch/Steps.antt =====
-- `lock_acquire`, `lock_try_acquire` and `lock_release` in pintos/src/threads/synch.c, by the thread that
-- runs. Interrupts are on in them but for the stretches that turn them off, so each statement that
-- touches memory is a step, as is each of these stretches, and another thread may run between any two.
use cs140_w.Prelude.{
  ℕ, Bool, not, if◌then◌else◌, Option, none, some, ◌∷◌, ◌>>=◌, ◌>>◌, ◌&&◌, assert,
}
use cs140_w.Prelude.Int.{ltb_ℤ}
use cs140_w.KernelList.{list_remove}
use cs140_w.Thread.{
  Kernel, put_thread, put_lock, thread_yield, max_priority, donate_priority, is_donated,
  set_effective,
}
use cs140_w.Synch.{sema_down_round, sema_try_down, sema_wake, held_by}

-- What a thread does next with the lock.
pub data Pc : Type 0 where
  outside : Pc  -- in none of the functions, and not since it returned from one with the lock
  acquiring : Pc  -- `lock_acquire` behind its ASSERTs
  trying : Pc  -- the loop of `sema_down` in `lock_acquire`
  granted : Pc  -- behind `sema_down`
  unlisted : Pc  -- before `list_push_front`
  listed : Pc  -- before the holder is set
  inside : Pc  -- returned with the lock
  attempting : Pc  -- `lock_try_acquire` behind its ASSERTs
  releasing : Pc  -- `lock_release` behind its ASSERTs
  unheld : Pc  -- the holder is reset
  unlocked : Pc  -- before `sema_up`
  woken : Pc  -- `sema_up` before the donation is calculated again
  donated : Pc  -- `thread_recalculate_donation` behind its test
  recalculated : Pc  -- `sema_up` before the test whether to yield
  highest : ℕ → Pc  -- that test, with the ready thread of the highest priority
  yielding : Pc  -- `sema_up` before `thread_yield`

-- The part of `lock_acquire` with interrupts off; `fuel` is for the donation.
unfoldable pub announce : ℕ → Kernel → ℕ → Option Kernel
announce fuel k l =
    let cur = k.threads k.current in
    let k' = put_thread k k.current (record cur { lock_waited_on = some l }) in
    elim ((k.locks l).holder) [
      | none ↦ some k'
      | some h ↦ donate_priority fuel k' (some h) cur.priority
    ]

-- The lock goes on the list of those held, and then gets its holder.
abbrev pub push_lock : Kernel → ℕ → Kernel
push_lock k l =
    let cur = k.threads k.current in
    put_thread k k.current (record cur { locks_held = l ∷ cur.locks_held })

abbrev pub set_holder : Kernel → ℕ → Option ℕ → Kernel
set_holder k l h = put_lock k l (record (k.locks l) { holder = h })

-- A step of `lock_acquire`, with where it leaves the thread.
unfoldable pub acquire_step : ℕ → Kernel → ℕ → Pc → Option (Pc × Kernel)
acquire_step fuel k l outside = assert (not (held_by k l k.current)) >> some (acquiring, k)
acquire_step fuel k l acquiring = announce fuel k l >>= λ k'. some (trying, k')
acquire_step fuel k l trying =
    sema_down_round k l >>= λ r. some (if r.0 then granted else trying, r.1)
acquire_step fuel k l granted =
    some (unlisted, put_thread k k.current (record (k.threads k.current) { lock_waited_on = none }))
acquire_step fuel k l unlisted = some (listed, push_lock k l)
acquire_step fuel k l listed = some (inside, set_holder k l (some k.current))
acquire_step fuel k l _ = none

-- A step of `lock_try_acquire`.
unfoldable pub try_step : Kernel → ℕ → Pc → Option (Pc × Kernel)
try_step k l outside = assert (not (held_by k l k.current)) >> some (attempting, k)
try_step k l attempting = let r = sema_try_down k l in some (if r.0 then unlisted else outside, r.1)
try_step k l unlisted = some (listed, push_lock k l)
try_step k l listed = some (inside, set_holder k l (some k.current))
try_step k l _ = none

-- The ASSERT of `lock_release`.
abbrev pub release_check : Kernel → ℕ → Option (Pc × Kernel)
release_check k l = assert (held_by k l k.current) >> some (releasing, k)

-- A step of `lock_release`, and of `sema_up` from there.
unfoldable pub release_step : Bool → Kernel → ℕ → Pc → Option (Pc × Kernel)
release_step mlfqs k l outside = release_check k l
release_step mlfqs k l inside = release_check k l
release_step mlfqs k l releasing = some (unheld, set_holder k l none)
release_step mlfqs k l unheld =
    let cur = k.threads k.current in
    some
      (unlocked, put_thread k k.current (record cur { locks_held = list_remove l cur.locks_held }))
release_step mlfqs k l unlocked = sema_wake k l >>= λ k'. some (woken, k')
release_step mlfqs k l woken = some (if not mlfqs && is_donated k then donated else recalculated, k)
release_step mlfqs k l donated = set_effective k >>= λ k'. some (recalculated, k')
release_step mlfqs k l recalculated =
    max_priority k.threads k.ready_list >>= λ t. some (highest t, k)
release_step mlfqs k l (highest t) =
    let higher = ltb_ℤ (k.threads k.current).priority (k.threads t).priority in
    some (if higher then yielding else outside, k)
release_step mlfqs k l yielding = thread_yield k >>= λ k'. some (outside, k')
release_step mlfqs k l _ = none
