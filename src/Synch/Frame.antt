-- ===== src/Synch/Frame.antt =====
-- What the parts of the lock functions do to the locks.
use cs140_w.Prelude.{
  ℕ, zero, suc, ◌+◌, ◌-◌, ◌%◌, ◌^◌, ◌<◌, ◌≡◌, refl, ap, ◌==◌, true, false, if◌then◌else◌, Option,
  none, some, [], ◌∷◌, ◌++◌, arith, Bool-cases, inl, inr,
}
use cs140_w.KernelList.{list_remove}
use cs140_w.Prelude.Int.{ℤ}
use cs140_w.Thread.{
  ready, blocked, Lock, Kernel, put_thread, put_status, max_priority, next_of, next_thread_to_run,
  schedule, thread_block, thread_unblock, thread_yield, donate_priority, set_effective,
}
use cs140_w.Synch.Steps.{announce}
use cs140_w.Synch.{put_semaphore, sema_down_round, sema_try_down, sema_wake}

next_of-locks : (o : Option ℕ) (k : Kernel) → (next_of o k).1.locks ≡ k.locks
next_of-locks none k = refl
next_of-locks (some t) k = refl

schedule-locks : (k k' : Kernel) → schedule k ≡ some k' → k'.locks ≡ k.locks
unfolding schedule next_thread_to_run
schedule-locks k k' e = ground (arith, next_of-locks (max_priority k.threads k.ready_list) k)

block-locks : (k k' : Kernel) → thread_block k ≡ some k' → k'.locks ≡ k.locks
unfolding thread_block
block-locks k k' e = schedule-locks (put_status k k.current blocked) k' e

pub yield-locks : (k k' : Kernel) → thread_yield k ≡ some k' → k'.locks ≡ k.locks
unfolding thread_yield
yield-locks k k' e = ground (arith, schedule-locks (requeued k) k' e)
  where
    requeued : Kernel → Kernel
    requeued k =
        put_status
          (if k.current == k.idle_thread
            then k
            else record k { ready_list = k.ready_list ++ k.current ∷ [] })
          k.current ready

unblock-locks :
    (k : Kernel) (t : ℕ) (k' : Kernel) → thread_unblock k t ≡ some k' → k'.locks ≡ k.locks
unfolding thread_unblock
unblock-locks k t k' e = ground arith

pub set_effective-locks : (k k' : Kernel) → set_effective k ≡ some k' → k'.locks ≡ k.locks
set_effective-locks k k' e = ground arith

donate-locks :
    (fuel : ℕ) (k : Kernel) (o : Option ℕ) (p : ℤ) (k' : Kernel)
    → donate_priority fuel k o p ≡ some k'
    → k'.locks ≡ k.locks
unfolding donate_priority
donate-locks zero k o p k' e = cc
donate-locks (suc fuel) k none p k' e = cc
donate-locks (suc fuel) k (some t) p k' e = by_wait (k.threads t).lock_waited_on refl (λ l.
    donate-locks fuel (put_thread k t (record (k.threads t) { priority = p })) (k.locks l).holder p
      k')
  where
    by_wait :
        (o : Option ℕ)
        → (k.threads t).lock_waited_on ≡ o
        → ((l : ℕ)
            → donate_priority fuel
                (put_thread k t (record (k.threads t) { priority = p }))
                (k.locks l).holder
                p
              ≡ some k'
            → k'.locks ≡ k.locks)
        → k'.locks ≡ k.locks
    by_wait none w ih = ground arith
    by_wait (some l) w ih = ground (arith, ih l)

abbrev pub value : Kernel → ℕ → ℕ
value k l = (k.locks l).semaphore.value

abbrev pub holder : Kernel → ℕ → Option ℕ
holder k l = (k.locks l).holder

pub announce-locks :
    (fuel : ℕ) (k : Kernel) (l : ℕ) (k' : Kernel) → announce fuel k l ≡ some k' → k'.locks ≡ k.locks
unfolding announce
announce-locks fuel k l k' e = by_holder (k.locks l).holder refl
  where
    waiting : Kernel
    waiting = put_thread k k.current (record (k.threads k.current) { lock_waited_on = some l })

    by_holder : (o : Option ℕ) → (k.locks l).holder ≡ o → k'.locks ≡ k.locks
    by_holder none w = ground arith
    by_holder (some h) w =
        ground (arith, donate-locks fuel waiting (some h) (k.threads k.current).priority k')

pub down_waits :
    (k : Kernel) (l : ℕ) (k' : Kernel)
    → sema_down_round k l ≡ some (false, k')
    → (value k l ≡ 0) × (value k' l ≡ value k l) × (holder k' l ≡ holder k l)
unfolding sema_down_round
down_waits k l k' e = elim (Bool-cases (value k l == 0)) [
  | inr up ↦ ground arith
  | inl down ↦ by_block (thread_block waiting) refl
]
  where
    waiting : Kernel
    waiting = put_semaphore k l (record ((k.locks l).semaphore) {
      waiters = (k.locks l).semaphore.waiters ++ k.current ∷ [];
    })

    by_block :
        (o : Option Kernel)
        → thread_block waiting ≡ o
        → (value k l ≡ 0) × (value k' l ≡ value k l) × (holder k' l ≡ holder k l)
    by_block none b = ground arith
    by_block (some k1) b = ground (arith, ap (λ (f : ℕ → Lock). f l) (block-locks waiting k1 b))

pub down_takes :
    (k : Kernel) (l : ℕ) (k' : Kernel)
    → sema_down_round k l ≡ some (true, k')
    → (0 < value k l)
      × (value k' l ≡ value k l - 1)
      × (holder k' l ≡ holder k l)
      × (k'.current ≡ k.current)
unfolding sema_down_round
down_takes k l k' e = elim (Bool-cases (value k l == 0)) [
  | inr up ↦ ground arith
  | inl down ↦ by_block (thread_block waiting) refl
]
  where
    waiting : Kernel
    waiting = put_semaphore k l (record ((k.locks l).semaphore) {
      waiters = (k.locks l).semaphore.waiters ++ k.current ∷ [];
    })

    by_block :
        (o : Option Kernel)
        → thread_block waiting ≡ o
        → (0 < value k l)
          × (value k' l ≡ value k l - 1)
          × (holder k' l ≡ holder k l)
          × (k'.current ≡ k.current)
    by_block none b = ground arith
    by_block (some k1) b = ground arith

pub try_takes :
    (k : Kernel) (l : ℕ)
    → (sema_try_down k l).0 ≡ true
    → (0 < value k l)
      × (value (sema_try_down k l).1 l ≡ value k l - 1)
      × (holder (sema_try_down k l).1 l ≡ holder k l)
unfolding sema_try_down
try_takes k l e = ground arith

pub try_fails : (k : Kernel) (l : ℕ) → (sema_try_down k l).0 ≡ false → (sema_try_down k l).1 ≡ k
unfolding sema_try_down
try_fails k l e = ground arith

pub wake-effect :
    (k : Kernel) (l : ℕ) (k' : Kernel)
    → sema_wake k l ≡ some k'
    → (value k' l ≡ (value k l + 1) % 2 ^ 32) × (holder k' l ≡ holder k l)
unfolding sema_wake
wake-effect k l k' e = by_waiter (max_priority k.threads (k.locks l).semaphore.waiters) refl
  where
    without : ℕ → Kernel
    without t =
        put_semaphore k l
          (record ((k.locks l).semaphore) { waiters = list_remove t (k.locks l).semaphore.waiters })

    Effect : Type 0
    Effect = (value k' l ≡ (value k l + 1) % 2 ^ 32) × (holder k' l ≡ holder k l)

    by_waiter : (o : Option ℕ) → max_priority k.threads (k.locks l).semaphore.waiters ≡ o → Effect
    by_waiter none m = ground arith
    by_waiter (some t) m = by_unblock (thread_unblock (without t) t) refl
      where
        by_unblock : (r : Option Kernel) → thread_unblock (without t) t ≡ r → Effect
        by_unblock none u = ground arith
        by_unblock (some k1) u =
            ground (arith, ap (λ (f : ℕ → Lock). f l) (unblock-locks (without t) t k1 u))
