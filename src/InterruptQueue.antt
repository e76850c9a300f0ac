-- ===== src/InterruptQueue.antt =====
-- pintos/src/devices/intq.c: a circular queue of bytes between threads and interrupt handlers.
-- Interrupts are off throughout, so that a call is cut only where its thread sleeps or yields. A thread is its number; `none` is a failed ASSERT.
pub mod Ring
pub mod Waiters
mod Tests
use cs140_w.Prelude.{
  ℕ, zero, suc, ◌+◌, ◌-◌, ◌%◌, ◌==◌, Bool, true, false, not, ◌&&◌, ◌||◌, if◌then◌else◌, Option,
  none, some, List, [], ◌∷◌, ◌>>=◌, ◌>>◌, assert,
}

-- `struct intq`. `lock` is the thread that holds the lock, `not_full` and `not_empty` are the waiters.
pub record InterruptQueue : Type 0 where
  pub lock : Option ℕ
  pub not_full : Option ℕ
  pub not_empty : Option ℕ
  pub buf : ℕ → ℕ
  pub head : ℕ
  pub tail : ℕ

abbrev pub intq_bufsize : ℕ
intq_bufsize = 64

abbrev pub next : ℕ → ℕ
next pos = (pos + 1) % intq_bufsize

-- The buffer is memory of any content.
abbrev pub intq_init : (ℕ → ℕ) → InterruptQueue
intq_init buf = record {
  lock = none;
  not_full = none;
  not_empty = none;
  buf = buf;
  head = 0;
  tail = 0;
}

abbrev pub intq_empty : InterruptQueue → Bool
intq_empty q = q.head == q.tail

abbrev pub intq_full : InterruptQueue → Bool
intq_full q = next q.head == q.tail

-- How a call goes on: it returns, with the thread it woke; it sleeps, as a waiter or for the lock.
pub data Outcome {ℓ} (A : Type ℓ) : Type ℓ where
  returns : A → Option ℕ → InterruptQueue → Outcome A
  waits : InterruptQueue → Outcome A
  waits_for_lock : ℕ → InterruptQueue → Outcome A

-- `signal (q, &q->not_full)`: the queue and the thread that is unblocked.
abbrev pub signal_not_full : InterruptQueue → Option (Option ℕ × InterruptQueue)
signal_not_full q = assert (not (intq_full q)) >> some (q.not_full, record q { not_full = none })

abbrev pub signal_not_empty : InterruptQueue → Option (Option ℕ × InterruptQueue)
signal_not_empty q =
    assert (not (intq_empty q)) >> some (q.not_empty, record q { not_empty = none })

-- `wait` up to its `thread_block`.
abbrev pub wait_not_full : Bool → ℕ → InterruptQueue → Option InterruptQueue
wait_not_full intr_context me q =
    assert (not intr_context) >> (assert (intq_full q) >> some (record q { not_full = some me }))

abbrev pub wait_not_empty : Bool → ℕ → InterruptQueue → Option InterruptQueue
wait_not_empty intr_context me q =
    assert (not intr_context) >> (assert (intq_empty q) >> some (record q { not_empty = some me }))

-- `lock_acquire` behind its ASSERTs, and `wait` up to the `thread_block`. A thread that finds the lock
-- taken sleeps in `sema_down`, and comes back to the same place.
abbrev pub locked_wait {ℓ} :
    {A : Type ℓ}
    → ℕ
    → (InterruptQueue → Option InterruptQueue)
    → InterruptQueue
    → Option (Outcome A)
locked_wait me wait q = elim q.lock [
  | some holder ↦ some (waits_for_lock holder q)
  | none ↦ (wait (record q { lock = some me }) >>= λ q'. some (waits q'))
]

-- `lock_held_by_current_thread`
abbrev pub held_by : Option ℕ → ℕ → Bool
held_by lock me = elim lock [ none ↦ false | some holder ↦ holder == me ]

-- The body of the loop up to the `thread_block`, where the body waits by `wait`.
abbrev pub enter {ℓ} :
    {A : Type ℓ}
    → Bool
    → ℕ
    → (InterruptQueue → Option InterruptQueue)
    → InterruptQueue
    → Option (Outcome A)
enter intr_context me wait q =
    assert (not intr_context) >> (assert (not (held_by q.lock me)) >> locked_wait me wait q)

-- `intq_getc` up to its return or its sleep.
unfoldable pub intq_getc : Bool → ℕ → InterruptQueue → Option (Outcome ℕ)
intq_getc intr_context me q =
    let q' = record q { tail = next q.tail } in
    let byte = q.buf q.tail in
    let sleep = enter intr_context me (wait_not_empty intr_context me) q in
    let take = signal_not_full q' >>= λ r. some (returns byte r.0 r.1) in
    if intq_empty q then sleep else take

unfoldable pub intq_putc : Bool → ℕ → ℕ → InterruptQueue → Option (Outcome (Unit {0}))
intq_putc intr_context me byte q =
    let q' = record q { buf = λ i. if i == q.head then byte else q.buf i; head = next q.head } in
    let sleep = enter intr_context me (wait_not_full intr_context me) q in
    let add = signal_not_empty q' >>= λ r. some (returns tt r.0 r.1) in
    if intq_full q then sleep else add

-- A thread that slept for the lock runs again: without another test of the loop it takes the lock, if
-- that is free by now, and waits.
unfoldable pub relock_getc : ℕ → InterruptQueue → Option (Outcome ℕ)
relock_getc me q = locked_wait me (wait_not_empty false me) q

unfoldable pub relock_putc : ℕ → InterruptQueue → Option (Outcome (Unit {0}))
relock_putc me q = locked_wait me (wait_not_full false me) q

-- A thread that was a waiter runs again and calls `lock_release`, which may yield to another thread
-- before the test of the loop. That test, and what follows, is `intq_getc` or `intq_putc` again.
unfoldable pub unlock : ℕ → InterruptQueue → Option InterruptQueue
unlock me q = assert (held_by q.lock me) >> some (record q { lock = none })
