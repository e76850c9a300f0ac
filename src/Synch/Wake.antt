-- ===== src/Synch/Wake.antt =====
-- Whom `sema_up` wakes, and what a round of `sema_down` does.
use cs140_w.Prelude.{
  ℕ, ◌+◌, ◌%◌, ◌^◌, ◌≡◌, ◌≢◌, refl, ap, ◌∙◌, sym, some, List, [], ◌∷◌, ◌++◌, arith,
}
use mathlib.Core.Path.{subst}
use cs140_w.KernelList.{list_remove}
use cs140_w.KernelList.Extremes.{All}
use cs140_w.Thread.{ready, blocked, Kernel, max_priority}
use cs140_w.Thread.Ready.{Picked, max_priority-Picked}
use cs140_w.Thread.Schedule.{Sched, unblocked, unblocked-Sched, thread_unblock-eq}
use cs140_w.Synch.{put_semaphore, sema_wake}

-- The waiters of a semaphore are blocked, and the idle thread is not among them.
abbrev pub AllBlocked : Kernel → List ℕ → Type 0
AllBlocked k ws = All (λ t. ((k.threads t).status ≡ blocked) × (t ≢ k.idle_thread)) ws

All-middle :
    (P : ℕ → Type 0) (before : List ℕ) (t : ℕ) (after : List ℕ) → All P (before ++ t ∷ after) → P t
All-middle P [] t after h = h.0
All-middle P (x ∷ xs) t after h = All-middle P xs t after h.1

-- What waking a waiter of semaphore `l` does: the first of the highest priority among the waiters is
-- taken off the list and put at the end of the ready list, and the value goes up.
pub record Woken (k : Kernel) (l t : ℕ) (k' : Kernel) : Type 0 where
  pub picked : Picked k.threads (k.locks l).semaphore.waiters t (k'.locks l).semaphore.waiters
  pub now_ready : (k'.threads t).status ≡ ready
  pub queued : k'.ready_list ≡ k.ready_list ++ t ∷ []
  pub value : (k'.locks l).semaphore.value ≡ ((k.locks l).semaphore.value + 1) % 2 ^ 32
  pub sched : Sched k'
  pub stays : k'.current ≡ k.current

wake_at :
    (k : Kernel) (l t : ℕ)
    → Sched k
    → max_priority k.threads (k.locks l).semaphore.waiters ≡ some t
    → Picked k.threads (k.locks l).semaphore.waiters t (list_remove t (k.locks l).semaphore.waiters)
    → (k.threads t).status ≡ blocked
    → t ≢ k.idle_thread
    → (k' : Kernel) × (sema_wake k l ≡ some k') × Woken k l t k'
unfolding sema_wake
wake_at k l t s m p b ne = (
  k',
  rw m (rw (thread_unblock-eq k1 t b) refl),
  record {
    picked = ground (arith, p);
    now_ready = ground arith;
    queued = refl;
    value = ground arith;
    sched = record { now = s1.now; only = s1.only; queued = s1.queued };
    stays = refl;
  },
)
  where
    k1 : Kernel
    k1 =
        put_semaphore k l
          (record ((k.locks l).semaphore) { waiters = list_remove t (k.locks l).semaphore.waiters })

    k2 : Kernel
    k2 = unblocked k1 t

    k' : Kernel
    k' =
        put_semaphore k2 l
          (record ((k2.locks l).semaphore) { value = ((k2.locks l).semaphore.value + 1) % 2 ^ 32 })

    s1 : Sched k2
    s1 = unblocked-Sched k1 t (record { now = s.now; only = s.only; queued = s.queued }) ne b

-- While the state of the scheduler holds and all waiters of a semaphore, of which there is one, are
-- blocked and none is the idle thread, the part of sema_up with interrupts off takes the first
-- waiter of the highest priority off the list, makes it ready at the end of the ready list, and
-- adds one to the value in 32 bits; the state of the scheduler holds again with the same thread
-- running.
pub sema_wake-Woken :
    (k : Kernel) (l x : ℕ) (xs : List ℕ)
    → Sched k
    → (k.locks l).semaphore.waiters ≡ x ∷ xs
    → AllBlocked k (k.locks l).semaphore.waiters
    → (t : ℕ) × (k' : Kernel) × (sema_wake k l ≡ some k') × Woken k l t k'
sema_wake-Woken k l x xs s e blocked_all =
    let (t, m, p) = max_priority-Picked k.threads x xs in
    let pw = subst (λ v. Picked k.threads v t (list_remove t v)) (sym e) p in
    let (b, ne) =
      All-middle (λ y. ((k.threads y).status ≡ blocked) × (y ≢ k.idle_thread)) pw.0 t pw.1
        (subst (All (λ y. ((k.threads y).status ≡ blocked) × (y ≢ k.idle_thread))) pw.2
          blocked_all) in
    let (k', ran, woken) = wake_at k l t s (ap (max_priority k.threads) e ∙ m) pw b ne in
    (t, k', ran, woken)
