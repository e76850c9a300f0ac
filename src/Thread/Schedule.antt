-- ===== src/Thread/Schedule.antt =====
-- The invariant of the scheduler, and that every operation that gives up the processor keeps it.
use cs140_w.Prelude.{
  ℕ, ◌≡◌, ◌≢◌, refl, ap, sym, ◌==◌, Bool, false, not, ◌&&◌, if◌then◌else◌, some, [], ◌∷◌, ◌++◌,
  arith, inl, inr, ℕ_discrete,
}
use cs140_w.KernelList.Removal.{occurrences, occurrences-append}
use cs140_w.Thread.{
  Status, running, ready, blocked, dying, Kernel, put_status, is_status, next_thread_to_run,
  schedule, thread_block, thread_unblock, thread_yield,
}
use cs140_w.Thread.Ready.{Picked-occurrences, Next, next_thread_to_run-Next}

-- Whether thread `t` is to stand in the ready list: the idle thread never does.
abbrev waits : Kernel → ℕ → Bool
waits k t = is_status (k.threads t).status ready && not (t == k.idle_thread)

-- Each ready thread but the idle one stands in the ready list once, and no other does.
abbrev pub Queued : Kernel → Type 0
Queued k = (t : ℕ) → occurrences t k.ready_list ≡ (if waits k t then 1 else 0)

-- The state while a thread runs: it is the only running one.
pub record Sched (k : Kernel) : Type 0 where
  pub now : (k.threads k.current).status ≡ running
  pub only : (t : ℕ) → (k.threads t).status ≡ running → t ≡ k.current
  pub queued : Queued k

-- The state when `schedule` is called: no thread is running.
pub record Between (k : Kernel) : Type 0 where
  pub nobody : (t : ℕ) → (k.threads t).status ≢ running
  pub queued : Queued k

-- `k'` comes out of `k` by switching to the thread that the scheduler chooses.
pub record Switched (k k' : Kernel) : Type 0 where
  pub sched : Sched k'
  pub chosen : Next k k'.current (next_thread_to_run k).1
  pub others : (t : ℕ) → t ≢ k'.current → k'.threads t ≡ k.threads t
  pub priorities : (t : ℕ) → (k'.threads t).priority ≡ (k.threads t).priority
  pub originals : (t : ℕ) → (k'.threads t).original_priority ≡ (k.threads t).original_priority
  pub queue : k'.ready_list ≡ (next_thread_to_run k).1.ready_list

status-cases : (s : Status) → s ≢ running → is_status s running ≡ false
status-cases running h = absurd (h refl)
status-cases ready h = refl
status-cases blocked h = refl
status-cases dying h = refl

Queued-schedule :
    (k : Kernel)
    → Queued k
    → (t : ℕ) (k1 : Kernel) → Next k t k1
    → Queued (record (put_status k1 t running) { current = t; thread_ticks = 0 })
Queued-schedule k q t k1 (inl (empty, idle, same)) x = ground (
  arith,
  q x,
  ap (occurrences x) empty,
  ap (λ (m : Kernel). m.ready_list) same,
  ap (λ (m : Kernel). m.idle_thread) same,
  ap (λ (m : Kernel). m.threads x) same,
)
Queued-schedule k q t k1 (inr (rest, p, same)) x =
    let (before, after, whole, less, _, _) = p in
    ground (
      arith,
      q x,
      q t,
      Picked-occurrences k.threads k.ready_list t rest p,
      ap (occurrences x) whole,
      ap (occurrences t) whole,
      ap (occurrences x) less,
      occurrences-append x before (t ∷ after),
      occurrences-append x before after,
      ap (λ (m : Kernel). m.ready_list) same,
      ap (λ (m : Kernel). m.idle_thread) same,
      ap (λ (m : Kernel). m.threads x) same,
    )

pub schedule-Switched :
    (k : Kernel) → Between k → (k' : Kernel) × (schedule k ≡ some k') × Switched k k'
unfolding schedule
schedule-Switched k b = (
  k',
  runs,
  record {
    sched = sched;
    chosen = chosen;
    others = others;
    priorities = priorities;
    originals = originals;
    queue = refl;
  },
)
  where
    next : ℕ
    next = (next_thread_to_run k).0

    k1 : Kernel
    k1 = (next_thread_to_run k).1

    k' : Kernel
    k' = record (put_status k1 next running) { current = next; thread_ticks = 0 }

    chosen : Next k next k1
    chosen = next_thread_to_run-Next k

    same_threads : (m : Kernel) (t : ℕ) → Next k t m → (x : ℕ) → m.threads x ≡ k.threads x
    same_threads m t (inl (_, _, same)) x = ap (λ (j : Kernel). j.threads x) same
    same_threads m t (inr (_, _, same)) x = ap (λ (j : Kernel). j.threads x) same

    runs : schedule k ≡ some k'
    runs = ground (arith, status-cases (k.threads k.current).status (b.nobody k.current))

    others : (t : ℕ) → t ≢ next → k'.threads t ≡ k.threads t
    others t ne = ground (arith, same_threads k1 next chosen t)

    priorities : (t : ℕ) → (k'.threads t).priority ≡ (k.threads t).priority
    priorities t = ground (arith, same_threads k1 next chosen t)

    originals : (t : ℕ) → (k'.threads t).original_priority ≡ (k.threads t).original_priority
    originals t = ground (arith, same_threads k1 next chosen t)

    sched : Sched k'
    sched = record {
      now = ground arith;
      only = λ t h. elim (ℕ_discrete next t) [
        | yes e ↦ sym e
        | no ne ↦ absurd (b.nobody t (ground (arith, same_threads k1 next chosen t)))
      ];
      queued = Queued-schedule k b.queued next k1 chosen;
    }

-- While exactly one thread runs and the ready list has each ready thread but the idle one once,
-- thread_block makes the running thread blocked and switches to the first ready thread of the
-- highest priority, or to the idle thread if none is ready; this state of the scheduler holds again
-- and no other thread has changed.
pub thread_block-Switched :
    (k : Kernel)
    → Sched k
    → (k' : Kernel) × (thread_block k ≡ some k') × Switched (put_status k k.current blocked) k'
unfolding thread_block
thread_block-Switched k s = schedule-Switched (put_status k k.current blocked) (record {
  nobody = λ t h. ground (arith, s.only t);
  queued = λ t. ground (arith, s.queued t, s.now);
})

-- The ready list when thread `k.current` yields.
abbrev pub requeued : Kernel → Kernel
requeued k =
    put_status
      (if k.current == k.idle_thread
        then k
        else record k { ready_list = k.ready_list ++ k.current ∷ [] })
      k.current ready

-- While exactly one thread runs and the ready list has each ready thread but the idle one once,
-- thread_yield puts the running thread, unless it is the idle one, at the end of the ready list and
-- switches to the first thread of the highest priority in it, or to the idle thread if it is empty;
-- this state of the scheduler holds again and no other thread has changed.
pub thread_yield-Switched :
    (k : Kernel) → Sched k → (k' : Kernel) × (thread_yield k ≡ some k') × Switched (requeued k) k'
unfolding thread_yield
thread_yield-Switched k s = schedule-Switched (requeued k) (record {
  nobody = λ t h. ground (arith, s.only t);
  queued =
      λ t. ground (arith, s.queued t, s.now, occurrences-append t k.ready_list (k.current ∷ []));
})

-- The state in which a thread is made ready.
abbrev pub unblocked : Kernel → ℕ → Kernel
unblocked k t = record (put_status k t ready) { ready_list = k.ready_list ++ t ∷ [] }

pub unblocked-Sched :
    (k : Kernel) (t : ℕ)
    → Sched k
    → t ≢ k.idle_thread
    → (k.threads t).status ≡ blocked
    → Sched (unblocked k t)
unblocked-Sched k t s ne b = record {
  now = ground (arith, s.now);
  only = λ x h. ground (arith, s.only x);
  queued = λ x. ground (arith, s.queued x, occurrences-append x k.ready_list (t ∷ []));
}

pub thread_unblock-eq :
    (k : Kernel) (t : ℕ)
    → (k.threads t).status ≡ blocked
    → thread_unblock k t ≡ some (unblocked k t)
unfolding thread_unblock
thread_unblock-eq k t b = rw b refl
