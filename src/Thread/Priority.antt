-- ===== src/Thread/Priority.antt =====
-- `thread_set_priority`, and that the thread that runs has the highest priority.
use cs140_w.Prelude.{
  ℕ, ◌≡◌, ◌≢◌, refl, ap, ◌∙◌, sym, Bool, true, false, ◌||◌, if◌then◌else◌, Option, some, List, [],
  ◌∷◌, ◌>>=◌, arith, Bool-cases, inl, inr,
}
use cs140_w.Prelude.Int.{ℤ, ltb_ℤ, ◌≤ℤ◌}
use mathlib.Core.Path.{subst}
use cs140_w.KernelList.Extremes.{All, All-append, All-imp}
use cs140_w.KernelList.{list_remove}
use cs140_w.Thread.{
  Thread, Kernel, put_thread, max_priority, next_thread_to_run, thread_yield, not_highest_priority,
  recalculate_donation,
}
use cs140_w.Thread.Ready.{Picked, Next, max_priority-Picked}
use cs140_w.Thread.Schedule.{Sched, Switched, requeued, thread_yield-Switched}
use cs140_w.Thread.Recalculate.{AllAwaited, Effective, recalculate_donation-Effective}

-- The end of `thread_set_priority` and of `thread_create`, with no interrupt between the test and
-- `thread_yield`.
unfoldable pub yield_if_higher : Kernel → Option Kernel
yield_if_higher k = not_highest_priority k >>= λ higher. (if higher then thread_yield k else some k)

abbrev pub put_original : Kernel → ℤ → Kernel
put_original k p = put_thread k k.current (record (k.threads k.current) { original_priority = p })

-- A call in which no interrupt comes where interrupts are on, between the recalculation, the test
-- and `thread_yield`.
unfoldable pub thread_set_priority : Bool → Kernel → ℤ → Option Kernel
thread_set_priority mlfqs k new_priority =
    if mlfqs
    then some k
    else (recalculate_donation (put_original k new_priority) >>= λ k'. yield_if_higher k')

-- No ready thread has a higher priority than the thread that runs.
abbrev pub Highest : Kernel → Type 0
Highest k = All (λ t. (k.threads t).priority ≤ℤ (k.threads k.current).priority) k.ready_list

Picked-bound :
    (threads : ℕ → Thread) (l : List ℕ) (t : ℕ) (rest : List ℕ)
    → Picked threads l t rest
    → All (λ x. (threads x).priority ≤ℤ (threads t).priority) rest
Picked-bound threads l t rest (before, after, _, split, lo, hi) =
    subst (All (λ x. (threads x).priority ≤ℤ (threads t).priority)) (sym split) (
      All-append _ before after (All-imp _ _ (λ x h. ground arith) before lo)
        (All-imp _ _ (λ x h. ground arith) after hi))

Picked-whole :
    (threads : ℕ → Thread) (l : List ℕ) (t : ℕ) (rest : List ℕ)
    → Picked threads l t rest
    → All (λ x. (threads x).priority ≤ℤ (threads t).priority) l
Picked-whole threads l t rest (before, after, split, _, lo, hi) =
    subst (All (λ x. (threads x).priority ≤ℤ (threads t).priority)) (sym split) (
      All-append _ before (t ∷ after) (All-imp _ _ (λ x h. ground arith) before lo)
        (omega arith, All-imp _ _ (λ x h. ground arith) after hi))

Next-bound :
    (k : Kernel) (t : ℕ) (m : Kernel)
    → Next k t m
    → All (λ x. (k.threads x).priority ≤ℤ (k.threads t).priority) m.ready_list
Next-bound k t m (inl (empty, _, same)) =
    subst (All (λ x. (k.threads x).priority ≤ℤ (k.threads t).priority))
      (sym (ap (λ (j : Kernel). j.ready_list) same ∙ empty)) tt
Next-bound k t m (inr (rest, p, same)) =
    subst (All (λ x. (k.threads x).priority ≤ℤ (k.threads t).priority))
      (sym (ap (λ (j : Kernel). j.ready_list) same)) (Picked-bound k.threads k.ready_list t rest p)

Switched-Highest : (k k' : Kernel) → Switched k k' → Highest k'
Switched-Highest k k' s =
    subst (All (λ t. (k'.threads t).priority ≤ℤ (k'.threads k'.current).priority)) (sym s.queue) (
      All-imp (λ t. (k.threads t).priority ≤ℤ (k.threads k'.current).priority)
        (λ t. (k'.threads t).priority ≤ℤ (k'.threads k'.current).priority)
        (λ x h. rw (s.priorities x) (rw (s.priorities k'.current) h))
        (next_thread_to_run k).1.ready_list
        (Next-bound k k'.current (next_thread_to_run k).1 s.chosen))

-- No thread has another priority, given or effective.
abbrev SamePriorities : Kernel → Kernel → Type 0
SamePriorities k k' =
    (t : ℕ)
    → ((k'.threads t).priority ≡ (k.threads t).priority)
      × ((k'.threads t).original_priority ≡ (k.threads t).original_priority)

abbrev Settled : Kernel → Option Kernel → Type 0
Settled k o = (k' : Kernel) × (o ≡ some k') × Sched k' × Highest k' × SamePriorities k k'

requeued-SamePriorities : (k : Kernel) → SamePriorities k (requeued k)
requeued-SamePriorities k t = (ground arith, ground arith)

yield_if_higher-Settled : (k : Kernel) → Sched k → k.ready_list ≢ [] → Settled k (yield_if_higher k)
unfolding yield_if_higher not_highest_priority
yield_if_higher-Settled k s ne = by_list k.ready_list refl
  where
    by_list : (l : List ℕ) → k.ready_list ≡ l → Settled k (yield_if_higher k)
    by_list [] e = absurd (ne e)
    by_list (x ∷ xs) e =
        let (t, m, p) = max_priority-Picked k.threads x xs in
        let bound =
          subst (All (λ y. (k.threads y).priority ≤ℤ (k.threads t).priority)) (sym e)
            (Picked-whole k.threads (x ∷ xs) t (list_remove t (x ∷ xs)) p) in
        elim (Bool-cases (ltb_ℤ (k.threads k.current).priority (k.threads t).priority)) [
          | inl higher ↦
              let (k', ran, sw) = thread_yield-Switched k s in
              (
                k',
                rw (ap (max_priority k.threads) e ∙ m) (rw higher ran),
                sw.sched,
                Switched-Highest (requeued k) k' sw,
                λ u.
                    let (same, given) = requeued-SamePriorities k u in
                    (sw.priorities u ∙ same, sw.originals u ∙ given),
              )
          | inr lower ↦ (
            k,
            rw (ap (max_priority k.threads) e ∙ m) (rw lower refl),
            s,
            All-imp _ _ (λ y h. ground arith) k.ready_list bound,
            λ u. (refl, refl),
          )
        ]

-- Another priority for the running thread leaves the state of the scheduler.
reprioritized-Sched :
    (k : Kernel) (th : Thread)
    → th.status ≡ (k.threads k.current).status
    → Sched k
    → Sched (put_thread k k.current th)
reprioritized-Sched k th e s = record {
  now = ground (arith, s.now);
  only = λ t h. ground (arith, s.only t);
  queued = λ t. ground (arith, s.queued t);
}

at_self : (k : Kernel) (th : Thread) → (put_thread k k.current th).threads k.current ≡ th
at_self k th = ground arith

recalculate_donation-own :
    (k : Kernel)
    → (let cur = k.threads k.current in
        ltb_ℤ cur.priority cur.original_priority || ltb_ℤ cur.original_priority cur.priority)
      ≡ false
    → recalculate_donation k ≡ some k
unfolding recalculate_donation
recalculate_donation-own k h = rw h refl

-- The priority `p` is given to the running thread, whose effective priority follows unless it is `p`
-- already, and no other thread has another priority.
pub record Assigned (k : Kernel) (p : ℤ) (k' : Kernel) : Type 0 where
  pub given : (k'.threads k.current).original_priority ≡ p
  pub follows :
      (k.threads k.current).priority ≢ p
      → Effective (put_original k p) (k'.threads k.current).priority
  pub stays : (k.threads k.current).priority ≡ p → (k'.threads k.current).priority ≡ p
  pub others :
      (t : ℕ)
      → t ≢ k.current
      → ((k'.threads t).priority ≡ (k.threads t).priority)
        × ((k'.threads t).original_priority ≡ (k.threads t).original_priority)

-- While exactly one thread runs and the ready list has each ready thread but the idle one once,
-- with some thread on it and a waiter for every lock that the running thread holds, a call of
-- thread_set_priority under priority scheduling that no interrupt cuts in two returns. This state
-- of the scheduler holds again, and no thread on the ready list has a higher priority than the one
-- that runs. The calling thread has the new priority as its own, and where its effective priority
-- was another one, that is now at least the new one and those of all threads that wait for its
-- locks, and is the new one, 0, or one of these; where it was the new one, it stays that. No other
-- thread has another priority.
pub thread_set_priority-Settled :
    (k : Kernel) (new_priority : ℤ)
    → Sched k
    → k.ready_list ≢ []
    → AllAwaited k (k.threads k.current).locks_held
    → (k' : Kernel) × (thread_set_priority false k new_priority ≡ some k')
      × Sched k'
      × Highest k'
      × Assigned k new_priority k'
unfolding thread_set_priority
thread_set_priority-Settled k p s ne awaited = elim (Bool-cases differs) [
  | inl changed ↦
      let (q, ran, effective) = recalculate_donation-Effective k1 (apart changed) awaited1 in
      let k2 = put_thread k1 k1.current (record (k1.threads k1.current) { priority = q }) in
      let (k', done, s', high, same) =
        yield_if_higher-Settled k2 (reprioritized-Sched k1 _ refl s1) ne in
      let now : (k'.threads k.current).priority ≡ q =
        (same k.current).0 ∙ ap (λ (th : Thread). th.priority) (at_self k1 _) in
      (
        k',
        rw ran done,
        s',
        high,
        record {
          given =
              (same k.current).1
              ∙ ap (λ (th : Thread). th.original_priority) (at_self k1 _)
              ∙ ap (λ (th : Thread). th.original_priority) self;
          follows = λ h. subst (Effective k1) (sym now) effective;
          stays = λ e. absurd (different _ _ changed e);
          others = λ t n. (ground (arith, same t, n), ground (arith, same t, n));
        },
      )
  | inr same ↦
      let (k', done, s', high, keeps) = yield_if_higher-Settled k1 s1 ne in
      (
        k',
        rw (kept same) done,
        s',
        high,
        record {
          given = (keeps k.current).1 ∙ ap (λ (th : Thread). th.original_priority) self;
          follows = λ h. absurd (h (equal _ _ same));
          stays = λ e. (keeps k.current).0 ∙ ap (λ (th : Thread). th.priority) self ∙ e;
          others = λ t n. (ground (arith, keeps t, n), ground (arith, keeps t, n));
        },
      )
]
  where
    k1 : Kernel
    k1 = put_original k p

    differs : Bool
    differs = ltb_ℤ (k.threads k.current).priority p || ltb_ℤ p (k.threads k.current).priority

    s1 : Sched k1
    s1 = reprioritized-Sched k (record (k.threads k.current) { original_priority = p }) refl s

    self : k1.threads k1.current ≡ record (k.threads k.current) { original_priority = p }
    self = at_self k (record (k.threads k.current) { original_priority = p })

    awaited1 : AllAwaited k1 (k1.threads k1.current).locks_held
    awaited1 = subst (AllAwaited k1) (sym (ap (λ (th : Thread). th.locks_held) self)) awaited

    different : (a b : ℤ) → ltb_ℤ a b || ltb_ℤ b a ≡ true → a ≢ b
    different a b h e = ground arith

    equal : (a b : ℤ) → ltb_ℤ a b || ltb_ℤ b a ≡ false → a ≡ b
    equal a b h = ground arith

    apart :
        differs ≡ true
        → (k1.threads k1.current).priority ≢ (k1.threads k1.current).original_priority
    apart h =
        subst (λ (th : Thread). th.priority ≢ th.original_priority) (sym self)
          (different (k.threads k.current).priority p h)

    kept : differs ≡ false → recalculate_donation k1 ≡ some k1
    kept h = recalculate_donation-own k1 (
        ap
          (λ (th : Thread).
            ltb_ℤ th.priority th.original_priority || ltb_ℤ th.original_priority th.priority)
          self
        ∙ h)
