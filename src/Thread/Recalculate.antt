-- ===== src/Thread/Recalculate.antt =====
-- `thread_recalculate_donation`: the priority of the running thread from the locks that it holds.
use cs140_w.Prelude.{
  ℕ, ◌≡◌, ◌≢◌, ◌⊎◌, refl, ap, ◌∙◌, sym, true, ◌||◌, if◌then◌else◌, some, List, [], ◌∷◌, ◌++◌, arith,
  Bool-cases, inl, inr,
}
use cs140_w.Prelude.Int.{ℤ, pos, ltb_ℤ, ◌≤ℤ◌}
use mathlib.Core.Path.{subst}
use cs140_w.KernelList.{list_remove}
use cs140_w.KernelList.Extremes.{All, All-append, All-imp}
use cs140_w.Thread.{Kernel, put_thread, max_priority, donation_loop, recalculate_donation}
use cs140_w.Thread.Ready.{Picked, max_priority-Picked}

abbrev waiters : Kernel → ℕ → List ℕ
waiters k l = (k.locks l).semaphore.waiters

-- `p` is at least the priority of every thread that waits for lock `l`.
abbrev pub Covers : Kernel → ℤ → ℕ → Type 0
Covers k p l = All (λ t. (k.threads t).priority ≤ℤ p) (k.locks l).semaphore.waiters

-- `p` is the priority of a thread that waits for one of the locks.
abbrev pub Attained : Kernel → ℤ → List ℕ → Type 0
Attained k p [] = ⊥
Attained k p (l ∷ ls) =
    ((t : ℕ) × (before : List ℕ) × (after : List ℕ) × ((k.locks l).semaphore.waiters
        ≡ before ++ t ∷ after)
      × (p ≡ (k.threads t).priority))
    ⊎ Attained k p ls

-- Each of the locks has a thread waiting for it.
abbrev pub AllAwaited : Kernel → List ℕ → Type 0
AllAwaited k ls = All (λ l. (k.locks l).semaphore.waiters ≢ []) ls

Picked-Covers :
    (k : Kernel) (l t : ℕ) (rest : List ℕ)
    → Picked k.threads (k.locks l).semaphore.waiters t rest
    → Covers k (k.threads t).priority l
Picked-Covers k l t rest (before, after, split, _, lo, hi) =
    subst (λ w. All (λ x. (k.threads x).priority ≤ℤ (k.threads t).priority) w) (sym split)
      (All-append _ before (t ∷ after) (All-imp _ _ (λ x h. ground arith) before lo)
        (ground arith, All-imp _ _ (λ x h. ground arith) after hi))

-- The first largest waiter of a lock that somebody waits for.
max_waiter :
    (k : Kernel) (l : ℕ) (w : List ℕ)
    → (k.locks l).semaphore.waiters ≡ w
    → w ≢ []
    → (t : ℕ) × (max_priority k.threads (k.locks l).semaphore.waiters ≡ some t)
      × Picked k.threads
          (k.locks l).semaphore.waiters
          t
          (list_remove t (k.locks l).semaphore.waiters)
max_waiter k l [] e ne = absurd (ne refl)
max_waiter k l (x ∷ xs) e ne =
    let (t, m, p) = max_priority-Picked k.threads x xs in
    (
      t,
      ap (max_priority k.threads) e ∙ m,
      subst (λ v. Picked k.threads v t (list_remove t v)) (sym e) p,
    )

-- What the loop returns when it starts at `max`.
abbrev LoopSpec : Kernel → List ℕ → ℤ → ℤ → Type 0
LoopSpec k ls max r = (max ≤ℤ r) × All (Covers k r) ls × ((r ≡ max) ⊎ Attained k r ls)

donation_loop-LoopSpec :
    (k : Kernel) (ls : List ℕ) (max : ℤ)
    → AllAwaited k ls
    → (r : ℤ) × (donation_loop k ls max ≡ some r) × LoopSpec k ls max r
unfolding donation_loop
donation_loop-LoopSpec k [] max h = (max, refl, (omega arith, tt, inl refl))
donation_loop-LoopSpec k (l ∷ ls) max h =
    let (t, m, p) = max_waiter k l (waiters k l) refl h.0 in
    let rest = list_remove t (waiters k l) in
    let prio = (k.threads t).priority in
    let (r, e, (above, covers, where_from)) =
      donation_loop-LoopSpec k ls (if ltb_ℤ max prio then prio else max) h.1 in
    (
      r,
      rw m e,
      (
        ground arith,
        (All-imp _ _ (λ x c. ground arith) (waiters k l) (Picked-Covers k l t rest p), covers),
        source t rest p r where_from,
      ),
    )
  where
    source :
        (t : ℕ) (rest : List ℕ)
        → Picked k.threads (waiters k l) t rest
        → (r : ℤ)
        → (r ≡ (if ltb_ℤ max (k.threads t).priority then (k.threads t).priority else max))
          ⊎ Attained k r ls
        → (r ≡ max) ⊎ Attained k r (l ∷ ls)
    source t rest (before, after, split, _, _, _) r (inr later) = inr (inr later)
    source t rest (before, after, split, _, _, _) r (inl here) =
        elim (Bool-cases (ltb_ℤ max (k.threads t).priority)) [
          | inl up ↦ inr (inl (t, before, after, split, here ∙ rw up refl))
          | inr no_up ↦ inl (here ∙ rw no_up refl)
        ]

-- `p` is the priority that the running thread is to have: at least its own priority and those of
-- all threads that wait for locks it holds, and one of these, or 0.
pub record Effective (k : Kernel) (p : ℤ) : Type 0 where
  pub own : (k.threads k.current).original_priority ≤ℤ p
  pub covers : All (Covers k p) (k.threads k.current).locks_held
  pub source :
      (p ≡ (k.threads k.current).original_priority)
      ⊎ (p ≡ pos 0)
      ⊎ Attained k p (k.threads k.current).locks_held

-- With a waiter for every lock held, and a priority other than its own, the recalculation gives the
-- running thread a priority that is at least its own and that of every thread waiting for a lock it
-- holds, and that is its own, 0, or the priority of one of these; nothing else changes.
pub recalculate_donation-Effective :
    (k : Kernel)
    → (k.threads k.current).priority ≢ (k.threads k.current).original_priority
    → AllAwaited k (k.threads k.current).locks_held
    → (p : ℤ) × (recalculate_donation k
        ≡ some (put_thread k k.current (record (k.threads k.current) { priority = p })))
      × Effective k p
unfolding recalculate_donation
recalculate_donation-Effective k ne awaited =
    let (r, e, (above, covers, from)) =
      donation_loop-LoopSpec k (k.threads k.current).locks_held (pos 0) awaited in
    elim (Bool-cases (ltb_ℤ own r)) [
      | inl donated ↦ (
        r,
        rw (changed own (k.threads k.current).priority ne, e, donated) refl,
        record { own = ground arith; covers = covers; source = inr from },
      )
      | inr kept ↦ (
        own,
        rw (changed own (k.threads k.current).priority ne, e, kept) refl,
        record {
          own = ground arith;
          covers = All-imp _ _ (λ l c. All-imp _ _ (λ x h. ground arith) (waiters k l) c) _ covers;
          source = inl refl;
        },
      )
    ]
  where
    own : ℤ
    own = (k.threads k.current).original_priority

    changed : (o p : ℤ) → p ≢ o → ltb_ℤ p o || ltb_ℤ o p ≡ true
    changed o p h = ground arith
