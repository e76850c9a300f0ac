-- ===== src/Thread/Ready.antt =====
-- The choice of the next thread: the first of the highest priority in the ready list.
use cs140_w.Prelude.{
  ℕ, ◌≤◌, ◌≡◌, ◌≢◌, ◌⊎◌, refl, ap, ◌∙◌, sym, true, false, none, some, List, [], ◌∷◌, ◌++◌, arith,
  inl, inr,
}
use mathlib.Core.Path.{subst}
use cs140_w.Prelude.Int.{ltb_ℤ}
use cs140_w.KernelList.{list_max, list_remove}
use cs140_w.KernelList.Extremes.{All, All-imp, IsWeakOrder, list_max-FirstMax}
use cs140_w.KernelList.Removal.{occurrences, occurrences-append, remove-append}
use cs140_w.Thread.{Thread, Kernel, priority_comparator, max_priority, next_of, next_thread_to_run}

pub comparator-IsWeakOrder : (threads : ℕ → Thread) → IsWeakOrder (priority_comparator threads)
comparator-IsWeakOrder threads = record {
  irreflexive = λ a. ground arith;
  transitive = λ a b c p q. ground arith;
  cotransitive = λ a b c p q. ground arith;
}

-- `t` is the first thread of the highest priority in `l`, and `rest` is `l` without it.
abbrev pub Picked : (ℕ → Thread) → List ℕ → ℕ → List ℕ → Type 0
Picked threads l t rest =
    (before : List ℕ) × (after : List ℕ) × (l ≡ before ++ t ∷ after)
    × (rest ≡ before ++ after)
    × All (λ a. ltb_ℤ (threads a).priority (threads t).priority ≡ true) before
    × All (λ a. ltb_ℤ (threads t).priority (threads a).priority ≡ false) after

pub max_priority-Picked :
    (threads : ℕ → Thread) (x : ℕ) (xs : List ℕ)
    → (t : ℕ) × (max_priority threads (x ∷ xs) ≡ some t)
      × Picked threads (x ∷ xs) t (list_remove t (x ∷ xs))
max_priority-Picked threads x xs =
    let (t, e, (before, after, split, lo, hi)) =
      list_max-FirstMax (priority_comparator threads) (comparator-IsWeakOrder threads) x xs in
    (
      t,
      e,
      (
        before,
        after,
        split,
        rw split (remove-append t before after (All-imp _ _ (λ a. other a t) before lo)),
        lo,
        hi,
      ),
    )
  where
    other : (a t : ℕ) → ltb_ℤ (threads a).priority (threads t).priority ≡ true → a ≢ t
    other a t h e =
        let w = (comparator-IsWeakOrder threads).irreflexive a in
        ground (arith, ap (λ x. (threads x).priority) e)

max_priority-nil : (threads : ℕ → Thread) → max_priority threads [] ≡ none
unfolding list_max
max_priority-nil threads = refl

-- A thread that is picked stands in the list.
pub Picked-occurrences :
    (threads : ℕ → Thread) (l : List ℕ) (t : ℕ) (rest : List ℕ)
    → Picked threads l t rest
    → 1 ≤ occurrences t l
Picked-occurrences threads l t rest (before, after, split, _, lo, hi) =
    rw split (ground (arith, occurrences-append t before (t ∷ after)))

-- `next_thread_to_run` takes the first thread of the highest priority off the ready list, and the
-- idle thread only if the list is empty.
abbrev pub Next : Kernel → ℕ → Kernel → Type 0
Next k t k' =
    ((k.ready_list ≡ []) × (t ≡ k.idle_thread) × (k' ≡ k))
    ⊎ ((rest : List ℕ) × Picked k.threads k.ready_list t rest
        × (k' ≡ record k { ready_list = rest }))

pub next_thread_to_run-Next :
    (k : Kernel) → Next k (next_thread_to_run k).0 (next_thread_to_run k).1
unfolding next_thread_to_run
next_thread_to_run-Next k = by_list k.ready_list refl
  where
    by_list :
        (l : List ℕ)
        → k.ready_list ≡ l
        → Next k
            (next_of (max_priority k.threads k.ready_list) k).0
            (next_of (max_priority k.threads k.ready_list) k).1
    by_list [] e =
        rw (ap (max_priority k.threads) e ∙ max_priority-nil k.threads) (inl (e, refl, refl))
    by_list (x ∷ xs) e =
        let (t, m, p) = max_priority-Picked k.threads x xs in
        rw (ap (max_priority k.threads) e ∙ m) (
          inr (
            list_remove t k.ready_list,
            subst (λ l. Picked k.threads l t (list_remove t l)) (sym e) p,
            refl,
          ))
