-- ===== src/Synch/Exclusion.antt =====
-- Mutual exclusion: at most one thread at a time is in the critical section of a lock.
use cs140_w.Prelude.{
  ℕ, ◌≡◌, refl, ap, ◌∙◌, sym, Bool, true, false, Option, none, some, arith, inl, inr, Bool-cases,
  >>=-eq-some, if◌then◌else◌, assert, not,
}
use mathlib.Core.Path.{subst}
use cs140_w.Thread.{Lock, Kernel, thread_yield, set_effective, max_priority}
use cs140_w.Synch.{sema_down_round, sema_try_down, sema_wake, held_by}
use cs140_w.Synch.Steps.{
  Pc, outside, acquiring, trying, granted, unlisted, listed, inside, attempting, donated, highest,
  releasing, unheld, unlocked, woken, recalculated, yielding, announce, acquire_step, try_step,
  release_step, release_check,
}
use cs140_w.Synch.Frame.{
  holder, announce-locks, down_waits, down_takes, try_takes, try_fails, wake-effect,
  set_effective-locks, yield-locks,
}
use cs140_w.Synch.Interleaving.{
  System, at, Step, acquire, try_acquire, release, other, Reach, initial, next, busy, owner, Inv,
  keep, keep_all, seize, advance, give_up, holder-busy, unowned,
}

module _ (l : ℕ) (s : System) (i : Inv l s) (p : Pc) (k : Kernel) where
  locks-keep :
      busy (s.pc s.kernel.current) ≡ false
      → busy p ≡ false
      → k.locks ≡ s.kernel.locks
      → Inv l (at s k p)
  locks-keep b b' same =
      keep l s k p (ap (λ (f : ℕ → Lock). (f l).semaphore.value) same)
        (ap (λ (f : ℕ → Lock). (f l).holder) same) b b' i

  acquire_step-Inv :
      (fuel : ℕ) (q : Pc)
      → s.pc s.kernel.current ≡ q
      → acquire_step fuel s.kernel l q ≡ some (p, k)
      → Inv l (at s k p)
  unfolding acquire_step
  acquire_step-Inv fuel outside w e =
      let (u, free, r) = >>=-eq-some (assert (not (held_by s.kernel l s.kernel.current))) _ e in
      locks-keep (ap busy w) (ground arith) (ground arith)
  acquire_step-Inv fuel acquiring w e =
      let (k', ran, r) = >>=-eq-some (announce fuel s.kernel l) _ e in
      locks-keep (ap busy w) (ground arith) (ground (arith, announce-locks fuel s.kernel l k' ran))
  acquire_step-Inv fuel trying w e =
      let (r, ran, e') = >>=-eq-some (sema_down_round s.kernel l) _ e in by_round r.0 r.1 ran e'
    where
      by_round :
          (b : Bool) (k' : Kernel)
          → sema_down_round s.kernel l ≡ some (b, k')
          → ◌≡◌ {A = Option (Pc × Kernel)} (some (if b then granted else trying, k')) (some (p, k))
          → Inv l (at s k p)
      by_round true k' ran e' =
          let (pos, v, h, _) = down_takes s.kernel l k' ran in
          seize l s k p (pos) (ground (arith, v)) (ground (arith, h, unowned l s i pos))
            (ground arith) i
      by_round false k' ran e' =
          let (_, v, h) = down_waits s.kernel l k' ran in
          keep l s k p (ground (arith, v)) (ground (arith, h)) (ap busy w) (ground arith) i
  acquire_step-Inv fuel granted w e =
      advance l s k p (ap busy w) (ground arith) (ground arith) (λ h. ground arith) i
  acquire_step-Inv fuel unlisted w e =
      advance l s k p (ap busy w) (ground arith) (ground arith) (λ h. ground arith) i
  acquire_step-Inv fuel listed w e =
      advance l s k p (ap busy w) (ground arith) (ground arith) (λ h. ground arith) i
  acquire_step-Inv fuel _ w e = cc

  try_step-Inv :
      (q : Pc) → s.pc s.kernel.current ≡ q → try_step s.kernel l q ≡ some (p, k) → Inv l (at s k p)
  unfolding try_step
  try_step-Inv outside w e =
      let (u, free, r) = >>=-eq-some (assert (not (held_by s.kernel l s.kernel.current))) _ e in
      locks-keep (ap busy w) (ground arith) (ground arith)
  try_step-Inv attempting w e = elim (Bool-cases ((sema_try_down s.kernel l).0)) [
    | inl down ↦
        let (pos, v, h) = try_takes s.kernel l down in
        seize l s k p pos (ground (arith, v)) (ground (arith, h, unowned l s i pos)) (ground arith)
          i
    | inr up ↦
        let same = try_fails s.kernel l up in
        locks-keep (ap busy w) (ground arith) (ground (arith, same))
  ]
  try_step-Inv unlisted w e =
      advance l s k p (ap busy w) (ground arith) (ground arith) (λ h. ground arith) i
  try_step-Inv listed w e =
      advance l s k p (ap busy w) (ground arith) (ground arith) (λ h. ground arith) i
  try_step-Inv _ w e = cc

  release_check-Inv : release_check s.kernel l ≡ some (p, k) → Inv l (at s k p)
  release_check-Inv e =
      let (u, held, r) = >>=-eq-some (assert (held_by s.kernel l s.kernel.current)) _ e in
      let mine : holder s.kernel l ≡ some s.kernel.current = ground arith in
      advance l s k p (holder-busy l s mine i) (ground arith) (ground arith) (λ h. ground arith) i

  release_step-Inv :
      (mlfqs : Bool) (q : Pc)
      → s.pc s.kernel.current ≡ q
      → release_step mlfqs s.kernel l q ≡ some (p, k)
      → Inv l (at s k p)
  unfolding release_step
  release_step-Inv mlfqs outside w e = release_check-Inv e
  release_step-Inv mlfqs inside w e = release_check-Inv e
  release_step-Inv mlfqs releasing w e =
      advance l s k p (ap busy w) (ground arith) (ground arith) (λ h. ground arith) i
  release_step-Inv mlfqs unheld w e =
      advance l s k p (ap busy w) (ground arith) (ground arith) (λ h. ground arith) i
  release_step-Inv mlfqs unlocked w e =
      let (k', ran, r) = >>=-eq-some (sema_wake s.kernel l) _ e in
      let (v, h) = wake-effect s.kernel l k' ran in
      give_up l s k p w (ground arith) (ground (arith, v)) (ground (arith, h)) i
  release_step-Inv mlfqs woken w e = locks-keep (ap busy w) (ground arith) (ground arith)
  release_step-Inv mlfqs donated w e =
      let (k', ran, r) = >>=-eq-some (set_effective s.kernel) _ e in
      locks-keep (ap busy w) (ground arith) (ground (arith, set_effective-locks s.kernel k' ran))
  release_step-Inv mlfqs recalculated w e =
      let (t, ran, r) = >>=-eq-some (max_priority s.kernel.threads s.kernel.ready_list) _ e in
      locks-keep (ap busy w) (ground arith) (ground arith)
  release_step-Inv mlfqs (highest t) w e = locks-keep (ap busy w) (ground arith) (ground arith)
  release_step-Inv mlfqs yielding w e =
      let (k', ran, r) = >>=-eq-some (thread_yield s.kernel) _ e in
      locks-keep (ap busy w) (ground arith) (ground (arith, yield-locks s.kernel k' ran))
  release_step-Inv mlfqs _ w e = cc

Step-Inv : {l : ℕ} {s t : System} → Step l s t → Inv l s → Inv l t
Step-Inv {l} {s} (acquire fuel {p} {k} e) i = acquire_step-Inv l s i p k fuel _ refl e
Step-Inv {l} {s} (try_acquire {p} {k} e) i = try_step-Inv l s i p k _ refl e
Step-Inv {l} {s} (release m {p} {k} e) i = release_step-Inv l s i p k m _ refl e
Step-Inv {l} {s} (other k v h) i = keep_all l s k v h i

Reach-Inv : {l : ℕ} {s : System} → Reach l s → Inv l s
Reach-Inv (initial k v h) = inl (record { up = v; no_holder = h; nobody = λ t. refl })
Reach-Inv (next r st) = Step-Inv st (Reach-Inv r)

-- However the threads are interleaved from a fresh lock on, a step of a function at a time, at most
-- one of them is between taking the semaphore of the lock down and putting it up again; a thread
-- that has returned from lock_acquire or lock_try_acquire with the lock, and has not called
-- lock_release since, is the holder of the lock; and while no thread is between these points the
-- lock has no holder.
pub mutual_exclusion :
    {l : ℕ} {s : System}
    → Reach l s
    → ((t u : ℕ) → busy (s.pc t) ≡ true → busy (s.pc u) ≡ true → t ≡ u)
      × ((t : ℕ) → s.pc t ≡ inside → holder s.kernel l ≡ some t)
      × (((t : ℕ) → busy (s.pc t) ≡ false) → holder s.kernel l ≡ none)
mutual_exclusion {l} {s} r = by_inv (Reach-Inv r)
  where
    by_inv :
        Inv l s
        → ((t u : ℕ) → busy (s.pc t) ≡ true → busy (s.pc u) ≡ true → t ≡ u)
          × ((t : ℕ) → s.pc t ≡ inside → holder s.kernel l ≡ some t)
          × (((t : ℕ) → busy (s.pc t) ≡ false) → holder s.kernel l ≡ none)
    by_inv (inl f) = (
      λ t u bt bu. let n = f.nobody t in cc,
      λ t it. let n = f.nobody t in ground arith,
      λ free. f.no_holder,
    )
    by_inv (inr (h, f)) = (
      λ t u bt bu. f.alone t bt ∙ sym (f.alone u bu),
      λ t it.
          let e = f.alone t (ap busy it) in
          subst (λ x. s.pc x ≡ inside → holder s.kernel l ≡ some x) (sym e)
            (λ ih. f.held ∙ ap (λ p. owner p h) ih) it,
      λ free. let n = free h in let b = f.is_busy in cc,
    )
