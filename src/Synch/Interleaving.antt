-- ===== src/Synch/Interleaving.antt =====
-- Threads that use one lock, interleaved in any way: the steps, whose lock it is in each state, and
-- what a step of each kind leaves of that.
use cs140_w.Prelude.{
  ℕ, ◌+◌, ◌-◌, ◌%◌, ◌^◌, ◌<◌, ◌≡◌, ◌⊎◌, ap, ◌∙◌, sym, Bool, true, false, Option, none, some, arith,
  inl, inr,
}
use mathlib.Core.Path.{subst}
use cs140_w.Thread.{Kernel, update}
use cs140_w.Synch.Steps.{
  Pc, outside, acquiring, trying, granted, unlisted, listed, inside, attempting, donated, highest,
  releasing, unheld, unlocked, woken, recalculated, yielding, acquire_step, try_step, release_step,
}
use cs140_w.Synch.Frame.{value, holder}

pub record System : Type 0 where
  pub kernel : Kernel
  pub pc : ℕ → Pc

-- The thread that ran goes on at another place.
abbrev pub at : System → Kernel → Pc → System
at s k p = record { kernel = k; pc = update s.pc s.kernel.current p }

-- A step of the thread that runs, in one of the functions on the lock; `other` is any step of the
-- kernel that is not one on this lock, by any thread or the timer.
pub data Step (l : ℕ) (s : System) : System → Type 0 where
  acquire :
      (fuel : ℕ) {p : Pc} {k : Kernel}
      → acquire_step fuel s.kernel l (s.pc s.kernel.current) ≡ some (p, k)
      → Step l s (at s k p)
  try_acquire :
      {p : Pc} {k : Kernel}
      → try_step s.kernel l (s.pc s.kernel.current) ≡ some (p, k)
      → Step l s (at s k p)
  release :
      (mlfqs : Bool) {p : Pc} {k : Kernel}
      → release_step mlfqs s.kernel l (s.pc s.kernel.current) ≡ some (p, k)
      → Step l s (at s k p)
  other :
      (k : Kernel)
      → value k l ≡ value s.kernel l
      → holder k l ≡ holder s.kernel l
      → Step l s (record { kernel = k; pc = s.pc })

-- Reachable from a lock as `lock_init` leaves it, with every thread outside.
pub data Reach (l : ℕ) : System → Type 0 where
  initial :
      (k : Kernel)
      → value k l ≡ 1
      → holder k l ≡ none
      → Reach l (record { kernel = k; pc = λ _. outside })
  next : {s t : System} → Reach l s → Step l s t → Reach l t

-- Whether a thread has taken the semaphore down and not yet up again.
abbrev pub busy : Pc → Bool
busy granted = true
busy unlisted = true
busy listed = true
busy inside = true
busy releasing = true
busy unheld = true
busy unlocked = true
busy _ = false

-- The holder of the lock while thread `t` is busy.
abbrev pub owner : Pc → ℕ → Option ℕ
owner inside t = some t
owner releasing t = some t
owner _ t = none

-- The lock is free and no thread is busy.
pub record Free (l : ℕ) (s : System) : Type 0 where
  pub up : value s.kernel l ≡ 1
  pub no_holder : holder s.kernel l ≡ none
  pub nobody : (t : ℕ) → busy (s.pc t) ≡ false

-- Thread `t` alone is busy, and it is the holder once it is inside.
pub record Taken (l : ℕ) (s : System) (t : ℕ) : Type 0 where
  pub down : value s.kernel l ≡ 0
  pub held : holder s.kernel l ≡ owner (s.pc t) t
  pub is_busy : busy (s.pc t) ≡ true
  pub alone : (u : ℕ) → busy (s.pc u) ≡ true → u ≡ t

abbrev pub Inv : ℕ → System → Type 0
Inv l s = Free l s ⊎ ((t : ℕ) × Taken l s t)

module _ (l : ℕ) (s : System) where
  -- A step that leaves the lock, and the thread's being busy, as they are.
  pub keep :
      (k : Kernel) (p : Pc)
      → value k l ≡ value s.kernel l
      → holder k l ≡ holder s.kernel l
      → busy (s.pc s.kernel.current) ≡ false
      → busy p ≡ false
      → Inv l s
      → Inv l (at s k p)
  keep k p v h was is (inl f) = inl (record {
    up = v ∙ f.up;
    no_holder = h ∙ f.no_holder;
    nobody = λ t. ground (arith, f.nobody t);
  })
  keep k p v h was is (inr (t, f)) = inr (
    t,
    record {
      down = v ∙ f.down;
      held = ground (arith, f.held, f.is_busy);
      is_busy = ground (arith, f.is_busy);
      alone = λ u b. ground (arith, f.alone u);
    },
  )

  pub keep_all :
      (k : Kernel)
      → value k l ≡ value s.kernel l
      → holder k l ≡ holder s.kernel l
      → Inv l s
      → Inv l (record { kernel = k; pc = s.pc })
  keep_all k v h (inl f) =
      inl (record { up = v ∙ f.up; no_holder = h ∙ f.no_holder; nobody = f.nobody })
  keep_all k v h (inr (t, f)) =
      inr (t, record { down = v ∙ f.down; held = h ∙ f.held; is_busy = f.is_busy; alone = f.alone })

  -- A step that takes a free semaphore down.
  pub seize :
      (k : Kernel) (p : Pc)
      → 0 < value s.kernel l
      → value k l ≡ value s.kernel l - 1
      → holder k l ≡ owner p s.kernel.current
      → busy p ≡ true
      → Inv l s
      → Inv l (at s k p)
  seize k p pos v h is (inl f) = inr (
    s.kernel.current,
    record {
      down = omega (arith, f.up);
      held = ground arith;
      is_busy = ground arith;
      alone = λ u b. ground (arith, f.nobody u);
    },
  )
  seize k p pos v h is (inr (t, f)) = absurd (omega (arith, f.down))

  -- The busy thread, which runs, stays busy, and holds the lock as its place says.
  pub advance :
      (k : Kernel) (p : Pc)
      → busy (s.pc s.kernel.current) ≡ true
      → busy p ≡ true
      → value k l ≡ value s.kernel l
      → (holder s.kernel l ≡ owner (s.pc s.kernel.current) s.kernel.current
          → holder k l ≡ owner p s.kernel.current)
      → Inv l s
      → Inv l (at s k p)
  advance k p b b' v h (inl f) = absurd (ground (arith, f.nobody s.kernel.current))
  advance k p b b' v h (inr (t, f)) =
      let e = f.alone s.kernel.current b in
      inr (
        s.kernel.current,
        record {
          down = v ∙ f.down;
          held =
              ground (arith, h (subst (λ u. holder s.kernel l ≡ owner (s.pc u) u) (sym e) f.held));
          is_busy = ground arith;
          alone = λ u c. ground (arith, f.alone u, e);
        },
      )

  -- The busy thread, which runs, puts the semaphore up and does not hold the lock any more.
  pub give_up :
      (k : Kernel) (p : Pc)
      → s.pc s.kernel.current ≡ unlocked
      → busy p ≡ false
      → value k l ≡ (value s.kernel l + 1) % 2 ^ 32
      → holder k l ≡ holder s.kernel l
      → Inv l s
      → Inv l (at s k p)
  give_up k p at_up b v h (inl f) = absurd (ground (arith, f.nobody s.kernel.current))
  give_up k p at_up b v h (inr (t, f)) =
      let e = f.alone s.kernel.current (ap busy at_up) in
      inl (record {
        up = omega (arith, f.down);
        no_holder =
            h
            ∙ subst (λ u. holder s.kernel l ≡ owner (s.pc u) u) (sym e) f.held
            ∙ ap (λ q. owner q s.kernel.current) at_up;
        nobody = λ u. ground (arith, f.alone u, e);
      })

  owner-outside :
      (t : ℕ)
      → busy (s.pc t) ≡ true
      → owner (s.pc t) t ≡ some s.kernel.current
      → t ≡ s.kernel.current
  owner-outside t b o = by_pc (s.pc t) o
    where
      by_pc : (p : Pc) → owner p t ≡ some s.kernel.current → t ≡ s.kernel.current
      by_pc inside o = ground arith
      by_pc releasing o = ground arith
      by_pc outside o = cc
      by_pc acquiring o = cc
      by_pc trying o = cc
      by_pc granted o = cc
      by_pc unlisted o = cc
      by_pc listed o = cc
      by_pc attempting o = cc
      by_pc unheld o = cc
      by_pc unlocked o = cc
      by_pc woken o = cc
      by_pc donated o = cc
      by_pc recalculated o = cc
      by_pc (highest x) o = cc
      by_pc yielding o = cc

  -- The holder is busy.
  pub holder-busy :
      holder s.kernel l ≡ some s.kernel.current → Inv l s → busy (s.pc s.kernel.current) ≡ true
  holder-busy h (inl f) = absurd (ground (arith, f.no_holder))
  holder-busy h (inr (t, f)) =
      subst (λ u. busy (s.pc u) ≡ true) (owner-outside t f.is_busy (sym f.held ∙ h)) f.is_busy

  -- A thread that may still take the semaphore down finds no holder.
  pub unowned : Inv l s → 0 < value s.kernel l → holder s.kernel l ≡ none
  unowned (inl f) pos = f.no_holder
  unowned (inr (t, f)) pos = absurd (omega (arith, f.down))
