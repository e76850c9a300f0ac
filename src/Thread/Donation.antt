-- ===== src/Thread/Donation.antt =====
-- Priority donation: `thread_donate_priority` along a chain of locks, and
-- `thread_recalculate_donation`.
use cs140_w.Prelude.{
  ℕ, zero, suc, ◌+◌, ◌≤◌, ◌<◌, ◌≡◌, ◌⊎◌, refl, ap, true, false, if◌then◌else◌, Option, none, some,
  arith, Bool-cases, inl, inr, ℕ_discrete, dec_lt,
}
use mathlib.Core.Path.{subst}
use cs140_w.Prelude.Int.{ℤ, ltb_ℤ}
use cs140_w.Thread.{Status, running, ready, blocked, dying, Kernel, put_thread, donate_priority}

abbrev priority : Kernel → ℕ → ℤ
priority k t = (k.threads t).priority

-- How many of the threads below `n` have a priority less than `p`.
abbrev pub lower : ℕ → Kernel → ℤ → ℕ
lower zero k p = 0
lower (suc n) k p = lower n k p + (if ltb_ℤ (k.threads n).priority p then 1 else 0)

-- The lock that a blocked thread waits on is held by one of the `n` threads.
abbrev pub WaitsHeld : ℕ → Kernel → Type 0
WaitsHeld n k =
    (t l : ℕ)
    → (k.threads t).status ≡ blocked
    → (k.threads t).lock_waited_on ≡ some l
    → (h : ℕ) × ((k.locks l).holder ≡ some h) × (h < n)

abbrev raise : Kernel → ℕ → ℤ → Kernel
raise k t p = put_thread k t (record (k.threads t) { priority = p })

module _ (k : Kernel) (t : ℕ) (p : ℤ) where
  lower-above : (n : ℕ) → n ≤ t → lower n (raise k t p) p ≡ lower n k p
  lower-above zero h = refl
  lower-above (suc n) h = ground (arith, lower-above n (omega arith))

  lower-raise :
      (n : ℕ) → t < n → ltb_ℤ (priority k t) p ≡ true → suc (lower n (raise k t p) p) ≡ lower n k p
  lower-raise zero h lt = absurd (omega arith)
  lower-raise (suc n) h lt = elim (dec_lt t n) [
    | yes below ↦ ground (arith, lower-raise n below lt)
    | no last ↦ ground (arith, lower-above n (omega arith))
  ]

pub lower-le : (n : ℕ) (k : Kernel) (p : ℤ) → lower n k p ≤ n
lower-le zero k p = omega arith
lower-le (suc n) k p = ground (arith, lower-le n k p)

-- What a donation of `p` to thread `t` does: some threads of lower priority are raised to `p`, and
-- nothing else changes; `t` ends at `p` or above; and behind a blocked thread that was raised, so
-- does the holder of the lock that it waits on.
pub record Donated (k : Kernel) (p : ℤ) (t : ℕ) (k' : Kernel) : Type 0 where
  pub raised :
      (x : ℕ)
      → (k'.threads x ≡ k.threads x)
        ⊎ ((ltb_ℤ (k.threads x).priority p ≡ true)
            × (k'.threads x ≡ record (k.threads x) { priority = p }))
  pub target : ltb_ℤ (k'.threads t).priority p ≡ false
  pub chain :
      (x l h : ℕ)
      → ltb_ℤ (k.threads x).priority p ≡ true
      → ltb_ℤ (k'.threads x).priority p ≡ false
      → (k.threads x).status ≡ blocked
      → (k.threads x).lock_waited_on ≡ some l
      → (k.locks l).holder ≡ some h
      → ltb_ℤ (k'.threads h).priority p ≡ false
  pub rest : k' ≡ record k { threads = k'.threads }

self_not_less : (p : ℤ) → ltb_ℤ p p ≡ false
self_not_less p = ground arith

-- Nothing is to be done for a thread of the priority given or above.
Donated-none : (k : Kernel) (p : ℤ) (t : ℕ) → ltb_ℤ (priority k t) p ≡ false → Donated k p t k
Donated-none k p t h = record {
  raised = λ x. inl refl;
  target = h;
  chain = λ x l y lo hi b w e. cc;
  rest = refl;
}

module _ (k : Kernel) (p : ℤ) (t : ℕ) (lt : ltb_ℤ (priority k t) p ≡ true) where
  raise-raised :
      (x : ℕ)
      → ((raise k t p).threads x ≡ k.threads x)
        ⊎ ((ltb_ℤ (k.threads x).priority p ≡ true)
            × ((raise k t p).threads x ≡ record (k.threads x) { priority = p }))
  raise-raised x = elim (ℕ_discrete t x) [
    | yes e ↦ inr (rw e at lt, rw e (ground arith))
    | no ne ↦ inl (ground arith)
  ]

  -- The chain ends at `t`.
  Donated-one :
      ((l h : ℕ)
        → (k.threads t).status ≡ blocked
        → (k.threads t).lock_waited_on ≡ some l
        → (k.locks l).holder ≡ some h
        → ⊥)
      → Donated k p t (raise k t p)
  Donated-one last = record {
    raised = raise-raised;
    target = ground (arith, self_not_less p);
    chain = λ x l h lo hi b w e. elim (ℕ_discrete t x) [
      | yes same ↦ absurd (last l h (rw (← same) at b) (rw (← same) at w) e)
      | no ne ↦ ground arith
    ];
    rest = refl;
  }

  -- The chain goes on at the holder `h` of the lock that `t` waits on.
  Donated-more :
      (l h : ℕ) (k' : Kernel)
      → (k.threads t).lock_waited_on ≡ some l
      → (k.locks l).holder ≡ some h
      → Donated (raise k t p) p h k'
      → Donated k p t k'
  Donated-more l h k' w e d = record {
    raised = λ x. elim (ℕ_discrete t x) [
      | yes same ↦ subst (λ y. Raised y) same at_t
      | no ne ↦ ground (arith, d.raised x)
    ];
    target = ground (arith, d.raised t, self_not_less p);
    chain = λ x l' h' lo hi b w' e'. elim (ℕ_discrete t x) [
      | yes same ↦ ground (arith, ap (λ y. (k.threads y).lock_waited_on) same, d.target)
      | no ne ↦ ground (arith, d.chain x l' h')
    ];
    rest = d.rest;
  }
    where
      Raised : ℕ → Type 0
      Raised x =
          (k'.threads x ≡ k.threads x)
          ⊎ ((ltb_ℤ (k.threads x).priority p ≡ true)
              × (k'.threads x ≡ record (k.threads x) { priority = p }))

      at_t : Raised t
      at_t = ground (arith, d.raised t, self_not_less p)

abbrev Donates : ℕ → Kernel → ℕ → ℤ → Type 0
Donates fuel k t p =
    (k' : Kernel) × (donate_priority fuel k (some t) p ≡ some k') × Donated k p t k'

-- One call at a thread of lower priority, given what the call for the next holder does.
donate_step :
    (fuel n t : ℕ) (p : ℤ) (k : Kernel)
    → WaitsHeld n k
    → ltb_ℤ (priority k t) p ≡ true
    → ((h : ℕ) → h < n → Donates fuel (raise k t p) h p)
    → (s : Status) (o : Option ℕ) → (k.threads t).status ≡ s
    → (k.threads t).lock_waited_on ≡ o
    → Donates (suc fuel) k t p
unfolding donate_priority
donate_step fuel n t p k held low ih blocked none es eo =
    (raise k t p, ground arith, Donated-one k p t low (λ l h b w e. cc))
donate_step fuel n t p k held low ih blocked (some l) es eo =
    let (h, held_by, small) = held t l es eo in
    let (k', e, d) = ih h small in
    (k', ground (arith, e, held_by), Donated-more k p t low l h k' eo held_by d)
donate_step fuel n t p k held low ih running o es eo =
    (raise k t p, ground arith, Donated-one k p t low (λ l h b w e. cc))
donate_step fuel n t p k held low ih ready o es eo =
    (raise k t p, ground arith, Donated-one k p t low (λ l h b w e. cc))
donate_step fuel n t p k held low ih dying o es eo =
    (raise k t p, ground arith, Donated-one k p t low (λ l h b w e. cc))

-- If every lock that a blocked thread waits on is held by one of the first n threads, a donation of
-- a priority to one of these ends within as many calls as they have threads of lower priority, and
-- one, also along a cycle; it raises threads of lower priority to the one given and changes nothing
-- else; its target ends at that priority or above, and so does the holder of the lock that a
-- blocked thread which was raised waits on.
pub donate_priority-Donated :
    (fuel n t : ℕ) (p : ℤ) (k : Kernel)
    → WaitsHeld n k
    → t < n
    → lower n k p < fuel
    → (k' : Kernel) × (donate_priority fuel k (some t) p ≡ some k') × Donated k p t k'
unfolding donate_priority
donate_priority-Donated zero n t p k held lt room = absurd (omega arith)
donate_priority-Donated (suc fuel) n t p k held lt room =
    elim (Bool-cases (ltb_ℤ (priority k t) p)) [
      | inr high ↦ (k, rw high refl, Donated-none k p t high)
      | inl low ↦
          donate_step fuel n t p k held low
            (λ h small.
              donate_priority-Donated fuel n h p (raise k t p)
                (λ x m b w. held x m (ground arith) (ground arith)) small
                (omega (arith, lower-raise k t p n lt low)))
            (k.threads t).status (k.threads t).lock_waited_on refl refl
    ]
