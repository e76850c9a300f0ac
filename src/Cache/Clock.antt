-- ===== src/Cache/Clock.antt =====
-- `cache_run_clock`: it ends, never takes the block of the free map, and changes only accessed bits.
use cs140_w.Prelude.{
  ℕ, zero, suc, ◌+◌, ◌%◌, ◌≤◌, ◌<◌, ◌≡◌, refl, ◌∙◌, true, false, if◌then◌else◌, some, arith,
  Bool-cases, inl, inr, dec_lt, ℕ_discrete,
}
use cs140_w.Cache.{Block, Cache, cache_size, update, put, next_hand, run_clock}

-- `b'` is `b`, but perhaps for the accessed bit.
pub record Aged (b b' : Block) : Type 0 where
  pub contents : b'.contents ≡ b.contents
  pub sector : b'.sector ≡ b.sector
  pub old_sector : b'.old_sector ≡ b.old_sector
  pub in_use : b'.in_use ≡ b.in_use
  pub active_r_w : b'.active_r_w ≡ b.active_r_w
  pub dirty : b'.dirty ≡ b.dirty
  pub io_needed : b'.io_needed ≡ b.io_needed

Aged-refl : (b : Block) → Aged b b
Aged-refl b = ground arith

Aged-trans : {a b c : Block} → Aged a b → Aged b c → Aged a c
Aged-trans p q = record {
  contents = q.contents ∙ p.contents;
  sector = q.sector ∙ p.sector;
  old_sector = q.old_sector ∙ p.old_sector;
  in_use = q.in_use ∙ p.in_use;
  active_r_w = q.active_r_w ∙ p.active_r_w;
  dirty = q.dirty ∙ p.dirty;
  io_needed = q.io_needed ∙ p.io_needed;
}

-- How many of the first `n` blocks have the accessed bit set.
abbrev pub pending : ℕ → (ℕ → Block) → ℕ
pending zero f = 0
pending (suc n) f = pending n f + (if (f n).accessed then 1 else 0)

module _ (f : ℕ → Block) (i : ℕ) (b : Block) where
  pending-above : (n : ℕ) → n ≤ i → pending n (update f i b) ≡ pending n f
  pending-above zero h = refl
  pending-above (suc n) h = ground (arith, pending-above n (omega arith))

  pending-clear :
      (n : ℕ)
      → i < n
      → (f i).accessed ≡ true
      → b.accessed ≡ false
      → suc (pending n (update f i b)) ≡ pending n f
  pending-clear zero h p q = absurd (omega arith)
  pending-clear (suc n) h p q = elim (dec_lt i n) [
    | yes below ↦ ground (arith, pending-clear n below p q)
    | no last ↦ ground (arith, pending-above n (omega arith))
  ]

pub pending-le : (n : ℕ) (f : ℕ → Block) → pending n f ≤ n
pending-le zero f = omega arith
pending-le (suc n) f = ground (arith, pending-le n f)

-- No block but that of the free map waits for its sector to be read.
abbrev pub AllRead : Cache → Type 0
AllRead c = (i : ℕ) → 1 ≤ i → i < cache_size → (c.blocks i).io_needed ≡ false

-- What a run of the clock from `c` comes back with.
pub record Victim (c : Cache) (i : ℕ) (c' : Cache) : Type 0 where
  pub spares_map : 1 ≤ i
  pub in_range : i < cache_size
  pub at_hand : c'.hand ≡ i
  pub unused : (c'.blocks i).accessed ≡ false
  pub aged : (k : ℕ) → Aged (c.blocks k) (c'.blocks k)

spare-Aged :
    (c : Cache) (h k : ℕ)
    → Aged (c.blocks k) (update c.blocks h (record (c.blocks h) { accessed = false }) k)
spare-Aged c h k = elim (ℕ_discrete h k) [ yes e ↦ rw e (ground arith) | no ne ↦ ground arith ]

hand-bounds : (h : ℕ) → (1 ≤ next_hand h) × (next_hand h < cache_size)
hand-bounds h = omega arith

-- If only block 0 may wait for its sector to be read, and the fuel is more than the number of
-- accessed bits, cache_run_clock returns a block from 1 to 64 with its accessed bit clear and the
-- hand on it, and changes nothing in any block but accessed bits.
pub run_clock-Victim :
    (fuel : ℕ) (c : Cache)
    → AllRead c
    → pending cache_size c.blocks < fuel
    → (i : ℕ) × (c' : Cache) × (run_clock fuel c ≡ some (i, c')) × Victim c i c'
unfolding run_clock
run_clock-Victim zero c all h = absurd (omega arith)
run_clock-Victim (suc fuel) c all h = elim (Bool-cases (c.blocks (next_hand c.hand)).accessed) [
  | inl on ↦
      let (i, c', e, v) =
        run_clock-Victim fuel spared (λ k p q. (spare-Aged c hand k).io_needed ∙ all k p q)
          (omega (arith, pending-clear c.blocks hand cleared cache_size bounds.1 on refl)) in
      (
        i,
        c',
        rw on e,
        record {
          spares_map = v.spares_map;
          in_range = v.in_range;
          at_hand = v.at_hand;
          unused = v.unused;
          aged = λ k. Aged-trans (spare-Aged c hand k) (v.aged k);
        },
      )
  | inr off ↦ (
    hand,
    record c { hand = hand },
    rw (off, all hand bounds.0 bounds.1) refl,
    record {
      spares_map = bounds.0;
      in_range = bounds.1;
      at_hand = refl;
      unused = off;
      aged = λ k. Aged-refl (c.blocks k);
    },
  )
]
  where
    hand : ℕ
    hand = next_hand c.hand

    bounds : (1 ≤ hand) × (hand < cache_size)
    bounds = hand-bounds c.hand

    cleared : Block
    cleared = record (c.blocks hand) { accessed = false }

    spared : Cache
    spared = put (record c { hand = hand }) hand cleared

-- From an even position of the hand cache_run_clock returns only blocks of even number, and leaves
-- the hand at an even position.
pub run_clock-even :
    (fuel : ℕ) (c : Cache) (i : ℕ) (c' : Cache)
    → c.hand % 2 ≡ 0
    → run_clock fuel c ≡ some (i, c')
    → (i % 2 ≡ 0) × (c'.hand % 2 ≡ 0)
unfolding run_clock
run_clock-even zero c i c' h e = cc
run_clock-even (suc fuel) c i c' h e = elim (Bool-cases (c.blocks (next_hand c.hand)).accessed) [
  | inl on ↦
      run_clock-even fuel
        (put (record c { hand = next_hand c.hand }) (next_hand c.hand)
          (record (c.blocks (next_hand c.hand)) { accessed = false }))
        i c' (omega arith) (rw on at e)
  | inr off ↦ elim (Bool-cases (c.blocks (next_hand c.hand)).io_needed) [
    | inl busy ↦
        run_clock-even fuel (record c { hand = next_hand c.hand }) i c' (omega arith)
          (rw (off, busy) at e)
    | inr idle ↦ ground arith
  ]
]
