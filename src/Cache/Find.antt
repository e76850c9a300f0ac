-- ===== src/Cache/Find.antt =====
-- The search of `cache_insert` through the blocks.
use cs140_w.Prelude.{
  ℕ, zero, suc, ◌+◌, ◌≤◌, ◌<◌, ◌≡◌, ◌⊎◌, refl, ◌==◌, Bool, true, false, ◌&&◌, ◌||◌, if◌then◌else◌,
  Option, none, some, arith, Bool-cases, inl, inr, ℕ_discrete,
}
use cs140_w.Cache.{Cache, Found, present, absent, find_loop}

-- Block `k` is in use for the sector, now or before a change that is not finished.
abbrev pub Has : Cache → ℕ → ℕ → Type 0
Has c sector k =
    ((c.blocks k).in_use ≡ true)
    × (((c.blocks k).sector ≡ sector) ⊎ ((c.blocks k).old_sector ≡ sector))

-- What the search says of the blocks from `i` up to `m`, when `empty` was found before.
abbrev pub FindSpec : Cache → ℕ → ℕ → ℕ → Option ℕ → Found → Type 0
FindSpec c sector i m empty (present k) = (i ≤ k) × (k < m) × Has c sector k
FindSpec c sector i m empty (absent none) =
    (empty ≡ none) × ((k : ℕ) → i ≤ k → k < m → ((c.blocks k).in_use ≡ true) × ¬ Has c sector k)
FindSpec c sector i m empty (absent (some e)) =
    ((empty ≡ some e) ⊎ ((i ≤ e) × (e < m) × ((c.blocks e).in_use ≡ false)))
    × ((k : ℕ) → i ≤ k → k < m → ¬ Has c sector k)

module _ (c : Cache) (sector : ℕ) where
  -- The test of the loop.
  abbrev test : ℕ → Bool
  test i =
      (c.blocks i).in_use && ((c.blocks i).sector == sector || (c.blocks i).old_sector == sector)

  missed :
      (i : ℕ)
      → (c.blocks i).in_use && ((c.blocks i).sector == sector || (c.blocks i).old_sector == sector)
        ≡ false
      → ¬ Has c sector i
  missed i h has = ground arith

  hit :
      (i : ℕ)
      → (c.blocks i).in_use && ((c.blocks i).sector == sector || (c.blocks i).old_sector == sector)
        ≡ true
      → Has c sector i
  hit i h = ground arith

  from_here :
      (P : ℕ → Type 0) (i m : ℕ)
      → P i
      → ((k : ℕ) → i + 1 ≤ k → k < m → P k)
      → (k : ℕ) → i ≤ k
      → k < m
      → P k
  from_here P i m here later k p q = elim (ℕ_discrete i k) [
    | yes e ↦ rw e at here
    | no ne ↦ later k (omega arith) q
  ]

  widen :
      (i m : ℕ) (empty : Option ℕ)
      → i < m
      → ¬ Has c sector i
      → (r : Found) → FindSpec c sector (i + 1) m (if (c.blocks i).in_use then empty else some i) r
      → FindSpec c sector i m empty r
  widen i m empty lt no_hit (present k) (p, q, has) = (omega arith, q, has)
  widen i m empty lt no_hit (absent none) (e, free) =
      (ground arith, from_here _ i m (ground arith, no_hit) free)
  widen i m empty lt no_hit (absent (some x)) (which, free) = (
    elim (Bool-cases (c.blocks i).in_use) [
      | inl used ↦ ground arith
      | inr free_here ↦ elim (ℕ_discrete i x) [
        | yes e ↦
            let free_x : (c.blocks x).in_use ≡ false = rw e at free_here in
            inr (omega arith, omega arith, free_x)
        | no ne ↦ ground arith
      ]
    ],
    from_here _ i m no_hit free,
  )

  pub find_loop-FindSpec :
      (n i m : ℕ) (empty : Option ℕ)
      → i + n ≡ m
      → FindSpec c sector i m empty (find_loop n c sector i empty)
  unfolding find_loop
  find_loop-FindSpec zero i m empty e = done empty
    where
      done : (o : Option ℕ) → FindSpec c sector i m o (absent o)
      done none = (refl, λ k p q. absurd (omega arith))
      done (some x) = (inl refl, λ k p q. absurd (omega arith))
  find_loop-FindSpec (suc n) i m empty e = elim (Bool-cases (test i)) [
    | inl found ↦ rw found (omega arith, omega arith, hit i found)
    | inr none_here ↦ rw none_here (
        widen i m empty (omega arith) (missed i none_here)
          (find_loop n c sector (i + 1) (if (c.blocks i).in_use then empty else some i))
          (find_loop-FindSpec n (i + 1) m (if (c.blocks i).in_use then empty else some i)
            (omega arith)))
  ]
