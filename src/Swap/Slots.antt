-- ===== src/Swap/Slots.antt =====
-- Which slots are taken and given back.
use cs140_w.Prelude.{
  ℕ, ◌+◌, ◌≤◌, ◌<◌, ◌≡◌, ◌⊎◌, ap, ◌∙◌, Bool, true, false, none, some, arith, Bool-cases, inl, inr,
}
use cs140_w.Bitmap
use cs140_w.Bitmap.{Bitmap, bitmap_error}
use cs140_w.Bitmap.Valid.{Represents, Yields, update}
use cs140_w.Bitmap.Ranges.{fill, Represents-ext}
use cs140_w.Bitmap.Single.{reset-Yields}
use cs140_w.Bitmap.Scan.{IsGroup, Flipped, group_index, scan_and_flip-Flipped}
use cs140_w.Swap.{free_slot, allocate_slot}

-- A slot is taken: the first one that is free.
abbrev pub Taken : Bitmap → ℕ → (ℕ → Bool) → Type 0
Taken b n g =
    (slot : ℕ) × (b' : Bitmap) × (allocate_slot b ≡ some (slot, b'))
    × (slot < n)
    × (g slot ≡ false)
    × ((j : ℕ) → j < slot → g j ≡ true)
    × Represents b' n (update g slot true)

-- A bit that starts no group of one clear bit is set.
alone : (g : ℕ → Bool) (j : ℕ) → ¬ IsGroup g j 1 false → g j ≡ true
alone g j h = elim (Bool-cases (g j)) [
  | inl set ↦ set
  | inr clear ↦ absurd (h (λ x p q. ap g (one_place x p q) ∙ clear))
]
  where
    one_place : (x : ℕ) → j ≤ x → x < j + 1 → x ≡ j
    one_place x p q = omega arith

fill-one : (g : ℕ → Bool) (i : ℕ) (v : Bool) (j : ℕ) → fill g i 1 v j ≡ update g i v j
fill-one g i v j = ground arith

module _ {b : Bitmap} {n : ℕ} {g : ℕ → Bool} (r : Represents b n g) where
  -- On a device of n slots swap_allocate_slot returns the first slot that is free and takes exactly
  -- that one, or fails its ASSERT, and then all slots are in use.
  pub allocate_slot-Taken :
      Taken b n g ⊎ ((allocate_slot b ≡ none) × ((j : ℕ) → j < n → g j ≡ true))
  unfolding allocate_slot
  allocate_slot-Taken =
      let (idx, b', e, spec) = scan_and_flip-Flipped r 0 1 false (omega arith) in
      finish idx b' e spec
    where
      finish :
          (idx : ℕ) (b' : Bitmap)
          → Bitmap.scan_and_flip b 0 1 false ≡ some (idx, b')
          → Flipped r 0 1 false idx b'
          → Taken b n g ⊎ ((allocate_slot b ≡ none) × ((j : ℕ) → j < n → g j ≡ true))
      finish idx b' e (inl (p, q, group, first, r')) = inl (
        idx,
        b',
        ground (arith, e, group_index r 0 1 false idx q),
        omega arith,
        group idx (omega arith) (omega arith),
        λ j h. alone g j (first j (omega arith) h),
        Represents-ext (fill-one g idx true) r',
      )
      finish idx b' e (inr (error, absent, same)) =
          inr (ground (arith, e), λ j h. alone g j (absent j (omega arith) (omega arith)))

  -- A slot that swap_allocate_slot returned is given back by swap_free, and then the same slots are
  -- in use as before.
  pub allocate_slot-free_slot :
      (slot : ℕ) (b' : Bitmap) → allocate_slot b ≡ some (slot, b') → Yields (free_slot b' slot) n g
  unfolding free_slot
  allocate_slot-free_slot slot b' e = elim allocate_slot-Taken [
    | inl (s, c, ran, inside, clear, first, r') ↦
        let es : s ≡ slot = ground arith in
        let eb : c ≡ b' = cc in
        let (b2, ran2, r2) = reset-Yields r' s inside in
        (b2, rw (← es, ← eb) ran2, Represents-ext (λ j. ground arith) r2)
    | inr (failed, _) ↦ absurd (ground arith)
  ]
