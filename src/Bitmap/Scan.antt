-- ===== src/Bitmap/Scan.antt =====
-- `bitmap_scan` and `bitmap_scan_and_flip` find the first group of equal bits.
use cs140_w.Prelude.{
  ℕ, zero, suc, ◌+◌, ◌-◌, ◌≤◌, ◌<◌, ◌≡◌, ◌≢◌, ◌⊎◌, refl, Bool, true, false, not, some, arith,
  Bool-cases, inl, inr, dec_lt,
}
use cs140_w.Bitmap.{Bitmap, bitmap_error, add_size, scan_loop, scan, scan_and_flip, same}
use cs140_w.Bitmap.Valid.{Represents}
use cs140_w.Bitmap.Ranges.{fill, has, contains-eq, set_multiple-Yields}

-- The `cnt` bits from `i` on are all `v`.
abbrev pub IsGroup : (ℕ → Bool) → ℕ → ℕ → Bool → Type 0
IsGroup g i cnt v = (j : ℕ) → i ≤ j → j < i + cnt → g j ≡ v

not-same : (a v : Bool) → same a (not v) ≡ false → a ≡ v
not-same a v h = ground arith

same-not : (a v : Bool) → same a (not v) ≡ true → a ≢ v
same-not a v h e = ground arith

pub has-IsGroup :
    (g : ℕ → Bool) (i cnt : ℕ) (v : Bool) → has g i cnt (not v) ≡ false → IsGroup g i cnt v
has-IsGroup g i zero v h j p q = absurd (omega arith)
has-IsGroup g i (suc cnt) v h j p q = elim (dec_lt i j) [
  | yes lt ↦ has-IsGroup g (i + 1) cnt v (ground arith) j (omega arith) (omega arith)
  | no ge ↦ let e : i ≡ j = omega arith in rw (← e) (not-same (g i) v (ground arith))
]

pub not-IsGroup_of_has :
    (g : ℕ → Bool) (i cnt : ℕ) (v : Bool) → has g i cnt (not v) ≡ true → ¬ IsGroup g i cnt v
not-IsGroup_of_has g i zero v h group = cc
not-IsGroup_of_has g i (suc cnt) v h group = elim (Bool-cases (same (g i) (not v))) [
  | inl here ↦ same-not (g i) v here (group i (omega arith) (omega arith))
  | inr there ↦
      not-IsGroup_of_has g (i + 1) cnt v (ground arith)
        (λ j p q. group j (omega arith) (omega arith))
]

pub has-of_group :
    (g : ℕ → Bool) (i cnt : ℕ) (v : Bool) → IsGroup g i cnt v → has g i cnt (not v) ≡ false
has-of_group g i cnt v group = elim (Bool-cases (has g i cnt (not v))) [
  | inl mixed ↦ absurd (not-IsGroup_of_has g i cnt v mixed group)
  | inr clean ↦ clean
]

-- No group lies at an index from `i` up to `k`.
abbrev pub NoGroup : (ℕ → Bool) → ℕ → ℕ → ℕ → Bool → Type 0
NoGroup g i k cnt v = (x : ℕ) → i ≤ x → x < k → ¬ IsGroup g x cnt v

-- What the index that a scan from `start` returns says of `n` bits.
abbrev pub Scanned : (ℕ → Bool) → ℕ → ℕ → ℕ → Bool → ℕ → Type 0
Scanned g n start cnt v idx =
    ((start ≤ idx) × (idx + cnt ≤ n) × IsGroup g idx cnt v × NoGroup g start idx cnt v)
    ⊎ ((idx ≡ bitmap_error) × NoGroup g start (n + 1 - cnt) cnt v)

module _ {b : Bitmap} {n : ℕ} {g : ℕ → Bool} (r : Represents b n g) where
  NoGroup-cons :
      (i k cnt : ℕ) (v : Bool)
      → ¬ IsGroup g i cnt v
      → NoGroup g (i + 1) k cnt v
      → NoGroup g i k cnt v
  NoGroup-cons i k cnt v here later x p q = elim (dec_lt i x) [
    | yes lt ↦ later x (omega arith) q
    | no ge ↦ let e : i ≡ x = omega arith in rw e at here
  ]

  scan_loop-Scanned :
      (k i cnt : ℕ) (v : Bool)
      → cnt ≤ n
      → i + k ≡ n + 1 - cnt
      → (idx : ℕ) × (scan_loop k b i cnt v ≡ some idx) × Scanned g n i cnt v idx
  unfolding scan_loop
  scan_loop-Scanned zero i cnt v fits e =
      (bitmap_error, refl, inr (refl, λ x p q. absurd (omega arith)))
  scan_loop-Scanned (suc k) i cnt v fits e = elim (Bool-cases (has g i cnt (not v))) [
    | inr group ↦ (
      i,
      rw (contains-eq r i cnt (not v) (omega arith), group),
      inl (omega arith, omega arith, has-IsGroup g i cnt v group, λ x p q. absurd (omega arith)),
    )
    | inl mixed ↦
        let (idx, found, spec) = scan_loop-Scanned k (i + 1) cnt v fits (omega arith) in
        (
          idx,
          rw (contains-eq r i cnt (not v) (omega arith), mixed, step) found,
          onward mixed idx spec,
        )
  ]
    where
      step : add_size i 1 ≡ i + 1
      step = let w = r.valid in omega (arith, w.small, r.size)

      onward :
          has g i cnt (not v) ≡ true
          → (idx : ℕ) → Scanned g n (i + 1) cnt v idx
          → Scanned g n i cnt v idx
      onward mixed idx (inl (p, q, group, before)) = inl (
        omega arith,
        q,
        group,
        NoGroup-cons i idx cnt v (not-IsGroup_of_has g i cnt v mixed) before,
      )
      onward mixed idx (inr (error, before)) =
          inr
            (error, NoGroup-cons i (n + 1 - cnt) cnt v (not-IsGroup_of_has g i cnt v mixed) before)

  scan_rounds-Scanned :
      (k start cnt : ℕ) (v : Bool)
      → k ≡ n - cnt + 1 - start
      → cnt ≤ n
      → (idx : ℕ) × (scan_loop k b start cnt v ≡ some idx) × Scanned g n start cnt v idx
  unfolding scan_loop
  scan_rounds-Scanned k start cnt v e fits = elim (dec_lt (n + 1 - cnt) start) [
    | no near ↦ scan_loop-Scanned k start cnt v fits (omega arith)
    | yes far ↦
        let none_left : k ≡ 0 = omega arith in
        (bitmap_error, rw none_left refl, inr (refl, λ x p q. absurd (omega arith)))
  ]

  -- A scan returns the first group of `cnt` bits equal to `v` at or after `start`, or
  -- BITMAP_ERROR if none fits.
  pub scan-Scanned :
      (start cnt : ℕ) (v : Bool)
      → start ≤ n
      → (idx : ℕ) × (scan b start cnt v ≡ some idx) × Scanned g n start cnt v idx
  unfolding scan
  scan-Scanned start cnt v h = elim (dec_lt n cnt) [
    | yes big ↦ (bitmap_error, ground (arith, r.size), inr (refl, λ x p q. absurd (omega arith)))
    | no fits ↦
        let (idx, found, spec) =
          scan_rounds-Scanned (b.bit_cnt - cnt + 1 - start) start cnt v (omega (arith, r.size))
            (omega arith) in
        (idx, ground (arith, r.size, found), spec)
  ]

  -- The index returned is BITMAP_ERROR exactly when no group was found.
  pub group_index : (start cnt : ℕ) (v : Bool) (idx : ℕ) → idx + cnt ≤ n → idx ≢ bitmap_error
  group_index start cnt v idx h = let w = r.valid in omega (arith, w.small, r.size)

  -- What `bitmap_scan_and_flip` leaves behind.
  abbrev pub Flipped : ℕ → ℕ → Bool → ℕ → Bitmap → Type 0
  Flipped start cnt v idx b' =
      ((start ≤ idx)
        × (idx + cnt ≤ n)
        × IsGroup g idx cnt v
        × NoGroup g start idx cnt v
        × Represents b' n (fill g idx cnt (not v)))
      ⊎ ((idx ≡ bitmap_error) × NoGroup g start (n + 1 - cnt) cnt v × (b' ≡ b))

  -- From a start within a bitmap of n bits bitmap_scan_and_flip returns the first group of cnt bits
  -- equal to the value at or after start, with the bits of that group, and no other, flipped; or
  -- BITMAP_ERROR, with the bitmap unchanged, if no group fits.
  pub scan_and_flip-Flipped :
      (start cnt : ℕ) (v : Bool)
      → start ≤ n
      → (idx : ℕ) × (b' : Bitmap) × (scan_and_flip b start cnt v ≡ some (idx, b'))
        × Flipped start cnt v idx b'
  unfolding scan_and_flip
  scan_and_flip-Flipped start cnt v h =
      let (idx, found, spec) = scan-Scanned start cnt v h in finish idx found spec
    where
      finish :
          (idx : ℕ)
          → scan b start cnt v ≡ some idx
          → Scanned g n start cnt v idx
          → (idx : ℕ) × (b' : Bitmap) × (scan_and_flip b start cnt v ≡ some (idx, b'))
            × Flipped start cnt v idx b'
      finish idx found (inl (p, q, group, first)) =
          let (b', done, r') = set_multiple-Yields r idx cnt (not v) q in
          (
            idx,
            b',
            ground (arith, found, done, group_index start cnt v idx q),
            inl (p, q, group, first, r'),
          )
      finish idx found (inr (error, absent)) =
          (idx, b, ground (arith, found), inr (error, absent, refl))
