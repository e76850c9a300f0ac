-- ===== src/Bitmap/Ranges.antt =====
-- The functions on a range of bits: `bitmap_set_multiple`, `bitmap_set_all`, `bitmap_count`,
-- `bitmap_contains`, `bitmap_any`, `bitmap_none` and `bitmap_all`.
use cs140_w.Prelude.{
  ℕ, zero, suc, ◌+◌, ◌≤◌, ◌<◌, ◌≡◌, refl, ap, ◌∙◌, ltb, leb, Bool, false, not, ◌&&◌, ◌||◌,
  if◌then◌else◌, some, arith,
}
use cs140_w.Bitmap.{
  Bitmap, add_size, assert_range, set_loop, set_multiple, same, count_loop, count, contains_loop,
  contains, all,
}
use cs140_w.Bitmap.Valid.{Represents, Yields, update}
use cs140_w.Bitmap.Single.{set_bit-Yields, test-eq}

-- The array with the `n` bits from `i` on set to `v`.
abbrev pub fill : (ℕ → Bool) → ℕ → ℕ → Bool → ℕ → Bool
fill g i n v j = if leb i j && ltb j (i + n) then v else g j

-- How many of the `n` bits from `i` on are `v`.
abbrev pub number : (ℕ → Bool) → ℕ → ℕ → Bool → ℕ
number g i zero v = 0
number g i (suc n) v = (if same (g i) v then 1 else 0) + number g (i + 1) n v

-- Whether one of the `n` bits from `i` on is `v`.
abbrev pub has : (ℕ → Bool) → ℕ → ℕ → Bool → Bool
has g i zero v = false
has g i (suc n) v = same (g i) v || has g (i + 1) n v

fill-zero : (g : ℕ → Bool) (i : ℕ) (v : Bool) (j : ℕ) → g j ≡ fill g i 0 v j
fill-zero g i v j = ground arith

fill-suc :
    (g : ℕ → Bool) (i n : ℕ) (v : Bool) (j : ℕ)
    → fill (update g i v) (i + 1) n v j ≡ fill g i (suc n) v j
fill-suc g i n v j = ground arith

-- A bitmap stands for every function with the same values.
pub Represents-ext :
    {b : Bitmap} {n : ℕ} {g h : ℕ → Bool}
    → ((j : ℕ) → g j ≡ h j)
    → Represents b n g
    → Represents b n h
Represents-ext e r = record { valid = r.valid; size = r.size; digits = λ j. r.digits j ∙ e j }

module _ {b : Bitmap} {n : ℕ} {g : ℕ → Bool} (r : Represents b n g) where
  next_index : (i : ℕ) → i < n → add_size i 1 ≡ i + 1
  next_index i h = let v = r.valid in omega (arith, v.small, r.size)

  range_fits : (start cnt : ℕ) → start + cnt ≤ n → assert_range b start cnt ≡ some tt
  range_fits start cnt h = let v = r.valid in ground (arith, v.small, r.size)

set_loop-Yields :
    (k : ℕ) {b : Bitmap} {n : ℕ} {g : ℕ → Bool} (r : Represents b n g) (i : ℕ) (v : Bool)
    → i + k ≤ n
    → Yields (set_loop k b i v) n (fill g i k v)
unfolding set_loop
set_loop-Yields zero {b} r i v h = (b, refl, Represents-ext (fill-zero _ i v) r)
set_loop-Yields (suc k) {g = g} r i v h =
    let (b1, e1, r1) = set_bit-Yields r i (omega arith) v in
    let (b2, e2, r2) = set_loop-Yields k r1 (i + 1) v (omega arith) in
    (b2, rw (e1, next_index r i (omega arith)) e2, Represents-ext (fill-suc g i k v) r2)

module _ {b : Bitmap} {n : ℕ} {g : ℕ → Bool} (r : Represents b n g) where
  -- For a range within a bitmap of n bits bitmap_set_multiple returns a bitmap in which exactly the
  -- bits of the range have the value, and every other bit is as before.
  pub set_multiple-Yields :
      (start cnt : ℕ) (v : Bool)
      → start + cnt ≤ n
      → Yields (set_multiple b start cnt v) n (fill g start cnt v)
  unfolding set_multiple
  set_multiple-Yields start cnt v h =
      rw (range_fits r start cnt h) (set_loop-Yields cnt r start v h)

  count_loop-eq :
      (k i : ℕ) (v : Bool) (acc : ℕ)
      → i + k ≤ n
      → count_loop k b i v acc ≡ some (acc + number g i k v)
  unfolding count_loop
  count_loop-eq zero i v acc h = ap some (omega arith)
  count_loop-eq (suc k) i v acc h = ground (
    arith,
    test-eq r i (omega arith),
    next_index r i (omega arith),
    count_loop-eq k (i + 1) v (if same (g i) v then acc + 1 else acc) (omega arith),
  )

  pub count-eq :
      (start cnt : ℕ) (v : Bool)
      → start + cnt ≤ n
      → count b start cnt v ≡ some (number g start cnt v)
  unfolding count
  count-eq start cnt v h =
      rw (range_fits r start cnt h) (count_loop-eq cnt start v 0 h ∙ ap some (omega arith))

  contains_loop-eq : (k i : ℕ) (v : Bool) → i + k ≤ n → contains_loop k b i v ≡ some (has g i k v)
  unfolding contains_loop
  contains_loop-eq zero i v h = refl
  contains_loop-eq (suc k) i v h = ground (
    arith,
    test-eq r i (omega arith),
    next_index r i (omega arith),
    contains_loop-eq k (i + 1) v (omega arith),
  )

  pub contains-eq :
      (start cnt : ℕ) (v : Bool)
      → start + cnt ≤ n
      → contains b start cnt v ≡ some (has g start cnt v)
  unfolding contains
  contains-eq start cnt v h = rw (range_fits r start cnt h) (contains_loop-eq cnt start v h)

  pub all-eq :
      (start cnt : ℕ) → start + cnt ≤ n → all b start cnt ≡ some (not (has g start cnt false))
  unfolding all
  all-eq start cnt h = rw (contains-eq start cnt false h)
