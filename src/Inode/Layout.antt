-- ===== src/Inode/Layout.antt =====
-- The data sectors of a file in order, and that `byte_to_sector` finds the right one.
use cs140_w.Prelude.{
  ℕ, zero, suc, ◌+◌, ◌-◌, ◌*◌, ◌/◌, ◌%◌, ◌≤◌, ◌<◌, ◌≡◌, refl, ap, ◌∙◌, ltb, true, false, some, List,
  [], ◌∷◌, ◌++◌, length, get_elem?, arith, dec_lt,
}
use cs140_w.Inode.{Inode, missing, bytes_to_sectors, block_sector, byte_to_sector}

-- f 0, f 1, ..., f (n - 1)
unfoldable pub tabulate : ℕ → (ℕ → ℕ) → List ℕ
tabulate zero f = []
tabulate (suc n) f = f 0 ∷ tabulate n (λ i. f (i + 1))

-- The rows of a table with `n` rows of `m` places.
unfoldable pub rows : ℕ → ℕ → (ℕ → ℕ → ℕ) → List ℕ
rows zero m f = []
rows (suc n) m f = tabulate m (f 0) ++ rows n m (λ i. f (i + 1))

-- All sectors that an inode has room for: the direct blocks, those of the indirect block, and those
-- of the indirect blocks in the doubly indirect block.
abbrev pub layout : (ℕ → ℕ → ℕ) → Inode → List ℕ
layout fs_device inode =
    tabulate 12 inode.direct_blocks
    ++ (tabulate 128 (fs_device inode.indirect_block)
        ++ rows 128 128 (λ i. fs_device (fs_device inode.doubly_indirect_block i)))

length-tabulate : (n : ℕ) (f : ℕ → ℕ) → length (tabulate n f) ≡ n
unfolding tabulate
length-tabulate zero f = refl
length-tabulate (suc n) f = omega (arith, length-tabulate n (λ i. f (i + 1)))

get_elem?-tabulate : (n : ℕ) (f : ℕ → ℕ) (i : ℕ) → i < n → get_elem? (tabulate n f) i ≡ some (f i)
unfolding tabulate
get_elem?-tabulate zero f i h = absurd (omega arith)
get_elem?-tabulate (suc n) f zero h = refl
get_elem?-tabulate (suc n) f (suc i) h =
    get_elem?-tabulate n (λ i. f (i + 1)) i (omega arith) ∙ ap (λ j. some (f j)) (omega arith)

get_elem?-left : (xs ys : List ℕ) (i : ℕ) → i < length xs → get_elem? (xs ++ ys) i ≡ get_elem? xs i
get_elem?-left [] ys i h = absurd (omega arith)
get_elem?-left (x ∷ xs) ys zero h = refl
get_elem?-left (x ∷ xs) ys (suc i) h = get_elem?-left xs ys i (omega arith)

get_elem?-right :
    (xs ys : List ℕ) (i k : ℕ) → i ≡ length xs + k → get_elem? (xs ++ ys) i ≡ get_elem? ys k
get_elem?-right [] ys i k h = ap (get_elem? ys) (omega arith)
get_elem?-right (x ∷ xs) ys zero k h = absurd (omega arith)
get_elem?-right (x ∷ xs) ys (suc i) k h = get_elem?-right xs ys i k (omega arith)

get_elem?-rows :
    (n : ℕ) (f : ℕ → ℕ → ℕ) (i j : ℕ)
    → i < n
    → j < 128
    → get_elem? (rows n 128 f) (i * 128 + j) ≡ some (f i j)
unfolding rows
get_elem?-rows zero f i j h k = absurd (omega arith)
get_elem?-rows (suc n) f zero j h k =
    ap (get_elem? (rows (suc n) 128 f)) (at_zero j)
    ∙ get_elem?-left (tabulate 128 (f 0)) (rows n 128 (λ i. f (i + 1))) j
        (omega (arith, length-tabulate 128 (f 0)))
    ∙ get_elem?-tabulate 128 (f 0) j k
  where
    at_zero : (j : ℕ) → 0 * 128 + j ≡ j
    at_zero j = omega arith
get_elem?-rows (suc n) f (suc i) j h k =
    get_elem?-right (tabulate 128 (f 0)) (rows n 128 (λ i. f (i + 1))) (suc i * 128 + j)
      (i * 128 + j) (omega (arith, length-tabulate 128 (f 0)))
    ∙ get_elem?-rows n (λ i. f (i + 1)) i j (omega arith) k
    ∙ ap (λ m. some (f m j)) (omega arith)

module _ (fs_device : ℕ → ℕ → ℕ) (inode : Inode) where
  abbrev direct : List ℕ
  direct = tabulate 12 inode.direct_blocks

  abbrev single : List ℕ
  single = tabulate 128 (fs_device inode.indirect_block)

  abbrev double : List ℕ
  double = rows 128 128 (λ i. fs_device (fs_device inode.doubly_indirect_block i))

  block_sector-layout :
      (k : ℕ)
      → k < 16524
      → get_elem? (layout fs_device inode) k ≡ some (block_sector fs_device inode k)
  block_sector-layout k h = elim (dec_lt k 12) [
    | yes in_direct ↦
        get_elem?-left direct (single ++ double) k
          (omega (arith, length-tabulate 12 inode.direct_blocks))
        ∙ get_elem?-tabulate 12 inode.direct_blocks k in_direct
        ∙ rw (branch k 12 in_direct) refl
    | no past ↦
        get_elem?-right direct (single ++ double) k (k - 12)
          (omega (arith, length-tabulate 12 inode.direct_blocks))
        ∙ elim (dec_lt k 140) [
          | yes in_single ↦
              get_elem?-left single double (k - 12)
                (omega (arith, length-tabulate 128 (fs_device inode.indirect_block)))
              ∙ get_elem?-tabulate 128 (fs_device inode.indirect_block) (k - 12) (omega arith)
              ∙ rw (no_branch k 12 past) (rw (branch k 140 in_single) refl)
          | no behind ↦
              get_elem?-right single double (k - 12) ((k - 140) / 128 * 128 + (k - 140) % 128)
                (omega (arith, length-tabulate 128 (fs_device inode.indirect_block)))
              ∙ get_elem?-rows 128 (λ i. fs_device (fs_device inode.doubly_indirect_block i))
                  ((k - 140) / 128) ((k - 140) % 128) (omega arith) (omega arith)
              ∙ rw (no_branch k 12 past) (rw (no_branch k 140 behind) refl)
        ]
  ]
    where
      branch : (x n : ℕ) → x < n → ltb x n ≡ true
      branch x n p = ground arith

      no_branch : (x n : ℕ) → ¬ (x < n) → ltb x n ≡ false
      no_branch x n p = ground arith

  -- For a file of at most 8460288 bytes, which is the room of its blocks, byte_to_sector of a
  -- position in the file is the sector that stands at the number of the block among the direct
  -- blocks, those in the indirect block and those in the indirect blocks of the doubly indirect
  -- block, in this order, and that number is below the number of sectors that the length needs; of
  -- a position behind the end it is -1.
  pub byte_to_sector-layout :
      (pos : ℕ)
      → inode.length ≤ 8460288
      → (pos < inode.length
          → get_elem? (layout fs_device inode) (pos / 512)
            ≡ some (byte_to_sector fs_device inode pos))
        × (inode.length ≤ pos → byte_to_sector fs_device inode pos ≡ missing)
        × (pos < inode.length → pos / 512 < bytes_to_sectors inode.length)
  unfolding byte_to_sector bytes_to_sectors
  byte_to_sector-layout pos h = (
    λ p. block_sector-layout (pos / 512) (omega arith) ∙ ground arith,
    λ p. ground arith,
    λ p. omega arith,
  )
