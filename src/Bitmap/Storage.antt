-- ===== src/Bitmap/Storage.antt =====
-- `bitmap_create`, `bitmap_create_in_buf`, `bitmap_buf_size`, and `bitmap_read` and `bitmap_write`,
-- which keep a bitmap in a file. A file is of any type, and `file_read_at` and `file_write_at` at
-- offset 0 are arguments.
use Prim.Native.Nat.{bit_and}
use cs140_w.Prelude.{
  ℕ, ◌+◌, ◌-◌, ◌≤◌, ◌<◌, ◌≡◌, refl, ◌∙◌, ◌==◌, leb, Bool, true, false, if◌then◌else◌, Option, none,
  some, List, [], ◌>>=◌, ◌>>◌, assert, arith,
}
use cs140_w.Bitmap.{Bitmap, elem_cnt, byte_cnt, last_mask, update_word, set_all}
use cs140_w.Bitmap.Valid.{get, IsValid, Represents}
use cs140_w.Bitmap.Ranges.{set_multiple-Yields}

-- `handle` says whether malloc has room for the `struct bitmap`, and `words` is what it returns for
-- the elements, with whatever they hold. The result is the pointer, none of which is NULL.
unfoldable pub create : Bool → Option (List ℕ) → ℕ → Option (Option Bitmap)
create false words bit_cnt = some none
create true (some ws) bit_cnt =
    set_all (record { bit_cnt = bit_cnt; bits = ws }) false >>= λ b. some (some b)
create true none bit_cnt =
    if bit_cnt == 0
    then (set_all (record { bit_cnt = 0; bits = [] }) false >>= λ b. some (some b))
    else some none

-- sizeof (struct bitmap) + byte_cnt (bit_cnt)
abbrev pub buf_size : ℕ → ℕ
buf_size bit_cnt = 8 + byte_cnt bit_cnt

-- The words `ws` are those behind the header in the block.
unfoldable pub create_in_buf : ℕ → List ℕ → ℕ → Option Bitmap
create_in_buf bit_cnt ws block_size = do
  assert (leb (buf_size bit_cnt) block_size)
  set_all (record { bit_cnt = bit_cnt; bits = ws }) false

-- No bit is set.
abbrev pub all_clear : ℕ → Bool
all_clear j = false

module _ (bit_cnt : ℕ) (ws : List ℕ) (v : IsValid (record { bit_cnt = bit_cnt; bits = ws })) where
  junk :
      Represents
        (record { bit_cnt = bit_cnt; bits = ws })
        bit_cnt
        (get (record { bit_cnt = bit_cnt; bits = ws }))
  junk = record { valid = v; size = refl; digits = λ j. refl }

  -- If malloc gives as many words as the bits need, bitmap_create returns a valid bitmap of that
  -- many bits, all clear, whatever the memory held.
  pub create_lem :
      (b : Bitmap) × (create true (some ws) bit_cnt ≡ some (some b))
      × IsValid b
      × (b.bit_cnt ≡ bit_cnt)
      × ((j : ℕ) → j < bit_cnt → get b j ≡ false)
  unfolding create set_all
  create_lem =
      let (b, e, r) = set_multiple-Yields junk 0 bit_cnt false (omega arith) in
      (b, rw e refl, r.valid, r.size, λ j lt. r.digits j ∙ ground arith)

  pub create_in_buf_lem :
      (block_size : ℕ)
      → buf_size bit_cnt ≤ block_size
      → (b : Bitmap) × (create_in_buf bit_cnt ws block_size ≡ some b)
        × IsValid b
        × (b.bit_cnt ≡ bit_cnt)
        × ((j : ℕ) → j < bit_cnt → get b j ≡ false)
  unfolding create_in_buf set_all
  create_in_buf_lem block_size room =
      let (b, e, r) = set_multiple-Yields junk 0 bit_cnt false (omega arith) in
      (b, ground (arith, e), r.valid, r.size, λ j lt. r.digits j ∙ ground arith)

module _ {F : Type 0} (read_at : F → List ℕ → ℕ → ℕ × List ℕ)
    (write_at : F → List ℕ → ℕ → ℕ × F) where
  -- `read_at f ws size` is the number of bytes read and the words after the call.
  unfoldable pub read : Bitmap → F → Option (Bool × Bitmap)
  read b file =
      if b.bit_cnt == 0
      then some (true, b)
      else (let (got, ws) = read_at file b.bits (byte_cnt b.bit_cnt) in
          (update_word (record b { bits = ws }) (elem_cnt b.bit_cnt - 1)
              (λ w. bit_and w (last_mask b))
            >>= λ b'. some (got == byte_cnt b.bit_cnt, b')))

  unfoldable pub write : Bitmap → F → Bool × F
  write b file =
      let (put, file') = write_at file b.bits (byte_cnt b.bit_cnt) in
      (put == byte_cnt b.bit_cnt, file')
