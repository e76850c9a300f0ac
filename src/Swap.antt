-- ===== src/Swap.antt =====
-- pintos/src/vm/swap.c: the slots of the swap device. Memory is a function from addresses to bytes,
-- and the device one from sectors and offsets, which are below 512, to bytes. `swap_lock` is taken and
-- released within one function, so a call is one step. `none` is a failed ASSERT.
pub mod Slots
pub mod Pages
mod Tests
use cs140_w.Prelude.{
  ℕ, zero, suc, ◌+◌, ◌-◌, ◌*◌, ◌/◌, ◌%◌, ◌^◌, ◌==◌, leb, ltb, Bool, false, not, ◌&&◌, if◌then◌else◌,
  Option, some, ◌>>=◌, ◌>>◌, assert,
}
use cs140_w.Bitmap
use cs140_w.Bitmap.{Bitmap, bitmap_error}

abbrev pub Memory : Type 0
Memory = ℕ → ℕ

abbrev pub Device : Type 0
Device = ℕ → ℕ → ℕ

-- `PGSIZE`
abbrev pub page_size : ℕ
page_size = 4096

-- `BLOCK_SECTOR_SIZE`
abbrev pub sector_size : ℕ
sector_size = 512

-- `swap_free`
unfoldable pub free_slot : Bitmap → ℕ → Option Bitmap
free_slot b slot = Bitmap.reset b slot

unfoldable pub allocate_slot : Bitmap → Option (ℕ × Bitmap)
allocate_slot b = do
  (slot, b') ← Bitmap.scan_and_flip b 0 1 false
  assert (not (slot == bitmap_error))
  some (slot, b')

-- `block_sector` in the loops: the product is of 32 bits.
abbrev pub sector_of : ℕ → ℕ → ℕ
sector_of slot sector_count = slot * page_size % 2 ^ 32 / sector_size + sector_count

-- What `block_read` from and `block_write` to a sector do.
abbrev pub load : Device → ℕ → ℕ → Memory → Memory
load d sector addr mem a =
    if leb addr a && ltb a (addr + sector_size) then d sector (a - addr) else mem a

abbrev pub store : Memory → ℕ → ℕ → Device → Device
store mem addr sector d s i = if s == sector then mem (addr + i) else d s i

-- The loop of `swap_read_page`, `n` rounds from `sector_count` on.
pub read_loop : ℕ → ℕ → Device → ℕ → ℕ → Memory → Memory
read_loop zero sector_count d slot upage mem = mem
read_loop (suc n) sector_count d slot upage mem =
    read_loop n (sector_count + 1) d slot upage
      (load d (sector_of slot sector_count) (upage + sector_count * sector_size) mem)

unfoldable pub read_page : Bitmap → Device → ℕ → ℕ → Memory → Option Memory
unfolding read_loop
read_page b d slot upage mem = do
  used ← Bitmap.all b slot 1
  assert used
  some (read_loop (page_size / sector_size) 0 d slot upage mem)

-- The loop of `swap_write_page`.
pub write_loop : ℕ → ℕ → Memory → ℕ → ℕ → Device → Device
write_loop zero sector_count mem slot upage d = d
write_loop (suc n) sector_count mem slot upage d =
    write_loop n (sector_count + 1) mem slot upage
      (store mem (upage + sector_count * sector_size) (sector_of slot sector_count) d)

unfoldable pub write_page : Bitmap → Memory → ℕ → ℕ → Device → Option Device
unfolding write_loop
write_page b mem slot upage d = do
  used ← Bitmap.all b slot 1
  assert used
  some (write_loop (page_size / sector_size) 0 mem slot upage d)
