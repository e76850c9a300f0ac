-- ===== src/Swap/Pages.antt =====
-- A page written to a slot is read back.
use cs140_w.Prelude.{
  ℕ, zero, suc, ◌+◌, ◌-◌, ◌*◌, ◌/◌, ◌%◌, ◌^◌, ◌≤◌, ◌<◌, ◌≡◌, ◌≢◌, ap, ◌∙◌, leb, ltb, Bool, true,
  ◌&&◌, if◌then◌else◌, some, arith,
}
use cs140_w.Bitmap
use cs140_w.Bitmap.{Bitmap}
use cs140_w.Bitmap.Valid.{Represents}
use cs140_w.Bitmap.Ranges.{all-eq}
use cs140_w.Swap.{
  Memory, Device, sector_size, sector_of, load, store, read_loop, read_page, write_loop, write_page,
}

module _ (slot upage : ℕ) where
  -- The bytes in memory behind `n` rounds of reading.
  read_loop-eq :
      (n c : ℕ) (d : Device) (mem : Memory) (a : ℕ)
      → read_loop n c d slot upage mem a ≡ (
          if leb (upage + c * 512) a && ltb a (upage + (c + n) * 512)
          then d (sector_of slot ((a - upage) / 512)) ((a - upage) % 512)
          else mem a)
  unfolding read_loop
  read_loop-eq zero c d mem a = ground arith
  read_loop-eq (suc n) c d mem a =
      read_loop-eq n (c + 1) d (load d (sector_of slot c) (upage + c * sector_size) mem) a
      ∙ ground arith

  write_loop-eq :
      (n c : ℕ) (mem : Memory) (d : Device) (s i : ℕ)
      → write_loop n c mem slot upage d s i ≡ (
          if leb (sector_of slot c) s && ltb s (sector_of slot (c + n))
          then mem (upage + (s - sector_of slot 0) * 512 + i)
          else d s i)
  unfolding write_loop
  write_loop-eq zero c mem d s i = ground arith
  write_loop-eq (suc n) c mem d s i =
      write_loop-eq n (c + 1) mem (store mem (upage + c * sector_size) (sector_of slot c) d) s i
      ∙ ground arith

module _ {b : Bitmap} {n : ℕ} {g : ℕ → Bool} (r : Represents b n g) (slot : ℕ) (inside : slot < n)
    (used : g slot ≡ true) where
  all_used : Bitmap.all b slot 1 ≡ some true
  all_used = all-eq r slot 1 (omega arith) ∙ ground arith

  -- What a page read into memory at `upage` leaves there.
  abbrev pub Read : Device → ℕ → Memory → Memory → Type 0
  Read d upage mem mem' =
      ((i : ℕ) → i < 4096 → mem' (upage + i) ≡ d (sector_of slot (i / 512)) (i % 512))
      × ((a : ℕ) → a < upage → mem' a ≡ mem a)
      × ((i : ℕ) → 4096 ≤ i → mem' (upage + i) ≡ mem (upage + i))

  read_page-Read :
      (d : Device) (upage : ℕ) (mem : Memory)
      → (mem' : Memory) × (read_page b d slot upage mem ≡ some mem') × Read d upage mem mem'
  unfolding read_page
  read_page-Read d upage mem = (
    read_loop 8 0 d slot upage mem,
    ground (arith, all_used),
    (
      λ i h. ground (arith, read_loop-eq slot upage 8 0 d mem (upage + i)),
      λ a h. ground (arith, read_loop-eq slot upage 8 0 d mem a),
      λ i h. ground (arith, read_loop-eq slot upage 8 0 d mem (upage + i)),
    ),
  )

  abbrev written : Memory → ℕ → Device → Device
  written mem upage d = write_loop 8 0 mem slot upage d

  write_page-written :
      (mem : Memory) (upage : ℕ) (d : Device)
      → write_page b mem slot upage d ≡ some (written mem upage d)
  unfolding write_page
  write_page-written mem upage d = ground (arith, all_used)

  same_byte :
      (upage i : ℕ)
      → upage + (sector_of slot (i / 512) - sector_of slot 0) * 512 + i % 512 ≡ upage + i
  same_byte upage i = omega arith

  written-byte :
      (mem : Memory) (upage : ℕ) (d : Device) (i : ℕ)
      → i < 4096
      → written mem upage d (sector_of slot (i / 512)) (i % 512) ≡ mem (upage + i)
  written-byte mem upage d i h =
      write_loop-eq slot upage 8 0 mem d (sector_of slot (i / 512)) (i % 512)
      ∙ rw (in_slot i h) (ap mem (same_byte upage i))
    where
      in_slot :
          (i : ℕ)
          → i < 4096
          → leb (sector_of slot 0) (sector_of slot (i / 512))
              && ltb (sector_of slot (i / 512)) (sector_of slot 8)
            ≡ true
      in_slot i h = ground arith

  -- For a slot of the swap device that is in use, swap_write_page returns, and swap_read_page of
  -- the slot behind it leaves the bytes of the page written in the page read, and every other byte
  -- of memory as it was.
  pub write_page-read_page :
      (mem mem2 : Memory) (upage upage2 : ℕ) (d : Device)
      → (d' : Device) × (mem' : Memory) × (write_page b mem slot upage d ≡ some d')
        × (read_page b d' slot upage2 mem2 ≡ some mem')
        × ((i : ℕ) → i < 4096 → mem' (upage2 + i) ≡ mem (upage + i))
        × ((a : ℕ) → a < upage2 → mem' a ≡ mem2 a)
        × ((i : ℕ) → 4096 ≤ i → mem' (upage2 + i) ≡ mem2 (upage2 + i))
  write_page-read_page mem mem2 upage upage2 d =
      let d' = written mem upage d in
      let (mem', ran, (bytes, below, above)) = read_page-Read d' upage2 mem2 in
      (
        d',
        mem',
        write_page-written mem upage d,
        ran,
        λ i h. bytes i h ∙ written-byte mem upage d i h,
        below,
        above,
      )

  -- If two different slots are below 2^20, the first is on the device and in use, swap_write_page
  -- to it returns and leaves the eight sectors of the other as they were.
  pub write_page-others :
      (other : ℕ) (mem : Memory) (upage : ℕ) (d : Device)
      → other ≢ slot
      → slot < 2 ^ 20
      → other < 2 ^ 20
      → (d' : Device) × (write_page b mem slot upage d ≡ some d')
        × ((count i : ℕ) → count < 8 → d' (sector_of other count) i ≡ d (sector_of other count) i)
  unfolding write_page
  write_page-others other mem upage d ne small small2 = (
    write_loop 8 0 mem slot upage d,
    ground (arith, all_used),
    λ c i h. ground (arith, write_loop-eq slot upage 8 0 mem d (sector_of other c) i),
  )
