-- ===== src/Paging.antt =====
-- pintos/src/vm/frame.c and pintos/src/vm/page.c: the contents of a page while it is moved out of its
-- frame and into another one. Addresses are physical, a file is a function from places to bytes and
-- long enough for its pages, and the page's `busy` lock is held. `none` is a failed ASSERT.
pub mod Contents
mod Tests
use cs140_w.Prelude.{
  ℕ, zero, suc, ◌+◌, ◌-◌, ◌*◌, ◌/◌, ◌%◌, ◌^◌, ◌==◌, leb, ltb, Bool, true, false, not, ◌&&◌, ◌||◌,
  if◌then◌else◌, Option, none, some, ◌>>=◌, ◌>>◌, assert,
}
use cs140_w.Bitmap.{Bitmap}
use cs140_w.Swap.{Memory, Device, page_size, allocate_slot, free_slot, read_page, write_page}

-- `enum page_type`
pub data PageType : Type 0 where
  swap : PageType
  mmapped : PageType
  executable : PageType
  zero_page : PageType

-- `struct page`. The address `paddr` is 0 where the page is not in memory.
pub record Page : Type 0 where
  pub vaddr : ℕ
  pub paddr : ℕ
  pub pinned : Bool
  pub type : PageType
  pub writable : Bool
  pub swap_slot : ℕ
  pub file : ℕ
  pub offset : ℕ
  pub valid_bytes : ℕ

-- Memory, the swap device with its bitmap, and the files.
pub record Store : Type 0 where
  pub memory : Memory
  pub slots : Bitmap
  pub device : Device
  pub files : ℕ → ℕ → ℕ

-- -1 as a `uint32_t`
abbrev pub no_slot : ℕ
no_slot = 2 ^ 32 - 1

-- A page to a new slot of the swap device.
abbrev pub swap_out : Store → Page → ℕ → Option (Page × Store)
swap_out s page kpage = do
  (slot, slots') ← allocate_slot s.slots
  device' ← write_page slots' s.memory slot kpage s.device
  some (
    record page { paddr = 0; type = swap; swap_slot = slot },
    record s { slots = slots'; device = device' },
  )

-- `file_write` of the valid bytes of a page, after `file_seek`.
abbrev pub write_back : Store → Page → ℕ → Store
write_back s page kpage = record s {
  files = λ f i.
      if f == page.file && (leb page.offset i && ltb i (page.offset + page.valid_bytes))
      then s.memory (kpage + (i - page.offset))
      else s.files f i;
}

-- `frame_evict` of the page that the clock has chosen; `dirty` is what the page tables say of it.
abbrev pub evict_type : PageType → Bool → Store → Page → Option (Page × Store)
evict_type executable dirty s page =
    let kept = some (record page { paddr = 0 }, s) in
    let out = swap_out s page page.paddr in if dirty then out else kept
evict_type zero_page dirty s page =
    let kept = some (record page { paddr = 0 }, s) in
    let out = swap_out s page page.paddr in if dirty then out else kept
evict_type swap dirty s page = swap_out s page page.paddr
evict_type mmapped dirty s page =
    some (record page { paddr = 0 }, if dirty then write_back s page page.paddr else s)

unfoldable pub frame_evict : Bool → Store → Page → Option (Page × Store)
frame_evict dirty s page = assert (not (page.paddr == 0)) >> evict_type page.type dirty s page

-- The valid bytes of a page from its file, and zeros behind them.
abbrev pub read_file : Store → Page → ℕ → Memory
read_file s page kpage a =
    if leb kpage a && ltb a (kpage + page.valid_bytes)
    then s.files page.file (page.offset + (a - kpage))
    else (if leb kpage a && ltb a (kpage + page_size) then 0 else s.memory a)

abbrev pub clear_page : Memory → ℕ → Memory
clear_page m kpage a = if leb kpage a && ltb a (kpage + page_size) then 0 else m a

-- The `switch` of `page_in`.
abbrev pub fill_type : PageType → Store → Page → Option (Page × Store)
fill_type executable s page = some (page, record s { memory = read_file s page page.paddr })
fill_type mmapped s page = some (page, record s { memory = read_file s page page.paddr })
fill_type zero_page s page = some (page, record s { memory = clear_page s.memory page.paddr })
fill_type swap s page = do
  memory' ← read_page s.slots s.device page.swap_slot page.paddr s.memory
  slots' ← free_slot s.slots page.swap_slot
  some (record page { swap_slot = no_slot }, record s { memory = memory'; slots = slots' })

-- `page_in` of a page that no shared frame holds, to the frame that `frame_allocate` gets for it.
unfoldable pub page_in : ℕ → Store → Page → Option (Page × Store)
page_in kpage s page =
    assert (page.paddr == 0) >> fill_type page.type s (record page { paddr = kpage; pinned = true })
