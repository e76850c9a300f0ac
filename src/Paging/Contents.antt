-- ===== src/Paging/Contents.antt =====
-- What a page holds survives its eviction: `page_in` puts the same bytes into the next frame.
use cs140_w.Prelude.{ℕ, ◌+◌, ◌≤◌, ◌<◌, ◌≡◌, ltb, Bool, true, false, if◌then◌else◌, Option, some}
use cs140_w.Bitmap.{Bitmap}
use cs140_w.Bitmap.Valid.{Represents}
use cs140_w.Swap.{Memory, Device}
use cs140_w.Paging.{PageType, swap, mmapped, executable, zero_page, Page, Store, page_in}

-- The frame of a page holds what its file has for it, and zeros behind that.
abbrev pub FromFile : Store → Page → Type 0
FromFile s page =
    (i : ℕ)
    → i < 4096
    → s.memory (page.paddr + i)
      ≡ (if ltb i page.valid_bytes then s.files page.file (page.offset + i) else 0)

-- What a page in memory must be, by its type and its dirty bits: one that is clean is as it was read,
-- and one that is mapped from a file ends in zeros.
abbrev pub IsKept : PageType → Bool → Store → Page → Type 0
IsKept swap dirty s page = Unit
IsKept executable true s page = Unit
IsKept executable false s page = FromFile s page
IsKept zero_page true s page = Unit
IsKept zero_page false s page = (i : ℕ) → i < 4096 → s.memory (page.paddr + i) ≡ 0
IsKept mmapped true s page =
    (i : ℕ) → i < 4096 → page.valid_bytes ≤ i → s.memory (page.paddr + i) ≡ 0
IsKept mmapped false s page = FromFile s page

-- From the store `s'` on, and whatever memory holds by then, `page'` is read into any frame with the
-- bytes that the frame of `page` had.
abbrev pub Restores : Store → Page → Store → Page → Type 0
Restores s page s' page' =
    (memory : Memory) (kpage : ℕ)
    → (page'' : Page) × (s'' : Store) × (page_in kpage (record s' { memory = memory }) page'
        ≡ some (page'', s''))
      × (page''.paddr ≡ kpage)
      × ((i : ℕ) → i < 4096 → s''.memory (kpage + i) ≡ s.memory (page.paddr + i))

-- The result of an eviction.
abbrev Evicted : Store → Page → Option (Page × Store) → Type 0
Evicted s page r =
    (page' : Page) × (s' : Store) × (r ≡ some (page', s'))
    × (page'.paddr ≡ 0)
    × Restores s page s' page'

module _ {n : ℕ} {g : ℕ → Bool} (s : Store) (r : Represents s.slots n g) (page : Page) where
  -- The store with a page that was read from the swap device.
  abbrev refilled : Device → Memory → Bitmap → Store
  refilled d m b = record s { memory = m; slots = b; device = d }
