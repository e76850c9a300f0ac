-- ===== src/Paging/Tests.antt =====
-- Runs and instances of the theorems on the contents of pages.
use cs140_w.Prelude.{◌+◌, true, false, [], ◌∷◌}
use cs140_w.Bitmap.{Bitmap}
use cs140_w.Paging.{Page, Store, zero_page, no_slot}

-- Slots 0 and 1 are in use.
abbrev slots : Bitmap
slots = record { bit_cnt = 40; bits = 3 ∷ 0 ∷ [] }

abbrev store : Store
store = record { memory = λ a. a + 1; slots = slots; device = λ sector i. 0; files = λ file i. 0 }

-- A page of the stack that was written to.
abbrev stack_page : Page
stack_page = record {
  vaddr = 3221221376;
  paddr = 8192;
  pinned = false;
  type = zero_page;
  writable = true;
  swap_slot = no_slot;
  file = 0;
  offset = 0;
  valid_bytes = 0;
}
