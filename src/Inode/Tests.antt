-- ===== src/Inode/Tests.antt =====
-- An instance of the theorem on the sectors of a file.
use cs140_w.Prelude.{ℕ, ◌+◌, ◌*◌, ◌≤◌, ◌<◌, ◌≡◌, refl, some, get_elem?, arith}
use cs140_w.Inode.{Inode, missing, bytes_to_sectors, byte_to_sector}
use cs140_w.Inode.Layout.{layout, byte_to_sector-layout}

-- A device on which place `i` of sector `s` has the number 1000 * s + i.
abbrev device : ℕ → ℕ → ℕ
device s i = 1000 * s + i

-- A file of 150 blocks and one byte.
abbrev file : Inode
file = record {
  length = 76801;
  direct_blocks = λ i. i + 20;
  indirect_block = 7;
  doubly_indirect_block = 8;
}

last_byte : byte_to_sector device file 76800 ≡ 8000010
unfolding byte_to_sector
last_byte = refl

byte_to_sector-layout_example :
    (76800 < 76801 → get_elem? (layout device file) 150 ≡ some (byte_to_sector device file 76800))
    × (76801 ≤ 76800 → byte_to_sector device file 76800 ≡ missing)
    × (76800 < 76801 → 150 < bytes_to_sectors 76801)
byte_to_sector-layout_example = byte_to_sector-layout device file 76800 (omega arith)
