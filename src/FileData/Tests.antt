-- ===== src/FileData/Tests.antt =====
-- Runs and instances of the theorems on the data of files: a file of 600 bytes in the sectors 50 and 51.
use cs140_w.Prelude.{ℕ, ◌+◌, ◌<◌, ◌≡◌, some, arith}
use cs140_w.Inode.{Inode, byte_to_sector}
use cs140_w.FileData.{Sectors, inode_read_at, write_loop}
use cs140_w.FileData.Read.{IsRead, inode_read_at-IsRead}
use cs140_w.FileData.Write.{Apart, inode_read_at-write_loop}

abbrev file : Inode
file = record {
  length = 600;
  direct_blocks = λ i. 50 + i;
  indirect_block = 0;
  doubly_indirect_block = 0;
}

abbrev no_index : ℕ → ℕ → ℕ
no_index s i = 0

abbrev disk : Sectors
disk s i = s + i

abbrev buffer : ℕ → ℕ
buffer i = 7

file-Apart : Apart no_index file
unfolding byte_to_sector
file-Apart a b la lb e = ground (arith, la, lb, e)

-- Across the border of the two sectors, and up to the end of the file.
inode_read_at-IsRead_example :
    (buffer' : ℕ → ℕ) × (inode_read_at 101 no_index file 600 disk buffer 100 510
      ≡ some (90, buffer'))
    × IsRead no_index file disk 510 90 0 buffer buffer'
inode_read_at-IsRead_example =
    inode_read_at-IsRead 101 no_index file 600 disk buffer 100 510 (omega arith) (omega arith)

inode_read_at-write_loop_example :
    (sectors' : Sectors) × (buffer' : ℕ → ℕ) × (write_loop 21 no_index file disk buffer 20 500 0
      ≡ some (20, sectors'))
    × (inode_read_at 21 no_index file 600 sectors' (λ i. 0) 20 500 ≡ some (20, buffer'))
    × ((i : ℕ) → i < 20 → buffer' i ≡ 7)
inode_read_at-write_loop_example =
    inode_read_at-write_loop 21 no_index file disk buffer (λ i. 0) 20 500 file-Apart (omega arith)
      (omega arith)
