-- ===== src/Inode.antt =====
-- pintos/src/filesys/inode.c: which sector holds a byte of a file. A sector of sector numbers is a
-- function from its 128 places, and the device one from sectors to these; an inode's direct blocks are
-- a function from their 12 places.
pub mod Layout
mod Tests
use cs140_w.Prelude.{ℕ, ◌+◌, ◌-◌, ◌/◌, ◌%◌, ltb, Bool, true, false, if◌then◌else◌}

-- `BLOCK_SECTOR_SIZE`
abbrev pub block_sector_size : ℕ
block_sector_size = 512

abbrev pub num_direct_blocks : ℕ
num_direct_blocks = 12

abbrev pub blocks_per_indirect : ℕ
blocks_per_indirect = 128

-- -1 as a `block_sector_t`
abbrev pub missing : ℕ
missing = 4294967295

-- The members of `struct inode` that say where its data is.
pub record Inode : Type 0 where
  pub length : ℕ
  pub direct_blocks : ℕ → ℕ
  pub indirect_block : ℕ
  pub doubly_indirect_block : ℕ

unfoldable pub bytes_to_sectors : ℕ → ℕ
bytes_to_sectors size = (size + block_sector_size - 1) / block_sector_size

-- `byte_to_sector` on the number of the block. A block number of 16524 or above makes the source
-- read behind the end of `block_buf`; here that is the function at such a place.
abbrev pub block_sector : (ℕ → ℕ → ℕ) → Inode → ℕ → ℕ
block_sector fs_device inode block_num =
    if ltb block_num num_direct_blocks
    then inode.direct_blocks block_num
    else (if ltb block_num (num_direct_blocks + blocks_per_indirect)
        then fs_device inode.indirect_block (block_num - num_direct_blocks)
        else (let rest = block_num - (num_direct_blocks + blocks_per_indirect) in
            let indirect_block_num = rest / blocks_per_indirect in
            let final_block_index = rest % blocks_per_indirect in
            fs_device (fs_device inode.doubly_indirect_block indirect_block_num) final_block_index))

unfoldable pub byte_to_sector : (ℕ → ℕ → ℕ) → Inode → ℕ → ℕ
byte_to_sector fs_device inode pos =
    if ltb pos inode.length then block_sector fs_device inode (pos / block_sector_size) else missing
