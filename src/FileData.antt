-- ===== src/FileData.antt =====
-- pintos/src/filesys/inode.c: the loops that read and write the bytes of a file. The blocks in the
-- cache and on the disk are one function from sectors and places to bytes; a buffer is a function
-- from places to bytes. `none` is a loop that does not end within its fuel.
pub mod Read
pub mod Write
mod Tests
use cs140_w.Prelude.{
  ℕ, zero, suc, ◌+◌, ◌-◌, ◌%◌, ◌==◌, ltb, leb, Bool, true, false, ◌&&◌, if◌then◌else◌, Option, none,
  some,
}
use cs140_w.Inode.{Inode, block_sector_size, byte_to_sector}

-- The bytes of every sector.
abbrev pub Sectors : Type 0
Sectors = ℕ → ℕ → ℕ

-- `memcpy (to + at, from + place, size)`
abbrev pub copy : (ℕ → ℕ) → ℕ → (ℕ → ℕ) → ℕ → ℕ → ℕ → ℕ
copy to at from place size i =
    if leb at i && ltb i (at + size) then from (place + (i - at)) else to i

-- The number of bytes that one round of the loops takes, where the file ends at `limit`.
abbrev pub chunk : ℕ → ℕ → ℕ → ℕ
chunk limit size offset =
    let sector_ofs = offset % block_sector_size in
    let inode_left = limit - offset in
    let sector_left = block_sector_size - sector_ofs in
    let min_left = if ltb inode_left sector_left then inode_left else sector_left in
    if ltb size min_left then size else min_left

-- `inode_read_at` but for its read-ahead: the bytes read, and the buffer.
unfoldable pub read_loop :
    ℕ → (ℕ → ℕ → ℕ) → Inode → ℕ → Sectors → (ℕ → ℕ) → ℕ → ℕ → ℕ → Option (ℕ × (ℕ → ℕ))
read_loop zero fs_device inode limit sectors buffer size offset bytes_read = none
read_loop (suc fuel) fs_device inode limit sectors buffer size offset bytes_read =
    let n = chunk limit size offset in
    let block = sectors (byte_to_sector fs_device inode offset) in
    let buffer' = copy buffer bytes_read block (offset % block_sector_size) n in
    let rest =
      read_loop fuel fs_device inode limit sectors buffer' (size - n) (offset + n)
        (bytes_read + n) in
    if size == 0
    then some (bytes_read, buffer)
    else (if n == 0 then some (bytes_read, buffer) else rest)

-- `limit` is the inode's `max_read_length`.
unfoldable pub inode_read_at :
    ℕ → (ℕ → ℕ → ℕ) → Inode → ℕ → Sectors → (ℕ → ℕ) → ℕ → ℕ → Option (ℕ × (ℕ → ℕ))
inode_read_at fuel fs_device inode limit sectors buffer size offset =
    read_loop fuel fs_device inode limit sectors buffer size offset 0

abbrev pub write_block : Sectors → ℕ → (ℕ → ℕ) → Sectors
write_block sectors sector block s = if s == sector then block else sectors s

-- The loop of `inode_write_at`: the bytes written, and the sectors.
unfoldable pub write_loop :
    ℕ → (ℕ → ℕ → ℕ) → Inode → Sectors → (ℕ → ℕ) → ℕ → ℕ → ℕ → Option (ℕ × Sectors)
write_loop zero fs_device inode sectors buffer size offset bytes_written = none
write_loop (suc fuel) fs_device inode sectors buffer size offset bytes_written =
    let n = chunk inode.length size offset in
    let sector = byte_to_sector fs_device inode offset in
    let block = copy (sectors sector) (offset % block_sector_size) buffer bytes_written n in
    let rest =
      write_loop fuel fs_device inode (write_block sectors sector block) buffer (size - n)
        (offset + n) (bytes_written + n) in
    if size == 0
    then some (bytes_written, sectors)
    else (if n == 0 then some (bytes_written, sectors) else rest)
