-- ===== src/FreeMap.antt =====
-- pintos/src/filesys/free-map.c: the map of the disk sectors in use. Its file is of any type `F`;
-- whether `bitmap_write` to it succeeds is decided by the argument `write`. `none` is a failed
-- ASSERT or the use of a null file.
pub mod Sectors
mod Tests
use cs140_w.Prelude.{
  ℕ, ◌≡◌, ◌==◌, Bool, true, false, not, if◌then◌else◌, Option, none, some, ◌>>=◌, ◌>>◌, assert,
}
use cs140_w.Bitmap
use cs140_w.Bitmap.{Bitmap, bitmap_error}

-- The static variables `free_map` and `free_map_file`.
pub record FreeMap (F : Type 0) : Type 0 where
  pub map : Bitmap
  pub file : Option F

abbrev pub free_map_sector : ℕ
free_map_sector = 0

abbrev pub root_dir_sector : ℕ
root_dir_sector = 1

module _ {F : Type 0} (write : Bitmap → F → Bool × F) where
  -- `free_map_init` past the creation of the bitmap: the two sectors with a fixed use are taken.
  unfoldable pub init : Bitmap → Option (FreeMap F)
  init b = do
    b1 ← Bitmap.mark b free_map_sector
    b2 ← Bitmap.mark b1 root_dir_sector
    some (record { map = b2; file = none })

  -- The part of `free_map_allocate` behind a successful scan: the map goes to the file, if that is
  -- open, and the bits are reset if it cannot be written.
  abbrev pub save : ℕ → ℕ → Bitmap → Option F → Option (Option ℕ × FreeMap F)
  save sector cnt b none = some (some sector, record { map = b; file = none })
  save sector cnt b (some f) =
      let (written, f') = write b f in
      if written
      then some (some sector, record { map = b; file = some f' })
      else (Bitmap.set_multiple b sector cnt false >>= λ b'.
          some (none, record { map = b'; file = some f' }))

  -- The result is the sector stored in `*SECTORP`, `none` where false is returned.
  unfoldable pub allocate : FreeMap F → ℕ → Option (Option ℕ × FreeMap F)
  allocate s cnt = do
    (sector, b) ← Bitmap.scan_and_flip s.map 0 cnt false
    if sector == bitmap_error then some (none, record s { map = b }) else save sector cnt b s.file

  unfoldable pub release : FreeMap F → ℕ → ℕ → Option (FreeMap F)
  release s sector cnt = do
    in_use ← Bitmap.all s.map sector cnt
    assert in_use
    b ← Bitmap.set_multiple s.map sector cnt false
    f ← s.file
    some (record { map = b; file = some (write b f).1 })
