-- ===== src/File.antt =====
-- pintos/src/filesys/file.c over the counts of open inodes in pintos/src/filesys/inode.c. A file is its
-- place in a table of files, an inode its number. `none` is a failed ASSERT, or the use of a file that
-- is not open.
pub mod Counts
pub mod Denial
mod Tests
use cs140_w.Prelude.{
  ℕ, zero, suc, ◌+◌, ◌-◌, ◌==◌, leb, ltb, Bool, true, false, not, ◌&&◌, if◌then◌else◌, Option, none,
  some, List, [], ◌∷◌, ◌++◌, ◌>>=◌, ◌>>◌, assert, set, get_elem?, length,
}
use cs140_w.Prelude.Int.{ℤ, pos, negsuc}

-- `struct file`
pub record File : Type 0 where
  pub inode : ℕ
  pub pos : ℕ
  pub deny_write : Bool

-- The counts of `struct inode`.
pub record Opened : Type 0 where
  pub open_cnt : ℕ
  pub deny_write_cnt : ℕ
  pub removed : Bool

-- The files, `none` where one was closed, and the inodes.
pub record Files : Type 0 where
  pub files : List (Option File)
  pub inodes : ℕ → Opened

abbrev pub put_inode : Files → ℕ → Opened → Files
put_inode s n o = record s { inodes = λ k. if n == k then o else s.inodes k }

abbrev pub put_file : Files → ℕ → Option File → Files
put_file s i f = record s { files = set s.files i f }

-- The file at a place of the table.
abbrev pub file_at : List (Option File) → ℕ → Option File
file_at [] i = none
file_at (f ∷ fs) zero = f
file_at (f ∷ fs) (suc i) = file_at fs i

unfoldable pub inode_reopen : Files → ℕ → Files
inode_reopen s n = let o = s.inodes n in put_inode s n (record o { open_cnt = o.open_cnt + 1 })

-- With whether the sectors of the inode are released.
unfoldable pub inode_close : Files → ℕ → Bool × Files
inode_close s n =
    let o = s.inodes n in
    (o.open_cnt - 1 == 0 && o.removed, put_inode s n (record o { open_cnt = o.open_cnt - 1 }))

unfoldable pub inode_remove : Files → ℕ → Files
inode_remove s n = put_inode s n (record (s.inodes n) { removed = true })

unfoldable pub inode_deny_write : Files → ℕ → Option Files
inode_deny_write s n =
    let o = s.inodes n in
    assert (leb (o.deny_write_cnt + 1) o.open_cnt)
    >> some (put_inode s n (record o { deny_write_cnt = o.deny_write_cnt + 1 }))

unfoldable pub inode_allow_write : Files → ℕ → Option Files
inode_allow_write s n =
    let o = s.inodes n in
    assert (ltb 0 o.deny_write_cnt)
    >> (assert (leb o.deny_write_cnt o.open_cnt)
        >> some (put_inode s n (record o { deny_write_cnt = o.deny_write_cnt - 1 })))

-- Of an inode that was opened for it, and whether `calloc` succeeds: the place of the new file, or
-- none where a null pointer is returned, whether the sectors of the inode are released, and the state.
unfoldable pub file_open : Bool → Files → ℕ → Option ℕ × (Bool × Files)
file_open allocated s n =
    let file : Option File = some (record { inode = n; pos = 0; deny_write = false }) in
    if allocated
    then (some (length s.files), (false, record s { files = s.files ++ file ∷ [] }))
    else (none, inode_close s n)

unfoldable pub file_reopen : Bool → Files → ℕ → Option (Option ℕ × (Bool × Files))
file_reopen allocated s i =
    file_at s.files i >>= λ f. some (file_open allocated (inode_reopen s f.inode) f.inode)

-- The bodies of `file_deny_write` and `file_allow_write` for the file at place `i`.
abbrev pub deny_file : Files → ℕ → File → Option Files
deny_file s i f =
    let denied = inode_deny_write (put_file s i (some (record f { deny_write = true }))) f.inode in
    if f.deny_write then some s else denied

abbrev pub allow_file : Files → ℕ → File → Option Files
allow_file s i f =
    let allowed =
      inode_allow_write (put_file s i (some (record f { deny_write = false }))) f.inode in
    if f.deny_write then allowed else some s

unfoldable pub file_deny_write : Files → ℕ → Option Files
file_deny_write s i = file_at s.files i >>= λ f. deny_file s i f

unfoldable pub file_allow_write : Files → ℕ → Option Files
file_allow_write s i = file_at s.files i >>= λ f. allow_file s i f

-- Closing, where the file no longer denies writes.
abbrev pub free_file : Files → ℕ → ℕ → Bool × Files
free_file s i n = let closed = inode_close s n in (closed.0, put_file closed.1 i none)

unfoldable pub file_close : Files → ℕ → Option (Bool × Files)
file_close s i = file_at s.files i >>= λ f. allow_file s i f >>= λ s'. some (free_file s' i f.inode)

-- The position behind the ASSERT of `file_seek`.
abbrev pub not_negative : ℤ → Option ℕ
not_negative (pos n) = some n
not_negative (negsuc n) = none

unfoldable pub file_seek : Files → ℕ → ℤ → Option Files
file_seek s i new_pos = do
  f ← file_at s.files i
  p ← not_negative new_pos
  some (put_file s i (some (record f { pos = p })))

unfoldable pub file_tell : Files → ℕ → Option ℕ
file_tell s i = file_at s.files i >>= λ f. some f.pos
