-- ===== src/File/Denial.antt =====
-- The counts of an inode agree with its open files, so that no ASSERT on them fails.
use cs140_w.Prelude.{ℕ, ◌≤◌, ◌≡◌, Bool, Option, some, ◌>>=◌}
use cs140_w.Prelude.Int.{ℤ, pos, ◌≤ℤ◌}
use cs140_w.File.{
  File, Files, file_reopen, file_deny_write, file_allow_write, file_close, file_seek,
}
use cs140_w.File.Counts.{of_inode, denies, total}

-- Each inode counts its files that deny writes, and has at least as many openers as files.
abbrev pub IsCounted : Files → Type 0
IsCounted s =
    (n : ℕ)
    → (total (denies n) s.files ≡ (s.inodes n).deny_write_cnt)
      × (total (of_inode n) s.files ≤ (s.inodes n).open_cnt)

-- A call that succeeds and keeps the counts.
abbrev pub Keeps : Option Files → Type 0
Keeps r = (s' : Files) × (r ≡ some s') × IsCounted s'

-- The calls on an open file at a place of the table.
pub data Call : Type 0 where
  deny_write : Call
  allow_write : Call
  reopen : (allocated : Bool) → Call
  close : Call
  seek : ℤ → Call

-- The state that a call leaves.
abbrev pub run : Files → ℕ → Call → Option Files
run s i deny_write = file_deny_write s i
run s i allow_write = file_allow_write s i
run s i (reopen allocated) = file_reopen allocated s i >>= λ r. some r.1.1
run s i close = file_close s i >>= λ r. some r.1
run s i (seek new_pos) = file_seek s i new_pos

-- No position is negative.
abbrev pub InRange : Call → Type 0
InRange (seek new_pos) = pos 0 ≤ℤ new_pos
InRange _ = Unit
