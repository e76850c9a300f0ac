-- ===== src/File/Tests.antt =====
-- Runs and instances of the theorems on open files: two files of inode 3, one of which denies writes.
use cs140_w.Prelude.{◌==◌, true, false, if◌then◌else◌, none, some, [], ◌∷◌}
use cs140_w.File.{File, Files}

abbrev denying : File
denying = record { inode = 3; pos = 8; deny_write = true }

abbrev plain : File
plain = record { inode = 3; pos = 0; deny_write = false }

abbrev files : Files
files = record {
  files = some denying ∷ none ∷ some plain ∷ [];
  inodes = λ n.
      if n == 3
      then record { open_cnt = 2; deny_write_cnt = 1; removed = false }
      else record { open_cnt = 0; deny_write_cnt = 0; removed = false };
}
