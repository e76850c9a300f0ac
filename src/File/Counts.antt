-- ===== src/File/Counts.antt =====
-- How many open files an inode has, and how many of these deny writes.
use cs140_w.Prelude.{
  ℕ, zero, suc, ◌+◌, ◌≤◌, ◌<◌, ◌≡◌, ap, ◌==◌, false, ◌&&◌, if◌then◌else◌, Option, none, some, List,
  [], ◌∷◌, ◌++◌, set, arith,
}
use cs140_w.File.{File, file_at}

abbrev pub of_inode : ℕ → Option File → ℕ
of_inode n none = 0
of_inode n (some f) = if f.inode == n then 1 else 0

abbrev pub denies : ℕ → Option File → ℕ
denies n none = 0
denies n (some f) = if f.inode == n && f.deny_write then 1 else 0

-- The sum of a count over the files.
abbrev pub total : (Option File → ℕ) → List (Option File) → ℕ
total count [] = 0
total count (f ∷ fs) = count f + total count fs

pub total-set :
    (count : Option File → ℕ) (fs : List (Option File)) (i : ℕ) (f : File) (v : Option File)
    → file_at fs i ≡ some f
    → total count (set fs i v) + count (some f) ≡ total count fs + count v
total-set count [] i f v e = cc
total-set count (x ∷ fs) zero f v e = ground (arith, ap count e)
total-set count (x ∷ fs) (suc i) f v e = ground (arith, total-set count fs i f v e)

pub total-append :
    (count : Option File → ℕ) (fs : List (Option File)) (v : Option File)
    → total count (fs ++ v ∷ []) ≡ total count fs + count v
total-append count [] v = ground arith
total-append count (x ∷ fs) v = ground (arith, total-append count fs v)

pub denies-le : (n : ℕ) (f : Option File) → denies n f ≤ of_inode n f
denies-le n none = omega arith
denies-le n (some f) = ground arith

pub total-le : (n : ℕ) (fs : List (Option File)) → total (denies n) fs ≤ total (of_inode n) fs
total-le n [] = omega arith
total-le n (f ∷ fs) = ground (arith, total-le n fs, denies-le n f)

-- A file that does not deny writes is one more than those that do.
pub total-lt :
    (n : ℕ) (fs : List (Option File)) (i : ℕ) (f : File)
    → file_at fs i ≡ some f
    → f.inode ≡ n
    → f.deny_write ≡ false
    → total (denies n) fs < total (of_inode n) fs
total-lt n [] i f e h d = cc
total-lt n (x ∷ fs) zero f e h d =
    ground (arith, h, d, ap (denies n) e, ap (of_inode n) e, total-le n fs)
total-lt n (x ∷ fs) (suc i) f e h d = ground (arith, total-lt n fs i f e h d, denies-le n x)

pub total-pos :
    (count : Option File → ℕ) (fs : List (Option File)) (i : ℕ) (f : File)
    → file_at fs i ≡ some f
    → count (some f) ≤ total count fs
total-pos count [] i f e = cc
total-pos count (x ∷ fs) zero f e = ground (arith, ap count e)
total-pos count (x ∷ fs) (suc i) f e = ground (arith, total-pos count fs i f e)
