-- ===== src/Directory/Tests.antt =====
-- Runs and instances of the theorems on directories: "a" and an erased entry, after "." and "..".
use cs140_w.Prelude.{ℕ, ◌≡◌, refl, Bool, true, false, none, some, List, [], ◌∷◌, arith}
use cs140_w.Directory.{DirEntry, Dir, dir_add, dir_remove, dot, dot_dot}
use cs140_w.Directory.Entries.{IsDir}
use cs140_w.Directory.Updates.{Updated, dir_add-Updated, dir_remove-Updated}
use cs140_w.Directory.Reading.{read_all, read_all-listing}

abbrev entry : ℕ → List ℕ → Bool → DirEntry
entry sector name in_use = record { inode_sector = sector; name = name; in_use = in_use }

abbrev sample : Dir
sample = record {
  entries =
      entry 7 dot true
      ∷ entry 1 dot_dot true
      ∷ entry 8 (98 ∷ []) false
      ∷ entry 9 (97 ∷ []) true
      ∷ [];
  pos = 0;
}

sample-IsDir : IsDir sample.entries
sample-IsDir [] = omega arith
sample-IsDir (c ∷ []) = ground arith
sample-IsDir (c ∷ d ∷ []) = ground arith
sample-IsDir (c ∷ d ∷ e ∷ l) = ground arith

dir_add-Updated_example :
    (dir' : Dir) × (dir_add true sample (99 ∷ []) 20 ≡ (true, dir'))
    × IsDir dir'.entries
    × Updated sample (99 ∷ []) (some 20) dir'
dir_add-Updated_example =
    dir_add-Updated sample (99 ∷ []) 20 sample-IsDir (omega arith) (omega arith) refl

dir_remove-Updated_example :
    (dir' : Dir) × (dir_remove (λ _. true) true sample (97 ∷ []) ≡ (true, some 9, dir'))
    × IsDir dir'.entries
    × Updated sample (97 ∷ []) none dir'
dir_remove-Updated_example =
    dir_remove-Updated (λ _. true) sample (97 ∷ []) 9 sample-IsDir refl refl

read_all-listing_example : read_all 9 sample ≡ some ((97 ∷ []) ∷ [])
read_all-listing_example = read_all-listing 9 sample (omega arith)
