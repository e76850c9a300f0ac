-- ===== src/Directory/Updates.antt =====
-- `dir_add`, `dir_remove` and `dir_lookup` on the map from names to sectors.
use cs140_w.Prelude.{
  if_true, ℕ, ◌+◌, ◌≤◌, ◌<◌, ◌≡◌, ◌≢◌, ap, sym, ◌∙◌, ◌⊎◌, inl, inr, ◌==◌, ltb, Bool, true, false,
  ◌&&◌, ◌||◌, if◌then◌else◌, Option, none, some, List, length, take, set, arith, Bool-cases,
}
use mathlib.Core.Path.{subst}
use cs140_w.Directory.{
  DirEntry, Dir, name_eq, lookup_loop, dir_add, dir_remove, dir_lookup, free_slot, write_entry,
  name_max, add_entry, remove_entry, open_entry,
}
use cs140_w.Directory.Names.{name_eq_eq, take-short}
use cs140_w.Directory.Entries.{
  named, uses, sector_of, IsDir, add, erase, write_entry-free_slot, sector_of-add, uses-add,
  uses-absent, uses-erase, sector_of-erase, lookup-cases,
}

-- The map of `dir'` is that of `dir` but for the name, which has the sector if one is given.
abbrev pub Updated : Dir → List ℕ → Option ℕ → Dir → Type 0
Updated dir name sector dir' =
    (q : List ℕ)
    → sector_of dir'.entries q ≡ (if name_eq q name then sector else sector_of dir.entries q)

-- In a directory in which no name stands twice, adding a name of 1 to 14 characters that is not in
-- it succeeds if the entry can be written: the name then has the sector given, every other name the
-- one it had, and again no name stands twice.
pub dir_add-Updated :
    (dir : Dir) (name : List ℕ) (inode_sector : ℕ)
    → IsDir dir.entries
    → 0 < length name
    → length name ≤ name_max
    → sector_of dir.entries name ≡ none
    → (dir' : Dir) × (dir_add true dir name inode_sector ≡ (true, dir'))
      × IsDir dir'.entries
      × Updated dir name (some inode_sector) dir'
unfolding dir_add
dir_add-Updated dir name inode_sector once short long absent = (
  record dir { entries = write_entry dir.entries (free_slot dir.entries 0) e },
  ground (arith, short, long) ∙ ap (add_entry true dir name inode_sector) not_found,
  λ q. subst (λ es. uses es q ≤ 1) (sym placed) (few q),
  λ q.
      ap (λ es. sector_of es q) placed
      ∙ sector_of-add dir.entries e q (λ n. ap (sector_of dir.entries) (other q n) ∙ absent)
      ∙ ap (λ b. if b then some inode_sector else sector_of dir.entries q) (mine q),
)
  where
    e : DirEntry
    e = record { inode_sector = inode_sector; name = take name_max name; in_use = true }

    not_found : lookup_loop dir.entries name 0 ≡ none
    not_found = elim (lookup-cases dir.entries name 0) [
      | inl (n, a) ↦ n
      | inr (x, i, found, at, erased) ↦ let no : some x.inode_sector ≡ none = sym at ∙ absent in cc
    ]

    placed : write_entry dir.entries (free_slot dir.entries 0) e ≡ add dir.entries e
    placed = write_entry-free_slot dir.entries e

    whole : take name_max name ≡ name
    whole = take-short name_max name long

    mine : (q : List ℕ) → named e q ≡ name_eq q name
    mine q = ap (name_eq q) whole

    other : (q : List ℕ) → named e q ≡ true → q ≡ name
    other q n = name_eq_eq q name (sym (mine q) ∙ n)

    few : (q : List ℕ) → uses (add dir.entries e) q ≤ 1
    few q = elim (Bool-cases (named e q)) [
      | inl n ↦
          let none_yet : uses dir.entries q ≡ 0 =
            ap (uses dir.entries) (other q n) ∙ uses-absent dir.entries name absent in
          ground (arith, n, none_yet, uses-add dir.entries e q)
      | inr n ↦ ground (arith, n, once q, uses-add dir.entries e q)
    ]

-- `dir_add` refuses an empty name, one that is too long, and one that is in the directory.
pub dir_add-refused :
    (dir : Dir) (name : List ℕ) (inode_sector : ℕ) (writes : Bool)
    → (length name ≡ 0) ⊎ (name_max < length name) ⊎ (sector_of dir.entries name ≢ none)
    → dir_add writes dir name inode_sector ≡ (false, dir)
unfolding dir_add
dir_add-refused dir name inode_sector writes (inl h) = ground (arith, h)
dir_add-refused dir name inode_sector writes (inr (inl h)) = ground (arith, h)
dir_add-refused dir name inode_sector writes (inr (inr h)) =
    elim (lookup-cases dir.entries name 0) [
      | inl (n, a) ↦ absurd (h a)
      | inr (e, i, found, at, erased) ↦
          ap
            (λ r.
              if length name == 0 || ltb name_max (length name)
              then (false, dir)
              else add_entry writes dir name inode_sector r)
            found
          ∙ ground arith
    ]

-- In a directory in which no name stands twice, removing a name whose inode can be opened succeeds
-- if the entry can be written, and marks that inode as removed: the name is then absent, every
-- other name has the sector it had, and no name stands twice.
pub dir_remove-Updated :
    (opens : ℕ → Bool) (dir : Dir) (name : List ℕ) (sector : ℕ)
    → IsDir dir.entries
    → sector_of dir.entries name ≡ some sector
    → opens sector ≡ true
    → (dir' : Dir) × (dir_remove opens true dir name ≡ (true, some sector, dir'))
      × IsDir dir'.entries
      × Updated dir name none dir'
unfolding dir_remove
dir_remove-Updated opens dir name sector once present o = elim (lookup-cases dir.entries name 0) [
  | inl (n, a) ↦ let no : none ≡ some sector = sym a ∙ present in cc
  | inr (e, i, found, at, erased) ↦
      let both : some e.inode_sector ≡ some sector = sym at ∙ present in
      let same : e.inode_sector ≡ sector = cc in
      let may : (opens e.inode_sector && true) ≡ true =
        ap (λ z. opens z && true) same ∙ ground (arith, o) in
      let place : 0 + i ≡ i = omega arith in
      (
        record dir { entries = erase dir.entries name },
        ap (remove_entry opens true dir) (found ∙ ap (λ z. some (e, z)) place)
            ∙ if_true _ _ may
            ∙ ap
                (λ z. (
                  true,
                  some z,
                  record dir { entries = set dir.entries i (record e { in_use = false }) },
                ))
                same
            ∙ ap (λ l. (true, some sector, record dir { entries = l })) erased,
        λ q. omega (arith, once q, uses-erase dir.entries name q),
        λ q. sector_of-erase dir.entries name q (once name),
      )
]

-- `dir_lookup` finds the sector of a name whose inode can be opened.
pub dir_lookup-sector_of :
    (opens : ℕ → Bool) (dir : Dir) (name : List ℕ)
    → ((sector : ℕ) → sector_of dir.entries name ≡ some sector → opens sector ≡ true)
    → dir_lookup opens dir name ≡ sector_of dir.entries name
unfolding dir_lookup
dir_lookup-sector_of opens dir name may = elim (lookup-cases dir.entries name 0) [
  | inl (n, a) ↦ ap (open_entry opens) n ∙ sym a
  | inr (e, i, found, at, erased) ↦
      ap (open_entry opens) found ∙ if_true _ _ (may e.inode_sector at) ∙ sym at
]
