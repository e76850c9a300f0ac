-- ===== src/Directory.antt =====
-- pintos/src/filesys/directory.c: the entries of a directory. The file of a directory is a list of
-- whole entries, and offsets count entries. A name is its characters without the null byte. Whether
-- `inode_write_at` writes a whole entry and whether `inode_open` finds an inode are parameters.
pub mod Names
pub mod Entries
pub mod Updates
pub mod Reading
mod Tests
use cs140_w.Prelude.{
  ℕ, zero, suc, ◌+◌, ◌==◌, ltb, Bool, true, false, not, ◌&&◌, ◌||◌, if◌then◌else◌, Option, none,
  some, List, [], ◌∷◌, ◌++◌, length, take, set, drop,
}

-- `struct dir_entry`
pub record DirEntry : Type 0 where
  pub inode_sector : ℕ
  pub name : List ℕ
  pub in_use : Bool

-- `struct dir`: the entries in its file and the place of the next entry to be read.
pub record Dir : Type 0 where
  pub entries : List DirEntry
  pub pos : ℕ

abbrev pub name_max : ℕ
name_max = 14

-- `!strcmp (a, b)`
abbrev pub name_eq : List ℕ → List ℕ → Bool
name_eq [] [] = true
name_eq [] (d ∷ b) = false
name_eq (c ∷ a) [] = false
name_eq (c ∷ a) (d ∷ b) = c == d && name_eq a b

-- The loop of `lookup` from the entry at `ofs` on: the entry and its offset.
unfoldable pub lookup_loop : List DirEntry → List ℕ → ℕ → Option (DirEntry × ℕ)
lookup_loop [] name ofs = none
lookup_loop (e ∷ rest) name ofs =
    let on = lookup_loop rest name (ofs + 1) in
    if e.in_use && name_eq name e.name then some (e, ofs) else on

abbrev pub lookup : List DirEntry → List ℕ → Option (DirEntry × ℕ)
lookup entries name = lookup_loop entries name 0

-- `dir_lookup` from what `lookup` finds on.
abbrev pub open_entry : (ℕ → Bool) → Option (DirEntry × ℕ) → Option ℕ
open_entry opens none = none
open_entry opens (some (e, ofs)) = if opens e.inode_sector then some e.inode_sector else none

-- The sector of the inode; `opens` says of a sector whether `inode_open` gives an inode.
unfoldable pub dir_lookup : (ℕ → Bool) → Dir → List ℕ → Option ℕ
dir_lookup opens dir name = open_entry opens (lookup dir.entries name)

-- The loop of `dir_add` over slots in use.
unfoldable pub free_slot : List DirEntry → ℕ → ℕ
free_slot [] ofs = ofs
free_slot (e ∷ rest) ofs = let on = free_slot rest (ofs + 1) in if e.in_use then on else ofs

-- `inode_write_at` of an entry, at the end of the file or before it.
abbrev pub write_entry : List DirEntry → ℕ → DirEntry → List DirEntry
write_entry [] ofs e = e ∷ []
write_entry (x ∷ rest) zero e = e ∷ rest
write_entry (x ∷ rest) (suc ofs) e = x ∷ write_entry rest ofs e

-- `dir_add` from what `lookup` finds on.
abbrev pub add_entry : Bool → Dir → List ℕ → ℕ → Option (DirEntry × ℕ) → Bool × Dir
add_entry writes dir name inode_sector (some found) = (false, dir)
add_entry writes dir name inode_sector none =
    let e : DirEntry = record {
      inode_sector = inode_sector;
      name = take name_max name;
      in_use = true;
    } in
    let added = record dir { entries = write_entry dir.entries (free_slot dir.entries 0) e } in
    if writes then (true, added) else (false, dir)

unfoldable pub dir_add : Bool → Dir → List ℕ → ℕ → Bool × Dir
dir_add writes dir name inode_sector =
    if length name == 0 || ltb name_max (length name)
    then (false, dir)
    else add_entry writes dir name inode_sector (lookup dir.entries name)

-- `dir_remove` from what `lookup` finds on.
abbrev pub remove_entry : (ℕ → Bool) → Bool → Dir → Option (DirEntry × ℕ) → Bool × Option ℕ × Dir
remove_entry opens writes dir none = (false, none, dir)
remove_entry opens writes dir (some (e, ofs)) =
    let erased = record dir { entries = set dir.entries ofs (record e { in_use = false }) } in
    if opens e.inode_sector && writes
    then (true, some e.inode_sector, erased)
    else (false, none, dir)

-- With the sector of the inode that is marked as removed, if any.
unfoldable pub dir_remove : (ℕ → Bool) → Bool → Dir → List ℕ → Bool × Option ℕ × Dir
dir_remove opens writes dir name = remove_entry opens writes dir (lookup dir.entries name)

-- "."
abbrev pub dot : List ℕ
dot = 46 ∷ []

-- ".."
abbrev pub dot_dot : List ℕ
dot_dot = 46 ∷ 46 ∷ []

-- The loop of `dir_readdir` from the entries at `pos` on: the name, and the next place.
unfoldable pub readdir_loop : List DirEntry → ℕ → Option (List ℕ) × ℕ
readdir_loop [] pos = (none, pos)
readdir_loop (e ∷ rest) pos =
    let on = readdir_loop rest (pos + 1) in
    if e.in_use && (not (name_eq e.name dot) && not (name_eq e.name dot_dot))
    then (some (take name_max e.name), pos + 1)
    else on

unfoldable pub dir_readdir : Dir → Option (List ℕ) × Dir
dir_readdir dir =
    let r = readdir_loop (drop dir.pos dir.entries) dir.pos in (r.0, record dir { pos = r.1 })

-- The entries that `dir_create` adds to a new directory of free slots.
unfoldable pub dir_create : Bool → ℕ → ℕ → List DirEntry → Bool × Dir
dir_create writes sector parent_sector slots =
    let dir : Dir = record { entries = slots; pos = 0 } in
    let self = dir_add writes dir dot sector in
    let parent = dir_add writes self.1 dot_dot parent_sector in (true, parent.1)
