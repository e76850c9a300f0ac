-- ===== src/Directory/Entries.antt =====
-- A directory as a map from names to sectors: what `dir_add` and `dir_remove` do to it.
use cs140_w.Prelude.{
  if_true, if_false, ℕ, suc, ◌+◌, ◌≤◌, ◌≡◌, refl, ap, sym, ◌∙◌, ◌⊎◌, inl, inr, Bool, true, false,
  ◌&&◌, if◌then◌else◌, Option, none, some, List, [], ◌∷◌, set, arith, Bool-cases,
}
use cs140_w.Directory.{DirEntry, name_eq, lookup_loop, free_slot, write_entry}
use cs140_w.Directory.Names.{name_eq_refl, name_eq_eq}

-- Whether an entry in use has the name.
abbrev pub named : DirEntry → List ℕ → Bool
named e name = e.in_use && name_eq name e.name

-- How many entries in use have the name.
abbrev pub uses : List DirEntry → List ℕ → ℕ
uses [] name = 0
uses (e ∷ es) name = let n = uses es name in if named e name then n + 1 else n

-- The sector under a name.
abbrev pub sector_of : List DirEntry → List ℕ → Option ℕ
sector_of [] name = none
sector_of (e ∷ es) name =
    let rest = sector_of es name in if named e name then some e.inode_sector else rest

-- No name stands twice in the directory.
abbrev pub IsDir : List DirEntry → Type 0
IsDir es = (name : List ℕ) → uses es name ≤ 1

-- The directory with the entry in the first free slot.
abbrev pub add : List DirEntry → DirEntry → List DirEntry
add [] e = e ∷ []
add (x ∷ es) e = let on = x ∷ add es e in if x.in_use then on else e ∷ es

-- The directory with the first entry under the name erased.
abbrev pub erase : List DirEntry → List ℕ → List DirEntry
erase [] name = []
erase (x ∷ es) name =
    let on = x ∷ erase es name in if named x name then record x { in_use = false } ∷ es else on

free_slot-shift : (es : List DirEntry) (k : ℕ) → free_slot es (k + 1) ≡ suc (free_slot es k)
unfolding free_slot
free_slot-shift [] k = omega arith
free_slot-shift (x ∷ es) k = ground (arith, free_slot-shift es (k + 1))

pub write_entry-free_slot :
    (es : List DirEntry) (e : DirEntry) → write_entry es (free_slot es 0) e ≡ add es e
unfolding free_slot
write_entry-free_slot [] e = refl
write_entry-free_slot (x ∷ es) e = elim (Bool-cases x.in_use) [
  | inl y ↦
      let at : free_slot (x ∷ es) 0 ≡ suc (free_slot es 0) =
        ground (arith, y, free_slot-shift es 0) in
      ap (λ n. write_entry (x ∷ es) n e) at
      ∙ ap (λ l. x ∷ l) (write_entry-free_slot es e)
      ∙ ground (arith, y)
  | inr y ↦
      let at : free_slot (x ∷ es) 0 ≡ 0 = ground (arith, y) in
      ap (λ n. write_entry (x ∷ es) n e) at ∙ ground (arith, y)
]

pub sector_of-add :
    (es : List DirEntry) (e : DirEntry) (q : List ℕ)
    → (named e q ≡ true → sector_of es q ≡ none)
    → sector_of (add es e) q ≡ (if named e q then some e.inode_sector else sector_of es q)
sector_of-add [] e q h = refl
sector_of-add (x ∷ es) e q h = elim (Bool-cases x.in_use) [
  | inl y ↦
      let on : add (x ∷ es) e ≡ x ∷ add es e = ground (arith, y) in
      ap (λ l. sector_of l q) on ∙ elim (Bool-cases (named x q)) [
        | inl z ↦ elim (Bool-cases (named e q)) [
          | inl n ↦
              let found : some x.inode_sector ≡ sector_of (x ∷ es) q = ground (arith, z) in
              let no : some x.inode_sector ≡ none = found ∙ h n in cc
          | inr n ↦ ground (arith, z, n)
        ]
        | inr z ↦
            let rest : sector_of es q ≡ sector_of (x ∷ es) q = ground (arith, z) in
            ground (arith, z, sector_of-add es e q (λ n. rest ∙ h n))
      ]
  | inr y ↦
      let on : add (x ∷ es) e ≡ e ∷ es = ground (arith, y) in
      ap (λ l. sector_of l q) on ∙ ground (arith, y)
]

pub uses-add :
    (es : List DirEntry) (e : DirEntry) (q : List ℕ)
    → uses (add es e) q ≡ (if named e q then uses es q + 1 else uses es q)
uses-add [] e q = ground arith
uses-add (x ∷ es) e q = ground (arith, uses-add es e q)

pub uses-absent : (es : List DirEntry) (q : List ℕ) → sector_of es q ≡ none → uses es q ≡ 0
uses-absent [] q h = refl
uses-absent (x ∷ es) q h = elim (Bool-cases (named x q)) [
  | inl y ↦
      let found : some x.inode_sector ≡ sector_of (x ∷ es) q = ground (arith, y) in
      let no : some x.inode_sector ≡ none = found ∙ h in cc
  | inr y ↦
      let rest : sector_of es q ≡ sector_of (x ∷ es) q = ground (arith, y) in
      ground (arith, y, uses-absent es q (rest ∙ h))
]

sector_of-absent : (es : List DirEntry) (q : List ℕ) → uses es q ≡ 0 → sector_of es q ≡ none
sector_of-absent [] q h = refl
sector_of-absent (x ∷ es) q h = elim (Bool-cases (named x q)) [
  | inl y ↦ ground (arith, y, h)
  | inr y ↦
      let rest : sector_of (x ∷ es) q ≡ sector_of es q = ground (arith, y) in
      rest ∙ sector_of-absent es q (ground (arith, y, h))
]

pub uses-erase : (es : List DirEntry) (name q : List ℕ) → uses (erase es name) q ≤ uses es q
uses-erase [] name q = omega arith
uses-erase (x ∷ es) name q = ground (arith, uses-erase es name q)

-- An entry has one name.
named_once :
    (x : DirEntry) (name q : List ℕ)
    → named x name ≡ true
    → name_eq q name ≡ false
    → named x q ≡ false
named_once x name q y n = elim (Bool-cases (named x q)) [
  | inl z ↦
      let this = name_eq_eq name x.name (ground (arith, y)) in
      let that = name_eq_eq q x.name (ground (arith, z)) in
      let same : name_eq q name ≡ true = ap (λ a. name_eq q a) (this ∙ sym that) ∙ name_eq_refl q in
      cc
  | inr z ↦ z
]

pub sector_of-erase :
    (es : List DirEntry) (name q : List ℕ)
    → uses es name ≤ 1
    → sector_of (erase es name) q ≡ (if name_eq q name then none else sector_of es q)
sector_of-erase [] name q h = ground arith
sector_of-erase (x ∷ es) name q h = elim (Bool-cases (named x name)) [
  | inl y ↦
      let gone : uses es name ≡ 0 = ground (arith, y, h) in
      elim (Bool-cases (name_eq q name)) [
        | inl e ↦
            let absent : sector_of es q ≡ none =
              ap (sector_of es) (name_eq_eq q name e) ∙ sector_of-absent es name gone in
            ground (arith, y, e, absent)
        | inr n ↦ ground (arith, y, n, named_once x name q y n)
      ]
  | inr y ↦
      let same : named x q ≡ true → name_eq q name ≡ false = λ z.
        elim (Bool-cases (name_eq q name)) [
          | inl e ↦ let same = ap (named x) (name_eq_eq q name e) in cc
          | inr n ↦ n
        ] in
      ground (arith, y, sector_of-erase es name q (ground (arith, y, h)))
]

-- What `lookup` finds, and where.
pub lookup-cases :
    (es : List DirEntry) (name : List ℕ) (k : ℕ)
    → ((lookup_loop es name k ≡ none) × (sector_of es name ≡ none))
      ⊎ ((e : DirEntry) × (i : ℕ) × (lookup_loop es name k ≡ some (e, k + i))
          × (sector_of es name ≡ some e.inode_sector)
          × (set es i (record e { in_use = false }) ≡ erase es name))
unfolding lookup_loop
lookup-cases [] name k = inl (refl, refl)
lookup-cases (x ∷ es) name k = elim (Bool-cases (named x name)) [
  | inl y ↦
      let here : k ≡ k + 0 = omega arith in
      inr (x, 0, if_true _ _ y ∙ ap (λ z. some (x, z)) here, if_true _ _ y, sym (if_true _ _ y))
  | inr y ↦ elim (lookup-cases es name (k + 1)) [
    | inl (n, a) ↦ inl (if_false _ _ y ∙ n, if_false _ _ y ∙ a)
    | inr (e, i, found, sector, erased) ↦
        let there : k + 1 + i ≡ k + suc i = omega arith in
        inr (
          e,
          suc i,
          if_false _ _ y ∙ found ∙ ap (λ z. some (e, z)) there,
          if_false _ _ y ∙ sector,
          ap (λ l. x ∷ l) erased ∙ sym (if_false _ _ y),
        )
  ]
]
