-- ===== src/FreeMap/Sectors.antt =====
-- Which sectors `free_map_allocate` and `free_map_release` take and give back.
use cs140_w.Prelude.{
  ℕ, ◌+◌, ◌≤◌, ◌-◌, ◌≡◌, ◌⊎◌, ap, refl, Bool, true, false, Option, none, some, arith, Bool-cases,
  inl, inr,
}
use cs140_w.Bitmap
use cs140_w.Bitmap.{Bitmap, bitmap_error}
use cs140_w.Bitmap.Valid.{Represents}
use cs140_w.Bitmap.Ranges.{fill, has, all-eq, set_multiple-Yields, Represents-ext}
use cs140_w.Bitmap.Scan.{
  IsGroup, NoGroup, Flipped, has-IsGroup, has-of_group, group_index, scan_and_flip-Flipped,
}
use cs140_w.FreeMap.{FreeMap, save, allocate, release}

-- Setting a group of clear bits and clearing them again gives the bits back.
pub fill-fill :
    (g : ℕ → Bool) (i cnt : ℕ)
    → IsGroup g i cnt false
    → (j : ℕ) → fill (fill g i cnt true) i cnt false j ≡ g j
fill-fill g i cnt group j = ground (arith, group j)

fill-IsGroup : (g : ℕ → Bool) (i cnt : ℕ) (v : Bool) → IsGroup (fill g i cnt v) i cnt v
fill-IsGroup g i cnt v j p q = ground arith

module _ {F : Type 0} (write : Bitmap → F → Bool × F) where
  -- Whether the map can be saved: the file is not open, or the write succeeds; the file afterwards.
  abbrev pub saves : Bitmap → Option F → Bool × Option F
  saves b none = (true, none)
  saves b (some f) = ((write b f).0, some (write b f).1)

  -- A call of `free_map_allocate` by its result. With a sector, the first `cnt` free sectors are
  -- taken, and that map is saved. Without, no sector is taken, and either there are no `cnt` free
  -- sectors in a row, and the file stays as it was, or the map with the first of these taken cannot be
  -- saved.
  abbrev pub Allocated : (ℕ → Bool) → ℕ → ℕ → Option F → Option ℕ → FreeMap F → Type 0
  Allocated g n cnt file (some sector) s' =
      (sector + cnt ≤ n)
      × IsGroup g sector cnt false
      × NoGroup g 0 sector cnt false
      × Represents s'.map n (fill g sector cnt true)
      × (saves s'.map file ≡ (true, s'.file))
  Allocated g n cnt file none s' =
      Represents s'.map n g
      × ((NoGroup g 0 (n + 1 - cnt) cnt false × (s'.file ≡ file))
          ⊎ ((sector : ℕ) × (taken : Bitmap) × (sector + cnt ≤ n)
              × NoGroup g 0 sector cnt false
              × Represents taken n (fill g sector cnt true)
              × (saves taken file ≡ (false, s'.file))))

module _ {F : Type 0} (write : Bitmap → F → Bool × F) {n : ℕ} {g : ℕ → Bool} where
  save-Allocated :
      (sector cnt : ℕ) (b : Bitmap) (file : Option F)
      → sector + cnt ≤ n
      → IsGroup g sector cnt false
      → NoGroup g 0 sector cnt false
      → Represents b n (fill g sector cnt true)
      → (out : Option ℕ) × (s' : FreeMap F) × (save write sector cnt b file ≡ some (out, s'))
        × Allocated write g n cnt file out s'
  save-Allocated sector cnt b none h group first r =
      (some sector, record { map = b; file = none }, refl, (h, group, first, r, refl))
  save-Allocated sector cnt b (some f) h group first r = elim (Bool-cases (write b f).0) [
    | inl done ↦ (
      some sector,
      record { map = b; file = some (write b f).1 },
      ground (arith, done),
      (h, group, first, r, ap (λ w. (w, some (write b f).1)) done),
    )
    | inr failed ↦
        let (b', e, r') = set_multiple-Yields r sector cnt false h in
        (
          none,
          record { map = b'; file = some (write b f).1 },
          ground (arith, failed, e),
          (
            Represents-ext (fill-fill g sector cnt group) r',
            inr (sector, b, h, first, r, ap (λ w. (w, some (write b f).1)) failed),
          ),
        )
  ]

  module _ (s : FreeMap F) (r : Represents s.map n g) where
    -- free_map_allocate on a map of n sectors always returns; with a sector, that is the first one
    -- that starts cnt consecutive free sectors, and exactly those become used, and the map file, if
    -- open, is written with success. Without one, no sector becomes used, and either no cnt free
    -- sectors are in a row and the file is not written, or the map with the first such sectors used
    -- could not be written to it.
    pub allocate-Allocated :
        (cnt : ℕ)
        → (out : Option ℕ) × (s' : FreeMap F) × (allocate write s cnt ≡ some (out, s'))
          × Allocated write g n cnt s.file out s'
    unfolding allocate
    allocate-Allocated cnt =
        let (idx, b', e, spec) = scan_and_flip-Flipped r 0 cnt false (omega arith) in
        finish idx b' e spec
      where
        finish :
            (idx : ℕ) (b' : Bitmap)
            → Bitmap.scan_and_flip s.map 0 cnt false ≡ some (idx, b')
            → Flipped r 0 cnt false idx b'
            → (out : Option ℕ) × (s' : FreeMap F) × (allocate write s cnt ≡ some (out, s'))
              × Allocated write g n cnt s.file out s'
        finish idx b' e (inl (p, q, group, first, r')) =
            let (out, s', saved, spec) = save-Allocated idx cnt b' s.file q group first r' in
            (out, s', ground (arith, e, saved, group_index r 0 cnt false idx q), spec)
        finish idx b' e (inr (error, absent, same)) =
            (none, record s { map = b' }, ground (arith, e), (rw same r, inl (absent, refl)))

    -- With the map file open, free_map_release of sectors that are all in use returns and makes
    -- exactly those free.
    pub release-frees :
        (sector cnt : ℕ) {f : F}
        → sector + cnt ≤ n
        → IsGroup g sector cnt true
        → s.file ≡ some f
        → (s' : FreeMap F) × (release write s sector cnt ≡ some s')
          × Represents s'.map n (fill g sector cnt false)
    unfolding release
    release-frees sector cnt {f} h used opened =
        let (b', e, r') = set_multiple-Yields r sector cnt false h in
        (
          record { map = b'; file = some (write b' f).1 },
          ground (arith, all-eq r sector cnt h, has-of_group g sector cnt true used, e, opened),
          r',
        )

    -- free_map_release of a range of sectors on the disk fails its ASSERT if one of them is not in
    -- use.
    pub release-unused :
        (sector cnt : ℕ)
        → sector + cnt ≤ n
        → ¬ IsGroup g sector cnt true
        → release write s sector cnt ≡ none
    unfolding release
    release-unused sector cnt h unused = elim (Bool-cases (has g sector cnt false)) [
      | inl mixed ↦ ground (arith, all-eq r sector cnt h)
      | inr clean ↦ absurd (unused (has-IsGroup g sector cnt true clean))
    ]
