-- ===== src/Directory/Reading.antt =====
-- `dir_readdir`, called until it finds no more entries, reads every name once.
use cs140_w.Prelude.{
  if_true, if_false, ℕ, zero, suc, ◌+◌, ◌-◌, ◌<◌, ◌≡◌, refl, ap, sym, ◌∙◌, ◌⊎◌, inl, inr, Bool, not,
  ◌&&◌, if◌then◌else◌, Option, none, some, List, [], ◌∷◌, length, length-drop, take, drop, ◌>>=◌,
  arith, Bool-cases,
}
use cs140_w.Directory.{DirEntry, Dir, name_eq, name_max, dot, dot_dot, readdir_loop, dir_readdir}

abbrev listed : DirEntry → Bool
listed e = e.in_use && (not (name_eq e.name dot) && not (name_eq e.name dot_dot))

-- The names of the entries in use, in order, but for "." and "..".
abbrev pub listing : List DirEntry → List (List ℕ)
listing [] = []
listing (e ∷ es) = let rest = listing es in if listed e then take name_max e.name ∷ rest else rest

-- The name before the names that are read after it; no name is the end.
abbrev pub keep : Option (List ℕ) → Option (List (List ℕ)) → Option (List (List ℕ))
keep none later = some []
keep (some name) later = later >>= λ names. some (name ∷ names)

-- Calls of `dir_readdir` until there is no name.
abbrev pub read_all : ℕ → Dir → Option (List (List ℕ))
read_all zero dir = none
read_all (suc fuel) dir = keep (dir_readdir dir).0 (read_all fuel (dir_readdir dir).1)

readdir-cases :
    (es : List DirEntry) (pos : ℕ)
    → ((p : ℕ) × (readdir_loop es pos ≡ (none, p)) × (listing es ≡ []))
      ⊎ ((n : List ℕ) × (i : ℕ) × (readdir_loop es pos ≡ (some n, pos + suc i))
          × (listing es ≡ n ∷ listing (drop (suc i) es))
          × (i < length es))
unfolding readdir_loop
readdir-cases [] pos = inl (pos, refl, refl)
readdir-cases (e ∷ es) pos = elim (Bool-cases (listed e)) [
  | inl y ↦ inr (take name_max e.name, 0, if_true _ _ y, if_true _ _ y, omega arith)
  | inr y ↦ elim (readdir-cases es (pos + 1)) [
    | inl (p, ran, empty) ↦ inl (p, if_false _ _ y ∙ ran, if_false _ _ y ∙ empty)
    | inr (n, i, ran, next, l) ↦
        let at : pos + 1 + suc i ≡ pos + suc (suc i) = omega arith in
        inr (
          n,
          suc i,
          if_false _ _ y ∙ ran ∙ ap (λ z. (some n, z)) at,
          if_false _ _ y ∙ next,
          omega (arith, l),
        )
  ]
]

drop-nil : (n : ℕ) → drop {A = DirEntry} n [] ≡ []
drop-nil zero = refl
drop-nil (suc n) = refl

drop-drop : (i j : ℕ) (es : List DirEntry) → drop (j + i) es ≡ drop i (drop j es)
drop-drop i zero es = let same : 0 + i ≡ i = omega arith in ap (λ k. drop k es) same
drop-drop i (suc j) [] = drop-nil (suc j + i) ∙ sym (drop-nil i)
drop-drop i (suc j) (e ∷ es) =
    let same : suc j + i ≡ suc (j + i) = omega arith in
    ap (λ k. drop k (e ∷ es)) same ∙ drop-drop i j es

-- dir_readdir, called until it finds nothing, gives from the present place on the names of the
-- entries in use but "." and "..", each as often as it stands there and in order, within one call
-- more than there are entries.
pub read_all-listing :
    (fuel : ℕ) (dir : Dir)
    → length (drop dir.pos dir.entries) < fuel
    → read_all fuel dir ≡ some (listing (drop dir.pos dir.entries))
unfolding dir_readdir
read_all-listing zero dir l = elim l [ ]
read_all-listing (suc fuel) dir l = elim (readdir-cases (drop dir.pos dir.entries) dir.pos) [
  | inl (p, ran, empty) ↦
      ap (λ r. keep r.0 (read_all fuel (record dir { pos = r.1 }))) ran ∙ ap some (sym empty)
  | inr (n, i, ran, next, short) ↦
      let shift = drop-drop (suc i) dir.pos dir.entries in
      let size : length (drop (dir.pos + suc i) dir.entries)
          ≡ length (drop dir.pos dir.entries) - suc i =
        ap length shift ∙ length-drop (suc i) (drop dir.pos dir.entries) in
      let later =
        read_all-listing fuel (record dir { pos = dir.pos + suc i })
          (omega (arith, size, short, l)) in
      ap (λ r. keep r.0 (read_all fuel (record dir { pos = r.1 }))) ran
      ∙ ap (keep (some n)) (later ∙ ap (λ es. some (listing es)) shift)
      ∙ ap some (sym next)
]
