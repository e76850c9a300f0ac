-- ===== src/Arrays/Search.antt =====
-- `binary_search` finds an element that compares equal, if there is one.
use cs140_w.Prelude.{
  ℕ, zero, suc, ◌+◌, ◌-◌, ◌/◌, ◌≤◌, ◌<◌, ◌≡◌, ◌≢◌, refl, sym, ◌∙◌, ltb, true, false, Option, none,
  some, arith, dec_lt, if_true, if_false,
}
use cs140_w.Prelude.Int.{ℤ, pos, negsuc}
use cs140_w.Arrays.{by_sign, search_loop, binary_search}

module _ {ℓ κ} {A : Type ℓ} {K : Type κ} (compare : K → A → ℤ) (key : K) (array : ℕ → A) where
  -- The elements greater than the key stand behind the others, and the smaller ones before them.
  abbrev pub Parted : ℕ → Type 0
  Parted cnt =
      (i j : ℕ)
      → i ≤ j
      → j < cnt
      → ((n : ℕ) → compare key (array i) ≡ negsuc n → (m : ℕ) × (compare key (array j) ≡ negsuc m))
        × ((n : ℕ)
            → compare key (array j) ≡ pos (suc n)
            → (m : ℕ) × (compare key (array i) ≡ pos (suc m)))

  -- A place with an equal element is the result, or there is none from `first` up to `last`.
  abbrev pub IsResult : ℕ → ℕ → Option ℕ → Type 0
  IsResult first last (some i) = (first ≤ i) × (i < last) × (compare key (array i) ≡ pos 0)
  IsResult first last none = (i : ℕ) → first ≤ i → i < last → compare key (array i) ≢ pos 0

  -- One round, by what `compare` returns for the element in the middle.
  by_sign-IsResult :
      (cnt first last middle : ℕ) (o : ℤ) (below above : Option (Option ℕ))
      → compare key (array middle) ≡ o
      → Parted cnt
      → last ≤ cnt
      → first ≤ middle
      → middle < last
      → ((r : Option ℕ) × (below ≡ some r) × IsResult first middle r)
      → ((r : Option ℕ) × (above ≡ some r) × IsResult (middle + 1) last r)
      → (r : Option ℕ) × (by_sign o below (some (some middle)) above ≡ some r)
        × IsResult first last r
  by_sign-IsResult cnt first last middle (pos zero) below above e s b p q lo hi =
      (some middle, refl, (p, q, e))
  by_sign-IsResult cnt first last middle (negsuc n) below above e s b p q (none, ran, is) hi = (
    none,
    ran,
    λ i g l h. elim (dec_lt i middle) [
      | yes before ↦ is i g before h
      | no behind ↦
          let (m, lower) = (s middle i (omega (arith, behind)) (omega (arith, l, b))).0 n e in
          let no_way : pos 0 ≡ negsuc m = sym h ∙ lower in cc
    ],
  )
  by_sign-IsResult cnt first last middle (negsuc n) below above e s b p q (some i, ran, is) hi =
      (some i, ran, (is.0, omega (arith, is.1, q), is.2))
  by_sign-IsResult cnt first last middle (pos (suc n)) below above e s b p q lo (none, ran, is) = (
    none,
    ran,
    λ i g l h. elim (dec_lt middle i) [
      | yes behind ↦ is i (omega (arith, behind)) l h
      | no before ↦
          let (m, higher) = (s i middle (omega (arith, before)) (omega (arith, q, b))).1 n e in
          let no_way : pos 0 ≡ pos (suc m) = sym h ∙ higher in cc
    ],
  )
  by_sign-IsResult cnt first last middle (pos (suc n)) below above e s b p q lo (some i, ran, is) =
      (some i, ran, (omega (arith, is.0, p), is.1, is.2))

  search_loop-IsResult :
      (cnt fuel first last : ℕ)
      → Parted cnt
      → last ≤ cnt
      → last - first < fuel
      → (r : Option ℕ) × (search_loop fuel compare key array first last ≡ some r)
        × IsResult first last r
  unfolding search_loop
  search_loop-IsResult cnt zero first last s b f = elim f [ ]
  search_loop-IsResult cnt (suc fuel) first last s b f = elim (dec_lt first last) [
    | no n ↦
        let over : ltb first last ≡ false = ground (arith, n) in
        (none, if_false _ _ over, λ i p q. absurd (n (omega (arith, p, q))))
    | yes l ↦
        let more : ltb first last ≡ true = ground (arith, l) in
        let middle = first + (last - first) / 2 in
        let (r, ran, is) =
          by_sign-IsResult cnt first last middle (compare key (array middle))
            (search_loop fuel compare key array first middle)
            (search_loop fuel compare key array (middle + 1) last) refl s b (omega arith)
            (omega (arith, l))
            (search_loop-IsResult cnt fuel first middle s (omega (arith, b, l))
              (omega (arith, f, l)))
            (search_loop-IsResult cnt fuel (middle + 1) last s b (omega (arith, f, l))) in
        (r, if_true _ _ more ∙ ran, is)
  ]

  -- If the elements greater than the key stand behind all others and those smaller than it before
  -- all others, binary_search returns the place of an element that compares equal, or nothing, and
  -- then no element does; its loop ends within one round more than there are elements.
  pub binary_search-IsResult :
      (cnt fuel : ℕ)
      → Parted cnt
      → cnt < fuel
      → (r : Option ℕ) × (binary_search fuel key array cnt compare ≡ some r) × IsResult 0 cnt r
  unfolding binary_search
  binary_search-IsResult cnt fuel s f =
      search_loop-IsResult cnt fuel 0 cnt s (omega arith) (omega (arith, f))
