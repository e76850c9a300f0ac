-- ===== src/Arrays/Tests.antt =====
-- Runs and instances of the theorem on binary search, in the odd numbers.
use cs140_w.Prelude.{
  ℕ, ◌+◌, ◌*◌, ◌<◌, ◌≡◌, ltb, if◌then◌else◌, Option, some, arith, ◌==◌, dec_lt, ℕ_discrete, sym,
  ◌∙◌, suc,
}
use cs140_w.Prelude.Int.{ℤ, pos, negsuc}
use cs140_w.Arrays.{binary_search}
use cs140_w.Arrays.Search.{Parted, IsResult, binary_search-IsResult}

abbrev order : ℕ → ℕ → ℤ
order key element = if ltb key element then negsuc 0 else (if key == element then pos 0 else pos 1)

abbrev odds : ℕ → ℕ
odds i = 2 * i + 1

smaller : (k e n : ℕ) → order k e ≡ negsuc n → k < e
smaller k e n h = elim (dec_lt k e) [
  | yes l ↦ l
  | no ne ↦ elim (ℕ_discrete k e) [
    | yes eq ↦ let is : order k e ≡ pos 0 = ground (arith, ne, eq) in let no_way = sym is ∙ h in cc
    | no other ↦
        let is : order k e ≡ pos 1 = ground (arith, ne, other) in let no_way = sym is ∙ h in cc
  ]
]

greater : (k e n : ℕ) → order k e ≡ pos (suc n) → e < k
greater k e n h = elim (dec_lt e k) [
  | yes l ↦ l
  | no ne ↦ elim (ℕ_discrete k e) [
    | yes eq ↦ let is : order k e ≡ pos 0 = ground (arith, ne, eq) in let no_way = sym is ∙ h in cc
    | no other ↦
        let is : order k e ≡ negsuc 0 = ground (arith, ne, other) in let no_way = sym is ∙ h in cc
  ]
]

odds-Parted : Parted order 7 odds 10
odds-Parted i j l h = (
  λ n e. (0, ground (arith, smaller 7 (odds i) n e, l)),
  λ n e. (0, ground (arith, greater 7 (odds j) n e, l)),
)

binary_search-IsResult_example :
    (r : Option ℕ) × (binary_search 11 7 odds 10 order ≡ some r) × IsResult order 7 odds 0 10 r
binary_search-IsResult_example = binary_search-IsResult order 7 odds 10 11 odds-Parted (omega arith)
