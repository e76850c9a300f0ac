-- ===== src/Arrays.antt =====
-- pintos/src/lib/stdlib.c: binary search in an array, which is a function from places to elements. What
-- `compare` returns is a number. `none` is a loop that does not end within its fuel.
pub mod Search
mod Tests
use cs140_w.Prelude.{
  ℕ, zero, suc, ◌+◌, ◌-◌, ◌*◌, ◌/◌, ◌==◌, leb, ltb, Bool, true, false, ◌&&◌, if◌then◌else◌, Option,
  none, some, ◌>>=◌,
}
use cs140_w.Prelude.Int.{ℤ, pos, negsuc}

-- One of three, by what `compare` returns.
abbrev pub by_sign {ℓ} : {A : Type ℓ} → ℤ → A → A → A → A
by_sign (negsuc n) below equal above = below
by_sign (pos zero) below equal above = equal
by_sign (pos (suc n)) below equal above = above

-- The loop of `binary_search`: the place found, or none.
unfoldable pub search_loop {ℓ κ} :
    {A : Type ℓ} {K : Type κ} → ℕ → (K → A → ℤ) → K → (ℕ → A) → ℕ → ℕ → Option (Option ℕ)
search_loop zero compare key array first last = none
search_loop (suc fuel) compare key array first last =
    let middle = first + (last - first) / 2 in
    let below = search_loop fuel compare key array first middle in
    let above = search_loop fuel compare key array (middle + 1) last in
    let found = by_sign (compare key (array middle)) below (some (some middle)) above in
    if ltb first last then found else some none

unfoldable pub binary_search {ℓ κ} :
    {A : Type ℓ} {K : Type κ} → ℕ → K → (ℕ → A) → ℕ → (K → A → ℤ) → Option (Option ℕ)
binary_search fuel key array cnt compare = search_loop fuel compare key array 0 cnt
