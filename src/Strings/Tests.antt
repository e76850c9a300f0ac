-- ===== src/Strings/Tests.antt =====
-- Runs and instances of the theorems on strings.
use cs140_w.Prelude.{
  ℕ, ◌≤◌, ◌<◌, ◌≡◌, refl, ◌⊎◌, inl, ◌==◌, if◌then◌else◌, ltb, some, [], ◌∷◌, arith,
}
use cs140_w.Strings.{Memory, memmove, strlcat, strtok_r}
use cs140_w.Strings.Blocks.{Copied, memmove-Copied}
use cs140_w.Strings.View.{Holds}
use cs140_w.Strings.Copy.{Spared, strlcat-Holds}
use cs140_w.Strings.Tokens.{IsToken, skip, strtok_r-IsToken}

-- "ab" at 10, "cde" at 20, "  x y" at 30, " " at 40.
abbrev memory : Memory
memory = λ a.
    if a == 10
    then 97
    else if a == 11
    then 98
    else if a == 20
    then 99
    else if a == 21
    then 100
    else if a == 22
    then 101
    else if a == 30
    then 32
    else if a == 31
    then 32
    else if a == 32
    then 120
    else if a == 33
    then 32
    else if a == 34
    then 121
    else if a == 40
    then 32
    else 0

-- The blocks overlap.
memmove-Copied_example :
    (m' : Memory) × (memmove memory 21 20 3 ≡ some ((if ltb 21 20 then 24 else 21), m'))
    × Copied memory 21 20 3 m'
memmove-Copied_example = memmove-Copied memory 21 20 3 (omega arith) (omega arith)

cde : Holds memory 20 (99 ∷ 100 ∷ 101 ∷ [])
cde = (refl, omega arith, (refl, omega arith, (refl, omega arith, refl)))

ab : Holds memory 10 (97 ∷ 98 ∷ [])
ab = (refl, omega arith, (refl, omega arith, refl))

xy : Holds memory 30 (32 ∷ 32 ∷ 120 ∷ 32 ∷ 121 ∷ [])
xy = (
  refl,
  omega arith,
  (refl, omega arith, (refl, omega arith, (refl, omega arith, (refl, omega arith, refl)))),
)

strlcat-Holds_example :
    (m' : Memory) × (strlcat 9 memory 10 20 5 ≡ some (5, m'))
    × Holds m' 10 (97 ∷ 98 ∷ 99 ∷ 100 ∷ [])
    × Spared memory 10 5 m'
strlcat-Holds_example =
    strlcat-Holds 9 memory 10 20 5 (97 ∷ 98 ∷ []) (99 ∷ 100 ∷ 101 ∷ []) (omega arith) (omega arith)
      ab cde (omega arith) (omega arith) (omega arith) (inl (omega arith))

strtok_r-IsToken_example :
    (token : ℕ) × (save' : ℕ) × (m' : Memory) × (strtok_r 9 memory 30 40 0
      ≡ some (token, save', m'))
    × IsToken (32 ∷ []) (skip (32 ∷ []) (32 ∷ 32 ∷ 120 ∷ 32 ∷ 121 ∷ [])) token save' m'
    × ((a : ℕ) → (a < 30) ⊎ (35 ≤ a) → m' a ≡ memory a)
strtok_r-IsToken_example =
    strtok_r-IsToken 9 memory 30 40 0 (32 ∷ 32 ∷ 120 ∷ 32 ∷ 121 ∷ []) (32 ∷ []) (omega arith)
      (omega arith) (refl, omega arith, refl) xy (omega arith) (omega arith)
