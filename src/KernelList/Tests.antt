-- ===== src/KernelList/Tests.antt =====
-- Runs and instances of the theorems on lists, with numbers in their usual order.
use cs140_w.Prelude.{ℕ, ◌≡◌, refl, some, List, [], ◌∷◌, ltb}
use cs140_w.KernelList.{list_min, list_unique, list_remove}

abbrev mixed : List ℕ
mixed = 3 ∷ 5 ∷ 1 ∷ 5 ∷ []

min_of_mixed : list_min ltb mixed ≡ some 1
unfolding list_min
min_of_mixed = refl

unique_once : list_unique ltb (1 ∷ 1 ∷ 2 ∷ 1 ∷ []) ≡ (1 ∷ 2 ∷ 1 ∷ [], 1 ∷ [])
unfolding list_unique
unique_once = refl

remove_first : list_remove 5 mixed ≡ 3 ∷ 1 ∷ 5 ∷ []
unfolding list_remove
remove_first = refl
