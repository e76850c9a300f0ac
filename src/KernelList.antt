-- ===== src/KernelList.antt =====
-- pintos/src/lib/kernel/list.c as its callers see it: a list is the sequence of its elements from
-- `list_begin` to before `list_end`. An element is any value (the address of its `list_elem`), and
-- `none` is the tail. Links are not modelled here, only what each loop does to the sequence.
pub mod Extremes
pub mod Ordered
pub mod Removal
pub mod Links
mod Tests
use cs140_w.Prelude.{
  ℕ, ◌==◌, Bool, true, false, not, ◌&&◌, if◌then◌else◌, Option, none, some, List, [], ◌∷◌,
}

module _ {ℓ} {A : Type ℓ} (less : A → A → Bool) where
  -- The loop of `list_max`: `max` is the largest element so far.
  pub max_loop : A → List A → A
  max_loop max [] = max
  max_loop max (e ∷ es) = max_loop (if less max e then e else max) es

  unfoldable pub list_max : List A → Option A
  unfolding max_loop
  list_max [] = none
  list_max (e ∷ es) = some (max_loop e es)

  -- The loop of `list_min`.
  pub min_loop : A → List A → A
  min_loop min [] = min
  min_loop min (e ∷ es) = min_loop (if less e min then e else min) es

  unfoldable pub list_min : List A → Option A
  unfolding min_loop
  list_min [] = none
  list_min (e ∷ es) = some (min_loop e es)

  -- Before the first element that is greater.
  unfoldable pub list_insert_ordered : A → List A → List A
  list_insert_ordered a [] = a ∷ []
  list_insert_ordered a (e ∷ es) = if less a e then a ∷ e ∷ es else e ∷ list_insert_ordered a es

  -- The loop of `list_unique` behind the element `e`, with the elements that it drops.
  pub unique_loop : A → List A → List A × List A
  unique_loop e [] = (e ∷ [], [])
  unique_loop e (next ∷ es) =
      let (kept, dropped) = unique_loop e es in
      let (kept', dropped') = unique_loop next es in
      if not (less e next) && not (less next e)
      then (kept, next ∷ dropped)
      else (e ∷ kept', dropped')

  unfoldable pub list_unique : List A → List A × List A
  unfolding unique_loop
  list_unique [] = ([], [])
  list_unique (e ∷ es) = unique_loop e es

-- Elements named by numbers: `list_remove` takes an element out of the list that it is in.
unfoldable pub list_remove : ℕ → List ℕ → List ℕ
list_remove a [] = []
list_remove a (e ∷ es) = if a == e then es else e ∷ list_remove a es
