-- ===== src/KernelList/Links/Tests.antt =====
-- Runs and instances of the theorems on linked lists: elements 10 and 11 between head 1 and tail 2.
use cs140_w.Prelude.{◌≡◌, ◌==◌, refl, if◌then◌else◌, some, [], ◌∷◌, arith}
use cs140_w.KernelList.Links.{Links, ListEnds, list_insert, list_unlink}
use cs140_w.KernelList.Links.Lists.{IsList, nodes, Outside}
use cs140_w.KernelList.Links.Insertion.{list_insert-IsList}
use cs140_w.KernelList.Links.Unlink.{list_unlink-IsList}

abbrev ends : ListEnds
ends = record { head = 1; tail = 2 }

abbrev blank : Links
blank = record { prev = λ a. 77; next = λ a. 77 }

abbrev two : Links
two = record {
  prev = λ a. if a == 10 then 1 else if a == 11 then 10 else if a == 2 then 11 else 0;
  next = λ a. if a == 1 then 10 else if a == 10 then 11 else if a == 11 then 2 else 0;
}

two-IsList : IsList two ends (10 ∷ 11 ∷ [])
two-IsList = record {
  chained = (refl, refl, (refl, refl, (refl, refl, tt)));
  distinct = λ a. ground arith;
  no_null = refl;
  top = refl;
  bottom = refl;
}

list_insert-IsList_example :
    (m' : Links) × (list_insert two 11 12 ≡ some m')
    × IsList m' ends (10 ∷ 12 ∷ 11 ∷ [])
    × Outside (12 ∷ nodes ends (10 ∷ 11 ∷ [])) two m'
list_insert-IsList_example =
    list_insert-IsList two ends (10 ∷ []) (11 ∷ []) 12 two-IsList (omega arith) refl

list_unlink-IsList_example :
    (m' : Links) × (list_unlink two 10 ≡ some (11, m'))
    × IsList m' ends (11 ∷ [])
    × Outside (nodes ends (10 ∷ 11 ∷ [])) two m'
list_unlink-IsList_example = list_unlink-IsList two ends [] (11 ∷ []) 10 two-IsList
