-- ===== src/Hash/Tests.antt =====
-- Runs and instances of the theorems on hash tables. An element's key is its last decimal digit.
use cs140_w.Prelude.{
  ℕ, ◌+◌, ◌%◌, ◌*◌, ◌≡◌, ◌==◌, ltb, Bool, true, if◌then◌else◌, none, some, [], ◌∷◌, length, arith,
}
use cs140_w.Hash.{
  Hash, same, find_elem, hash_find, hash_insert, hash_delete, elements_from, hash_first,
}
use cs140_w.Hash.View.{Laws, IsTable}
use cs140_w.Hash.Operations.{Gives, hash_insert-Gives, hash_delete-Gives}
use cs140_w.Hash.Iterate.{visit, visit-elements}

abbrev key_hash : ℕ → ℕ
key_hash e = e % 10 * 3

abbrev key_less : ℕ → ℕ → Bool
key_less a b = ltb (a % 10) (b % 10)

key-Laws : Laws key_hash key_less
key-Laws = record {
  order = record {
    irreflexive = λ a. ground arith;
    transitive = λ a b c p q. ground arith;
    cotransitive = λ a b c p q. ground arith;
  };
  respects = λ a b e. ground arith;
}

-- Keys 1, 2 and 5 in four buckets.
abbrev table : Hash
table = record {
  elem_cnt = 3;
  bucket_cnt = 4;
  buckets = λ i. if i == 3 then 25 ∷ 11 ∷ [] else if i == 2 then 12 ∷ [] else [];
}

table-IsTable : IsTable key_hash key_less 4 table.buckets
table-IsTable = record {
  some_buckets = omega arith;
  placed = λ i. ground arith;
  once = λ i e. ground arith;
}

hash_insert-Gives_example :
    Gives key_hash key_less
      (hash_insert key_hash key_less true table 42)
      (some 12)
      3
      (λ q. if same key_hash key_less 42 q then some 12 else hash_find key_hash key_less table q)
unfolding hash_find find_elem
hash_insert-Gives_example = hash_insert-Gives key_hash key_less key-Laws table table-IsTable true 42

hash_delete-Gives_example :
    Gives key_hash key_less
      (hash_delete key_hash key_less true table 42)
      (some 12)
      2
      (λ q. if same key_hash key_less 42 q then none else hash_find key_hash key_less table q)
unfolding hash_find find_elem
hash_delete-Gives_example = hash_delete-Gives key_hash key_less key-Laws table table-IsTable true 42

visit-elements_example :
    visit (length (elements_from 4 0 table.buckets) + 1) table (hash_first table)
    ≡ elements_from 4 0 table.buckets
visit-elements_example = visit-elements table (omega arith)
