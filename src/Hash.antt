-- ===== src/Hash.antt =====
-- pintos/src/lib/kernel/hash.c: tables with chained buckets. An element is the address of its
-- `hash_elem`, and the hash and less functions of a table, with `aux`, are parameters, as is whether
-- `malloc` finds room for new buckets. Buckets are lists from the front, by their index.
pub mod Words
pub mod View
pub mod Rehash
pub mod Operations
pub mod Iterate
mod Tests
use Prim.Native.Nat.{bit_and, bit_xor}
use cs140_w.Prelude.{
  ℕ, zero, suc, ◌+◌, ◌-◌, ◌*◌, ◌/◌, ◌%◌, ◌^◌, ◌==◌, ltb, Bool, true, false, not, ◌&&◌,
  if◌then◌else◌, Option, none, some, List, [], ◌∷◌, ◌++◌,
}
use cs140_w.KernelList.{list_remove}

-- `struct hash`, less its functions.
pub record Hash : Type 0 where
  pub elem_cnt : ℕ
  pub bucket_cnt : ℕ
  pub buckets : ℕ → List ℕ

abbrev pub put_bucket : (ℕ → List ℕ) → ℕ → List ℕ → ℕ → List ℕ
put_bucket f i l j = if i == j then l else f j

unfoldable pub turn_off_least_1bit : ℕ → ℕ
turn_off_least_1bit x = bit_and x (x - 1)

unfoldable pub is_power_of_2 : ℕ → Bool
is_power_of_2 x = not (x == 0) && turn_off_least_1bit x == 0

-- The loop of `rehash` that rounds the number of buckets down, on fuel.
unfoldable pub round_loop : ℕ → ℕ → Option ℕ
round_loop zero new_bucket_cnt = none
round_loop (suc fuel) new_bucket_cnt =
    let rest = round_loop fuel (turn_off_least_1bit new_bucket_cnt) in
    if is_power_of_2 new_bucket_cnt then some new_bucket_cnt else rest

-- The number that the loop starts with.
abbrev pub ideal_cnt : ℕ → ℕ
ideal_cnt elem_cnt = if ltb (elem_cnt / 2) 4 then 4 else elem_cnt / 2

-- `FNV_32_PRIME` and `FNV_32_BASIS`
abbrev pub fnv_32_prime : ℕ
fnv_32_prime = 16777619

abbrev pub fnv_32_basis : ℕ
fnv_32_basis = 2166136261

-- The loop of `hash_bytes`, and of `hash_string` up to its null byte.
pub bytes_loop : ℕ → List ℕ → ℕ
bytes_loop hash [] = hash
bytes_loop hash (byte ∷ rest) = bytes_loop (bit_xor (hash * fnv_32_prime % 2 ^ 32) byte) rest

unfoldable pub hash_bytes : List ℕ → ℕ
unfolding bytes_loop
hash_bytes buf = bytes_loop fnv_32_basis buf

-- `hash_int` on the bit pattern of its argument: four bytes, the lowest first.
unfoldable pub hash_int : ℕ → ℕ
hash_int i =
    hash_bytes ((i % 256) ∷ (i / 256 % 256) ∷ (i / 65536 % 256) ∷ (i / 16777216 % 256) ∷ [])

module _ (hash : ℕ → ℕ) (less : ℕ → ℕ → Bool) where
  abbrev pub slot : ℕ → ℕ → ℕ
  slot bucket_cnt e = bit_and (hash e) (bucket_cnt - 1)

  -- `find_bucket`
  abbrev pub find_bucket : Hash → ℕ → ℕ
  find_bucket h e = slot h.bucket_cnt e

  -- The test of `find_elem`.
  abbrev pub same : ℕ → ℕ → Bool
  same a b = not (less a b) && not (less b a)

  unfoldable pub find_elem : List ℕ → ℕ → Option ℕ
  find_elem [] e = none
  find_elem (hi ∷ rest) e = if same hi e then some hi else find_elem rest e

  abbrev pub insert_elem : Hash → ℕ → ℕ → Hash
  insert_elem h bucket e = record h {
    elem_cnt = (h.elem_cnt + 1) % 2 ^ 32;
    buckets = put_bucket h.buckets bucket (e ∷ h.buckets bucket);
  }

  -- The element is unlinked from the bucket that it is in.
  abbrev pub remove_elem : Hash → ℕ → Hash
  remove_elem h e = record h {
    elem_cnt = (h.elem_cnt + 2 ^ 32 - 1) % 2 ^ 32;
    buckets = λ i. list_remove e (h.buckets i);
  }

  -- The inner and the outer loop of `rehash` that move the elements to new buckets.
  unfoldable pub move_loop : ℕ → List ℕ → (ℕ → List ℕ) → ℕ → List ℕ
  move_loop bucket_cnt [] new = new
  move_loop bucket_cnt (e ∷ rest) new =
      move_loop bucket_cnt rest (put_bucket new (slot bucket_cnt e) (e ∷ new (slot bucket_cnt e)))

  unfoldable pub move_all : ℕ → ℕ → ℕ → (ℕ → List ℕ) → (ℕ → List ℕ) → ℕ → List ℕ
  move_all zero i bucket_cnt old new = new
  move_all (suc n) i bucket_cnt old new =
      move_all n (i + 1) bucket_cnt old (move_loop bucket_cnt (old i) new)

  abbrev pub install : Bool → Hash → ℕ → Hash
  install room h new_bucket_cnt =
      if new_bucket_cnt == h.bucket_cnt
      then h
      else (if room
          then record h {
            bucket_cnt = new_bucket_cnt;
            buckets = move_all h.bucket_cnt 0 new_bucket_cnt h.buckets (λ _. []);
          }
          else h)

  -- `none` if the rounding loop does not end within `fuel` rounds.
  unfoldable pub rehash : ℕ → Bool → Hash → Option Hash
  rehash fuel room h = elim (round_loop fuel (ideal_cnt h.elem_cnt)) [
    | none ↦ none
    | some new_bucket_cnt ↦ some (install room h new_bucket_cnt)
  ]

  abbrev pub fuel_for : Hash → ℕ
  fuel_for h = ideal_cnt h.elem_cnt

  -- The result of an operation that ends with a rehash.
  abbrev pub rehashed : Bool → Option ℕ → Hash → Option (Option ℕ × Hash)
  rehashed room old h = elim (rehash (fuel_for h) room h) [ none ↦ none | some h' ↦ some (old, h') ]

  unfoldable pub hash_find : Hash → ℕ → Option ℕ
  hash_find h e = find_elem (h.buckets (find_bucket h e)) e

  unfoldable pub hash_insert : Bool → Hash → ℕ → Option (Option ℕ × Hash)
  hash_insert room h new =
      let old = find_elem (h.buckets (find_bucket h new)) new in
      rehashed room old (elim old [ none ↦ insert_elem h (find_bucket h new) new | some _ ↦ h ])

  unfoldable pub hash_replace : Bool → Hash → ℕ → Option (Option ℕ × Hash)
  hash_replace room h new =
      let bucket = find_bucket h new in
      let old = find_elem (h.buckets bucket) new in
      rehashed room old (insert_elem (elim old [ none ↦ h | some e ↦ remove_elem h e ]) bucket new)

  unfoldable pub hash_delete : Bool → Hash → ℕ → Option (Option ℕ × Hash)
  hash_delete room h e =
      let found = find_elem (h.buckets (find_bucket h e)) e in
      elim found [ none ↦ some (none, h) | some x ↦ rehashed room (some x) (remove_elem h x) ]

-- The elements of `n` buckets from bucket `i` on, in the order in which `hash_clear` gives them to its
-- destructor and `hash_apply` to its action.
unfoldable pub elements_from : ℕ → ℕ → (ℕ → List ℕ) → List ℕ
elements_from zero i buckets = []
elements_from (suc n) i buckets = buckets i ++ elements_from n (i + 1) buckets

unfoldable pub hash_clear : Hash → List ℕ × Hash
hash_clear h =
    (elements_from h.bucket_cnt 0 h.buckets, record h { elem_cnt = 0; buckets = λ _. [] })

-- `hash_init`, where `malloc` finds room for the four buckets, or does not.
unfoldable pub hash_init : Bool → Option Hash
hash_init room =
    if room
    then some (hash_clear (record { elem_cnt = 0; bucket_cnt = 4; buckets = λ _. [] })).1
    else none

pub apply_loop : {A : Type 0} → (A → ℕ → A) → List ℕ → A → A
apply_loop action [] state = state
apply_loop action (e ∷ rest) state = apply_loop action rest (action state e)

unfoldable pub hash_apply : {A : Type 0} → (A → ℕ → A) → Hash → A → A
unfolding apply_loop
hash_apply action h state = apply_loop action (elements_from h.bucket_cnt 0 h.buckets) state

-- `struct hash_iterator`: the bucket, the elements behind the current one in it, and the current one.
pub record Iterator : Type 0 where
  pub bucket : ℕ
  pub rest : List ℕ
  pub elem : Option ℕ

unfoldable pub hash_first : Hash → Iterator
hash_first h = record { bucket = 0; rest = h.buckets 0; elem = none }

-- The loop of `hash_next`; `n` buckets stand behind the present one.
unfoldable pub next_loop : ℕ → Hash → ℕ → List ℕ → Iterator
next_loop n h bucket (e ∷ rest) = record { bucket = bucket; rest = rest; elem = some e }
next_loop zero h bucket [] = record { bucket = bucket + 1; rest = []; elem = none }
next_loop (suc n) h bucket [] = next_loop n h (bucket + 1) (h.buckets (bucket + 1))

unfoldable pub hash_next : Hash → Iterator → Iterator
hash_next h i = next_loop (h.bucket_cnt - 1 - i.bucket) h i.bucket i.rest
