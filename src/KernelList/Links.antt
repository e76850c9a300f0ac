-- ===== src/KernelList/Links.antt =====
-- The links of pintos/src/lib/kernel/list.c. An element is its address, 0 the null pointer; memory has
-- the two links of every element. A list is the addresses of its head and tail. `none` is a failed
-- ASSERT, or a loop that does not end within its fuel.
pub mod Chains
pub mod Lists
pub mod Insertion
pub mod Unlink
pub mod Traverse
mod Tests
use cs140_w.Prelude.{
  ℕ, zero, suc, ◌+◌, ◌==◌, Bool, true, false, not, ◌&&◌, ◌||◌, if◌then◌else◌, Option, none, some,
  List, [], ◌∷◌, ◌>>=◌, ◌>>◌, assert,
}

-- `struct list_elem` at every address.
pub record Links : Type 0 where
  pub prev : ℕ → ℕ
  pub next : ℕ → ℕ

-- `struct list`
pub record ListEnds : Type 0 where
  pub head : ℕ
  pub tail : ℕ

abbrev pub update : (ℕ → ℕ) → ℕ → ℕ → ℕ → ℕ
update f a v x = if a == x then v else f x

abbrev pub set_prev : Links → ℕ → ℕ → Links
set_prev m e p = record m { prev = update m.prev e p }

abbrev pub set_next : Links → ℕ → ℕ → Links
set_next m e n = record m { next = update m.next e n }

abbrev pub is_head : Links → ℕ → Bool
is_head m e = not (e == 0) && m.prev e == 0 && not (m.next e == 0)

abbrev pub is_interior : Links → ℕ → Bool
is_interior m e = not (e == 0) && not (m.prev e == 0) && not (m.next e == 0)

abbrev pub is_tail : Links → ℕ → Bool
is_tail m e = not (e == 0) && not (m.prev e == 0) && m.next e == 0

unfoldable pub list_init : Links → ListEnds → Links
list_init m l =
    set_next (set_prev (set_next (set_prev m l.head 0) l.head l.tail) l.tail l.head) l.tail 0

abbrev pub list_begin : Links → ListEnds → ℕ
list_begin m l = m.next l.head

abbrev pub list_end : ListEnds → ℕ
list_end l = l.tail

unfoldable pub list_next : Links → ℕ → Option ℕ
list_next m e = assert (is_head m e || is_interior m e) >> some (m.next e)

unfoldable pub list_prev : Links → ℕ → Option ℕ
list_prev m e = assert (is_interior m e || is_tail m e) >> some (m.prev e)

unfoldable pub list_insert : Links → ℕ → ℕ → Option Links
list_insert m before elem =
    assert (is_interior m before || is_tail m before)
    >> (assert (not (elem == 0))
        >> (let m1 = set_prev m elem (m.prev before) in
            let m2 = set_next m1 elem before in
            let m3 = set_next m2 (m2.prev before) elem in some (set_prev m3 before elem)))

unfoldable pub list_splice : Links → ℕ → ℕ → ℕ → Option Links
list_splice m before first end_ =
    assert (is_interior m before || is_tail m before)
    >> (if first == end_
        then some m
        else (list_prev m end_ >>= λ last.
            assert (is_interior m first)
            >> (assert (is_interior m last)
                >> (let m1 = set_next m (m.prev first) (m.next last) in
                    let m2 = set_prev m1 (m1.next last) (m1.prev first) in
                    let m3 = set_prev m2 first (m2.prev before) in
                    let m4 = set_next m3 last before in
                    let m5 = set_next m4 (m4.prev before) first in
                    some (set_prev m5 before last)))))

unfoldable pub list_push_front : Links → ListEnds → ℕ → Option Links
list_push_front m l elem = list_insert m (list_begin m l) elem

unfoldable pub list_push_back : Links → ListEnds → ℕ → Option Links
list_push_back m l elem = list_insert m (list_end l) elem

-- The result is the element that followed.
unfoldable pub list_unlink : Links → ℕ → Option (ℕ × Links)
list_unlink m elem =
    assert (is_interior m elem)
    >> (let m1 = set_next m (m.prev elem) (m.next elem) in
        let m2 = set_prev m1 (m1.next elem) (m1.prev elem) in some (m2.next elem, m2))

abbrev pub list_empty : Links → ListEnds → Bool
list_empty m l = list_begin m l == list_end l

unfoldable pub list_front : Links → ListEnds → Option ℕ
list_front m l = assert (not (list_empty m l)) >> some (m.next l.head)

unfoldable pub list_back : Links → ListEnds → Option ℕ
list_back m l = assert (not (list_empty m l)) >> some (m.prev l.tail)

unfoldable pub list_pop_front : Links → ListEnds → Option (ℕ × Links)
list_pop_front m l = do front ← list_front m l; (after, m') ← list_unlink m front; some (front, m')

unfoldable pub list_pop_back : Links → ListEnds → Option (ℕ × Links)
list_pop_back m l = do back ← list_back m l; (after, m') ← list_unlink m back; some (back, m')

-- The loop of `list_size`.
unfoldable pub size_loop : ℕ → Links → ℕ → ℕ → ℕ → Option ℕ
size_loop zero m e end_ cnt = none
size_loop (suc fuel) m e end_ cnt =
    let rest = list_next m e >>= λ e'. size_loop fuel m e' end_ (cnt + 1) in
    if e == end_ then some cnt else rest

unfoldable pub list_size : ℕ → Links → ListEnds → Option ℕ
list_size fuel m l = size_loop fuel m (list_begin m l) (list_end l) 0
