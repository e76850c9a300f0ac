-- ===== src/Strings.antt =====
-- pintos/src/lib/string.c. Memory is a function from addresses to bytes, and 0 the null pointer. A
-- character is its byte, and its conversion to an int and back leaves it. `none` is a failed ASSERT, or
-- a loop over a string that does not end within its fuel.
pub mod Blocks
pub mod View
pub mod Copy
pub mod Tokens
mod Tests
use cs140_w.Prelude.{
  ℕ, zero, suc, ◌+◌, ◌-◌, ◌==◌, ltb, leb, Bool, true, false, not, ◌&&◌, ◌||◌, if◌then◌else◌, Option,
  none, some, ◌>>=◌, ◌>>◌, assert,
}
use cs140_w.Prelude.Int.{ℤ, pos, negsuc}

abbrev pub Memory : Type 0
Memory = ℕ → ℕ

abbrev pub store : Memory → ℕ → ℕ → Memory
store m p c q = if q == p then c else m q

-- `ASSERT (p != NULL || size == 0)`
abbrev pub assert_block : ℕ → ℕ → Option (Unit {0})
assert_block p size = assert (not (p == 0) || size == 0)

-- The loop of `memcpy`, and of `memmove` where `dst < src`.
unfoldable pub copy_up : ℕ → Memory → ℕ → ℕ → Memory
copy_up zero m dst src = m
copy_up (suc size) m dst src = copy_up size (store m dst (m src)) (dst + 1) (src + 1)

-- The loop of `memmove` otherwise.
unfoldable pub copy_down : ℕ → Memory → ℕ → ℕ → Memory
copy_down zero m dst src = m
copy_down (suc size) m dst src =
    copy_down size (store m (dst - 1) (m (src - 1))) (dst - 1) (src - 1)

unfoldable pub memcpy : Memory → ℕ → ℕ → ℕ → Option (ℕ × Memory)
memcpy m dst src size =
    assert_block dst size >> (assert_block src size >> some (dst, copy_up size m dst src))

-- `dst` has moved to the end of the block where the loop goes up.
unfoldable pub memmove : Memory → ℕ → ℕ → ℕ → Option (ℕ × Memory)
memmove m dst src size =
    assert_block dst size
    >> (assert_block src size
        >> some (
            if ltb dst src
            then (dst + size, copy_up size m dst src)
            else (dst, copy_down size m (dst + size) (src + size))))

unfoldable pub memset_loop : ℕ → Memory → ℕ → ℕ → Memory
memset_loop zero m dst value = m
memset_loop (suc size) m dst value = memset_loop size (store m dst value) (dst + 1) value

unfoldable pub memset : Memory → ℕ → ℕ → ℕ → Option (ℕ × Memory)
memset m dst value size = assert_block dst size >> some (dst, memset_loop size m dst value)

unfoldable pub memcmp_loop : ℕ → Memory → ℕ → ℕ → ℤ
memcmp_loop zero m a b = pos 0
memcmp_loop (suc size) m a b =
    let rest = memcmp_loop size m (a + 1) (b + 1) in
    if m a == m b then rest else (if ltb (m b) (m a) then pos 1 else negsuc 0)

unfoldable pub memcmp : Memory → ℕ → ℕ → ℕ → Option ℤ
memcmp m a b size = assert_block a size >> (assert_block b size >> some (memcmp_loop size m a b))

unfoldable pub strcmp_loop : ℕ → Memory → ℕ → ℕ → Option ℤ
strcmp_loop zero m a b = none
strcmp_loop (suc fuel) m a b =
    let rest = strcmp_loop fuel m (a + 1) (b + 1) in
    if not (m a == 0) && m a == m b
    then rest
    else some (if ltb (m a) (m b) then negsuc 0 else (if ltb (m b) (m a) then pos 1 else pos 0))

unfoldable pub strcmp : ℕ → Memory → ℕ → ℕ → Option ℤ
strcmp fuel m a b = assert (not (a == 0)) >> (assert (not (b == 0)) >> strcmp_loop fuel m a b)

unfoldable pub memchr_loop : ℕ → Memory → ℕ → ℕ → ℕ
memchr_loop zero m block ch = 0
memchr_loop (suc size) m block ch =
    let rest = memchr_loop size m (block + 1) ch in if m block == ch then block else rest

unfoldable pub memchr : Memory → ℕ → ℕ → ℕ → Option ℕ
memchr m block ch size = assert_block block size >> some (memchr_loop size m block ch)

unfoldable pub strchr_loop : ℕ → Memory → ℕ → ℕ → Option ℕ
strchr_loop zero m string c = none
strchr_loop (suc fuel) m string c =
    let rest = strchr_loop fuel m (string + 1) c in
    if m string == c then some string else (if m string == 0 then some 0 else rest)

unfoldable pub strchr : ℕ → Memory → ℕ → ℕ → Option ℕ
strchr fuel m string c = assert (not (string == 0)) >> strchr_loop fuel m string c

-- The end of the string.
unfoldable pub strlen_loop : ℕ → Memory → ℕ → Option ℕ
strlen_loop zero m p = none
strlen_loop (suc fuel) m p =
    let rest = strlen_loop fuel m (p + 1) in if m p == 0 then some p else rest

unfoldable pub strlen : ℕ → Memory → ℕ → Option ℕ
strlen fuel m string =
    assert (not (string == 0)) >> (strlen_loop fuel m string >>= λ p. some (p - string))

-- The loops of `strspn` and `strcspn`: on while `strchr` finds the character, or while it does not.
unfoldable pub span_loop : Bool → ℕ → ℕ → Memory → ℕ → ℕ → ℕ → Option ℕ
span_loop found zero inner m string set length = none
span_loop found (suc fuel) inner m string set length =
    let rest = span_loop found fuel inner m string set (length + 1) in
    let c = m (string + length) in
    if c == 0
    then some length
    else (strchr inner m set c >>= λ r.
        if r == 0
        then (if found then some length else rest)
        else (if found then rest else some length))

abbrev pub strspn : ℕ → Memory → ℕ → ℕ → Option ℕ
strspn fuel m string skip = span_loop true fuel fuel m string skip 0

abbrev pub strcspn : ℕ → Memory → ℕ → ℕ → Option ℕ
strcspn fuel m string stop = span_loop false fuel fuel m string stop 0

unfoldable pub strpbrk : ℕ → ℕ → Memory → ℕ → ℕ → Option ℕ
strpbrk zero inner m string stop = none
strpbrk (suc fuel) inner m string stop =
    let rest = strpbrk fuel inner m (string + 1) stop in
    if m string == 0
    then some 0
    else (strchr inner m stop (m string) >>= λ r. if r == 0 then rest else some string)

unfoldable pub strrchr_loop : ℕ → Memory → ℕ → ℕ → ℕ → Option ℕ
strrchr_loop zero m string c p = none
strrchr_loop (suc fuel) m string c p =
    let rest = strrchr_loop fuel m (string + 1) c (if m string == c then string else p) in
    if m string == 0 then some p else rest

abbrev pub strrchr : ℕ → Memory → ℕ → ℕ → Option ℕ
strrchr fuel m string c = strrchr_loop fuel m string c 0

-- The loop of `strstr`, `n` rounds from place `p` of the haystack on.
unfoldable pub strstr_loop : ℕ → Memory → ℕ → ℕ → ℕ → Option ℕ
strstr_loop zero m p needle needle_len = some 0
strstr_loop (suc n) m p needle needle_len =
    let rest = strstr_loop n m (p + 1) needle needle_len in
    memcmp m p needle needle_len >>= λ order. elim order [
      | pos k ↦ if k == 0 then some p else rest
      | negsuc k ↦ rest
    ]

unfoldable pub strstr : ℕ → Memory → ℕ → ℕ → Option ℕ
strstr fuel m haystack needle = do
  haystack_len ← strlen fuel m haystack
  needle_len ← strlen fuel m needle
  (if leb needle_len haystack_len
      then strstr_loop (haystack_len - needle_len + 1) m haystack needle needle_len
      else some 0)

-- The first loop of `strtok_r`: where the token starts, or (`false`) where the string ends.
unfoldable pub skip_loop : ℕ → ℕ → Memory → ℕ → ℕ → Option (Bool × ℕ)
skip_loop zero inner m delimiters s = none
skip_loop (suc fuel) inner m delimiters s =
    let rest = skip_loop fuel inner m delimiters (s + 1) in
    strchr inner m delimiters (m s) >>= λ r.
    if r == 0 then some (true, s) else (if m s == 0 then some (false, s) else rest)

-- The second loop of `strtok_r`: where the token ends.
unfoldable pub token_loop : ℕ → ℕ → Memory → ℕ → ℕ → Option ℕ
token_loop zero inner m delimiters s = none
token_loop (suc fuel) inner m delimiters s =
    let rest = token_loop fuel inner m delimiters (s + 1) in
    strchr inner m delimiters (m s) >>= λ r. if r == 0 then rest else some s

-- A delimiter behind the token becomes a null byte.
abbrev pub end_token : Memory → ℕ → ℕ → ℕ × ℕ × Memory
end_token m token s = if m s == 0 then (token, s, m) else (token, s + 1, store m s 0)

-- `*save_ptr` is `save`. The result: the token, the new `*save_ptr`, the memory.
unfoldable pub strtok_r : ℕ → Memory → ℕ → ℕ → ℕ → Option (ℕ × ℕ × Memory)
strtok_r fuel m s delimiters save =
    assert (not (delimiters == 0))
    >> (let from = if s == 0 then save else s in
        assert (not (from == 0))
        >> (skip_loop fuel fuel m delimiters from >>= λ start.
            if start.0
            then (token_loop fuel fuel m delimiters start.1 >>= λ end_.
                some (end_token m start.1 end_))
            else some (0, start.1, m)))

unfoldable pub strnlen_loop : ℕ → Memory → ℕ → ℕ
strnlen_loop zero m p = 0
strnlen_loop (suc maxlen) m p =
    let rest = strnlen_loop maxlen m (p + 1) in if m p == 0 then 0 else rest + 1

unfoldable pub strlcpy : ℕ → Memory → ℕ → ℕ → ℕ → Option (ℕ × Memory)
strlcpy fuel m dst src size =
    assert (not (dst == 0))
    >> (assert (not (src == 0))
        >> (strlen fuel m src >>= λ src_len.
            let dst_len = if ltb src_len (size - 1) then src_len else size - 1 in
            if ltb 0 size
            then (memcpy m dst src dst_len >>= λ r. some (src_len, store r.1 (dst + dst_len) 0))
            else some (src_len, m)))

unfoldable pub strlcat : ℕ → Memory → ℕ → ℕ → ℕ → Option (ℕ × Memory)
strlcat fuel m dst src size =
    assert (not (dst == 0))
    >> (assert (not (src == 0))
        >> (strlen fuel m src >>= λ src_len. strlen fuel m dst >>= λ dst_len.
            let room = size - dst_len - 1 in
            let copy_cnt = if ltb src_len room then src_len else room in
            if ltb 0 size && ltb dst_len size
            then (memcpy m (dst + dst_len) src copy_cnt >>= λ r.
                some (src_len + dst_len, store r.1 (dst + dst_len + copy_cnt) 0))
            else some (src_len + dst_len, m)))
