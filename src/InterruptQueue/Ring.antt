-- ===== src/InterruptQueue/Ring.antt =====
-- The circular buffer holds a sequence of bytes: a byte put comes last, the byte got is the first.
use cs140_w.Prelude.{
  ℕ, zero, suc, ◌+◌, ◌-◌, ◌%◌, ◌<◌, ◌≡◌, ap, ◌∙◌, ◌==◌, Bool, false, if◌then◌else◌, none, some,
  List, [], ◌∷◌, ◌++◌, arith,
}
use cs140_w.InterruptQueue.{
  InterruptQueue, next, intq_empty, intq_full, intq_getc, intq_putc, returns,
}

-- The `n` bytes of the buffer from position `pos` on.
abbrev pub ring : (ℕ → ℕ) → ℕ → ℕ → List ℕ
ring buf pos zero = []
ring buf pos (suc n) = buf pos ∷ ring buf (next pos) n

abbrev pub count : InterruptQueue → ℕ
count q = (q.head + 64 - q.tail) % 64

-- The bytes in the queue, the oldest first.
abbrev pub contents : InterruptQueue → List ℕ
contents q = ring q.buf q.tail (count q)

abbrev pub InBuffer : InterruptQueue → Type 0
InBuffer q = (q.head < 64) × (q.tail < 64)

-- The byte behind `n` others is the last one.
ring-snoc :
    (buf : ℕ → ℕ) (byte pos n h : ℕ)
    → n < 64
    → h ≡ (pos + n) % 64
    → pos < 64
    → ring (λ i. if i == h then byte else buf i) pos (n + 1) ≡ ring buf pos n ++ byte ∷ []
ring-snoc buf byte pos zero h f e p = ground (arith, e, p)
ring-snoc buf byte pos (suc n) h f e p = ground (
  arith,
  f,
  e,
  p,
  ring-snoc buf byte (next pos) n h (omega (arith, f)) (omega (arith, e, p)) (omega arith),
)

-- On a queue that is not full, with its positions within the buffer, intq_putc returns, wakes the
-- thread that waits for a byte, if any, and adds the byte behind the bytes in the queue; the
-- positions stay within the buffer.
pub intq_putc-contents :
    (intr_context : Bool) (me byte : ℕ) (q : InterruptQueue)
    → InBuffer q
    → intq_full q ≡ false
    → (q' : InterruptQueue) × (intq_putc intr_context me byte q ≡ some (returns tt q.not_empty q'))
      × InBuffer q'
      × (contents q' ≡ contents q ++ byte ∷ [])
unfolding intq_putc
intq_putc-contents intr_context me byte q (h, t) f = (
  record q {
    buf = λ i. if i == q.head then byte else q.buf i;
    head = next q.head;
    not_empty = none;
  },
  ground (arith, f, h, t),
  (omega arith, t),
  snoc,
)
  where
    more :
        count (record q {
          buf = λ i. if i == q.head then byte else q.buf i;
          head = next q.head;
          not_empty = none;
        })
        ≡ count q + 1
    more = ground (arith, f, h, t)

    snoc :
        contents (record q {
          buf = λ i. if i == q.head then byte else q.buf i;
          head = next q.head;
          not_empty = none;
        })
        ≡ contents q ++ byte ∷ []
    snoc =
        ap (ring (λ i. if i == q.head then byte else q.buf i) q.tail) more
        ∙ ring-snoc q.buf byte q.tail (count q) q.head (omega arith) (omega (arith, h, t)) t

-- On a queue that is not empty, with its positions within the buffer, intq_getc returns the oldest
-- of its bytes, wakes the thread that waits for room, if any, and leaves the others in order; the
-- positions stay within the buffer.
pub intq_getc-contents :
    (intr_context : Bool) (me : ℕ) (q : InterruptQueue)
    → InBuffer q
    → intq_empty q ≡ false
    → (byte : ℕ) × (q' : InterruptQueue) × (intq_getc intr_context me q
        ≡ some (returns byte q.not_full q'))
      × InBuffer q'
      × (contents q ≡ byte ∷ contents q')
unfolding intq_getc
intq_getc-contents intr_context me q (h, t) f = (
  q.buf q.tail,
  record q { tail = next q.tail; not_full = none },
  ground (arith, f, h, t),
  (h, omega arith),
  got,
)
  where
    fewer : count q ≡ suc (count (record q { tail = next q.tail; not_full = none }))
    fewer = ground (arith, f, h, t)

    got : contents q ≡ q.buf q.tail ∷ contents (record q { tail = next q.tail; not_full = none })
    got = ap (ring q.buf q.tail) fewer
