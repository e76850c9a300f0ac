-- ===== src/InterruptQueue/Tests.antt =====
-- Runs and instances of the theorems on interrupt queues.
use cs140_w.Prelude.{
  ℕ, ◌≡◌, refl, ◌==◌, true, false, if◌then◌else◌, none, some, [], ◌∷◌, ◌++◌, arith,
}
use cs140_w.InterruptQueue.{InterruptQueue, intq_init, intq_getc, intq_putc, returns, waits}
use cs140_w.InterruptQueue.Ring.{InBuffer, contents, intq_getc-contents, intq_putc-contents}
use cs140_w.InterruptQueue.Waiters.{IsMonitor, start, event, getc, reachable-IsMonitor}

-- Bytes 7 and 8 at the places 63 and 0, and thread 4 waits for a free place no longer.
abbrev wrapped : InterruptQueue
wrapped = record {
  lock = some 4;
  not_full = none;
  not_empty = none;
  buf = λ i. if i == 63 then 7 else 8;
  head = 1;
  tail = 63;
}

wrapped-contents : contents wrapped ≡ 7 ∷ 8 ∷ []
wrapped-contents = refl

intq_putc-contents_example :
    (q' : InterruptQueue) × (intq_putc true 3 9 wrapped ≡ some (returns tt none q'))
    × InBuffer q'
    × (contents q' ≡ contents wrapped ++ 9 ∷ [])
intq_putc-contents_example = intq_putc-contents true 3 9 wrapped (omega arith, omega arith) refl

intq_getc-contents_example :
    (byte : ℕ) × (q' : InterruptQueue) × (intq_getc false 3 wrapped ≡ some (returns byte none q'))
    × InBuffer q'
    × (contents wrapped ≡ byte ∷ contents q')
intq_getc-contents_example = intq_getc-contents false 3 wrapped (omega arith, omega arith) refl

-- Thread 5 waits for a byte.
abbrev asleep : InterruptQueue
asleep = record (intq_init (λ _. 0)) { lock = some 5; not_empty = some 5 }

asleep-getc : intq_getc false 5 (intq_init (λ _. 0)) ≡ some (waits asleep)
unfolding intq_getc
asleep-getc = refl

reachable-IsMonitor_example : IsMonitor asleep
reachable-IsMonitor_example =
    reachable-IsMonitor (λ _. 0) asleep
      (event start (getc false 5 (intq_init (λ _. 0)) (waits asleep) asleep-getc))
