-- ===== src/InterruptQueue/Waiters.antt =====
-- Nobody is left asleep: a waiter is recorded only while its condition is false.
use cs140_w.Prelude.{
  ℕ, ◌≡◌, ◌≢◌, refl, sym, ◌∙◌, ◌==◌, Bool, true, false, not, if◌then◌else◌, Option, none, some,
  ◌>>=◌, ◌>>◌, assert, arith, >>=-eq-some,
}
use mathlib.Core.Path.{subst}
use cs140_w.InterruptQueue
use cs140_w.InterruptQueue.{
  InterruptQueue, next, intq_empty, intq_full, intq_getc, intq_putc, Outcome, returns, waits,
  waits_for_lock, locked_wait, held_by, wait_not_empty, wait_not_full, intq_init,
}
use cs140_w.InterruptQueue.Ring.{InBuffer}

-- A thread that waits has its reason to, and the waiter holds the lock.
pub record IsMonitor (q : InterruptQueue) : Type 0 where
  pub in_buffer : InBuffer q
  pub until_full : (t : ℕ) → q.not_empty ≡ some t → (intq_empty q ≡ true) × (q.lock ≡ some t)
  pub until_empty : (t : ℕ) → q.not_full ≡ some t → (intq_full q ≡ true) × (q.lock ≡ some t)

-- The queue after a call, whatever the call came to.
abbrev pub after {ℓ} : {A : Type ℓ} → Outcome A → InterruptQueue
after (returns a woken q) = q
after (waits q) = q
after (waits_for_lock holder q) = q

-- A call leaves a queue behind that is a monitor, or fails an ASSERT.
abbrev pub Keeps {ℓ} : {A : Type ℓ} → Option (Outcome A) → Type 0
Keeps none = Unit
Keeps (some o) = IsMonitor (after o)

if-Keeps {ℓ} :
    {A : Type ℓ} (b : Bool) (x y : Option (Outcome A))
    → (b ≡ true → Keeps x)
    → (b ≡ false → Keeps y)
    → Keeps (if b then x else y)
if-Keeps true x y f g = f refl
if-Keeps false x y f g = g refl

assert-Keeps {ℓ} :
    {A : Type ℓ} (b : Bool) (x : Option (Outcome A)) → (b ≡ true → Keeps x) → Keeps (assert b >> x)
assert-Keeps true x f = f refl
assert-Keeps false x f = tt

signal-Keeps {ℓ} :
    {A : Type ℓ} (b : Bool) (a : A) (w : Option ℕ × InterruptQueue)
    → IsMonitor w.1
    → Keeps ((assert b >> some w) >>= λ r. some (returns a r.0 r.1))
signal-Keeps true a w m = m
signal-Keeps false a w m = tt

wait-Keeps {ℓ} :
    (A : Type ℓ) (b c : Bool) (q : InterruptQueue)
    → (c ≡ true → IsMonitor q)
    → Keeps {A = A} ((assert b >> (assert c >> some q)) >>= λ q'. some (waits q'))
wait-Keeps A true true q m = m refl
wait-Keeps A true false q m = tt
wait-Keeps A false c q m = tt

lock-Keeps {ℓ} :
    {A : Type ℓ} (q : InterruptQueue) (lock : Option ℕ) (x : Option (Outcome A))
    → IsMonitor q
    → (lock ≡ none → Keeps x)
    → Keeps (elim lock [ some holder ↦ some (waits_for_lock holder q) | none ↦ x ])
lock-Keeps q (some holder) x m f = m
lock-Keeps q none x m f = f refl

module _ (intr_context : Bool) (me : ℕ) (q : InterruptQueue) (m : IsMonitor q) where
  -- Who finds the lock free finds no waiter.
  nobody : q.lock ≡ none → (t : ℕ) → (q.not_empty ≢ some t) × (q.not_full ≢ some t)
  nobody free t =
      (λ e. let (c, l) = m.until_full t e in cc, λ e. let (c, l) = m.until_empty t e in cc)

  wait_not_empty-Keeps : (b : Bool) → Keeps {A = ℕ} (locked_wait me (wait_not_empty b me) q)
  wait_not_empty-Keeps b = lock-Keeps q q.lock _ m (λ free.
      wait-Keeps ℕ (not b) (intq_empty q) (record q { lock = some me; not_empty = some me })
        (λ e. record {
          in_buffer = m.in_buffer;
          until_full = λ t w. (e, w);
          until_empty = λ t w. elim ((nobody free t).1 w) [ ];
        }))

  wait_not_full-Keeps : (b : Bool) → Keeps {A = Unit {0}} (locked_wait me (wait_not_full b me) q)
  wait_not_full-Keeps b = lock-Keeps q q.lock _ m (λ free.
      wait-Keeps (Unit {0}) (not b) (intq_full q) (record q { lock = some me; not_full = some me })
        (λ e. record {
          in_buffer = m.in_buffer;
          until_full = λ t w. elim ((nobody free t).0 w) [ ];
          until_empty = λ t w. (e, w);
        }))

  intq_getc-Keeps : Keeps (intq_getc intr_context me q)
  unfolding intq_getc
  intq_getc-Keeps =
      if-Keeps (intq_empty q) _ _
        (λ e.
          assert-Keeps (not intr_context) _ (λ n.
            assert-Keeps (not (held_by q.lock me)) _ (λ h. wait_not_empty-Keeps intr_context)))
        (λ e.
          signal-Keeps (not (intq_full (record q { tail = next q.tail }))) (q.buf q.tail)
            (q.not_full, record q { tail = next q.tail; not_full = none })
            (record {
              in_buffer = (m.in_buffer.0, omega arith);
              until_full = λ t w. let (c, l) = m.until_full t w in cc;
              until_empty = λ t w. cc;
            }))

  intq_putc-Keeps : (byte : ℕ) → Keeps (intq_putc intr_context me byte q)
  unfolding intq_putc
  intq_putc-Keeps byte =
      if-Keeps (intq_full q) _ _
        (λ e.
          assert-Keeps (not intr_context) _
            (λ n. assert-Keeps (not (held_by q.lock me)) _ (λ h. wait_not_full-Keeps intr_context)))
        (λ e.
          signal-Keeps (not (intq_empty (record q { head = next q.head }))) tt
            (
              q.not_empty,
              record q {
                buf = λ i. if i == q.head then byte else q.buf i;
                head = next q.head;
                not_empty = none;
              },
            )
            (record {
              in_buffer = (omega arith, m.in_buffer.1);
              until_full = λ t w. cc;
              until_empty = λ t w. let (c, l) = m.until_empty t w in cc;
            }))

-- A waiter runs again after it was woken, and it is no waiter any more.
released :
    (me : ℕ) (q : InterruptQueue)
    → IsMonitor q
    → q.lock ≡ some me
    → q.not_empty ≢ some me
    → q.not_full ≢ some me
    → IsMonitor (record q { lock = none })
released me q m l e f = record {
  in_buffer = m.in_buffer;
  until_full = λ t w. let (c, o) = m.until_full t w in elim (e (w ∙ sym o ∙ l)) [ ];
  until_empty = λ t w. let (c, o) = m.until_empty t w in elim (f (w ∙ sym o ∙ l)) [ ];
}

-- The events of a queue: calls by threads and handlers, a thread that slept for the lock going on into
-- its wait, and a thread that was woken, and is a waiter no more, giving the lock back.
pub data Step : InterruptQueue → InterruptQueue → Type 0 where
  getc :
      (intr_context : Bool) (me : ℕ) (q : InterruptQueue) (o : Outcome ℕ)
      → intq_getc intr_context me q ≡ some o
      → Step q (after o)
  putc :
      (intr_context : Bool) (me byte : ℕ) (q : InterruptQueue) (o : Outcome (Unit {0}))
      → intq_putc intr_context me byte q ≡ some o
      → Step q (after o)
  relock_getc :
      (me : ℕ) (q : InterruptQueue) (o : Outcome ℕ)
      → InterruptQueue.relock_getc me q ≡ some o
      → Step q (after o)
  relock_putc :
      (me : ℕ) (q : InterruptQueue) (o : Outcome (Unit {0}))
      → InterruptQueue.relock_putc me q ≡ some o
      → Step q (after o)
  unlock :
      (me : ℕ) (q q' : InterruptQueue)
      → q.not_empty ≢ some me
      → q.not_full ≢ some me
      → InterruptQueue.unlock me q ≡ some q'
      → Step q q'

-- The queues that come from `intq_init` by any number of events.
pub data Reachable (buf : ℕ → ℕ) : InterruptQueue → Type 0 where
  start : Reachable buf (intq_init buf)
  event : {q q' : InterruptQueue} → Reachable buf q → Step q q' → Reachable buf q'

kept {ℓ} :
    {A : Type ℓ} (r : Option (Outcome A)) (o : Outcome A)
    → Keeps r
    → r ≡ some o
    → IsMonitor (after o)
kept r o k e = subst Keeps e k

step-IsMonitor : {q q' : InterruptQueue} → Step q q' → IsMonitor q → IsMonitor q'
unfolding InterruptQueue.relock_getc InterruptQueue.relock_putc InterruptQueue.unlock
step-IsMonitor (getc c me q o e) m = kept _ o (intq_getc-Keeps c me q m) e
step-IsMonitor (putc c me byte q o e) m = kept _ o (intq_putc-Keeps c me q m byte) e
step-IsMonitor (relock_getc me q o e) m = kept _ o (wait_not_empty-Keeps false me q m false) e
step-IsMonitor (relock_putc me q o e) m = kept _ o (wait_not_full-Keeps false me q m false) e
step-IsMonitor (unlock me q q' ne nf e) m =
    let (u, mine, r) = >>=-eq-some (assert (held_by q.lock me)) _ e in
    let holds : q.lock ≡ some me = ground arith in
    subst IsMonitor (ground arith) (released me q m holds ne nf)

-- However calls of threads and handlers, the return of threads that slept for the lock into their
-- wait, and the release of the lock by woken threads follow one another from intq_init on, a thread
-- is recorded as waiting for a byte only while the queue is empty and for room only while it is
-- full, and holds the lock of the queue; the positions stay within the buffer.
pub reachable-IsMonitor : (buf : ℕ → ℕ) (q : InterruptQueue) → Reachable buf q → IsMonitor q
reachable-IsMonitor buf q start = record {
  in_buffer = (omega arith, omega arith);
  until_full = λ t w. cc;
  until_empty = λ t w. cc;
}
reachable-IsMonitor buf q (event r s) = step-IsMonitor s (reachable-IsMonitor buf _ r)
