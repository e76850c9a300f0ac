-- ===== src/Timer/Alarms.antt =====
-- Every alarm is due at its tick: its thread is woken by that interrupt, not earlier and not later.
use cs140_w.Prelude.{
  ℕ, zero, suc, ◌+◌, ◌<◌, ◌≡◌, refl, ap, sym, ◌∙◌, leb, ltb, true, false, if◌then◌else◌, List, [],
  ◌∷◌, arith, dec_lt, Bool-cases, inl, inr, ◌==◌, if_true, if_false,
}
use mathlib.Core.Path.{subst}
use cs140_w.KernelList.Extremes.{All, IsWeakOrder}
use cs140_w.KernelList.Ordered.{IsOrdered, list_insert_ordered-InsertedIn}
use cs140_w.Timer.{Alarm, Timer, cmp_alarm, timer_sleep, check_alarms, timer_interrupt}

abbrev pub due : ℕ → List Alarm → List Alarm
due tick [] = []
due tick (a ∷ l) = let rest = due tick l in if leb a.alarm_tick tick then a ∷ rest else rest

abbrev pub pending : ℕ → List Alarm → List Alarm
pending tick [] = []
pending tick (a ∷ l) = let rest = pending tick l in if leb a.alarm_tick tick then rest else a ∷ rest

abbrev pub threads : List Alarm → List ℕ
threads [] = []
threads (a ∷ l) = a.thread ∷ threads l

cmp_alarm-IsWeakOrder : IsWeakOrder cmp_alarm
cmp_alarm-IsWeakOrder = record {
  irreflexive = λ a. ground arith;
  transitive = λ a b c p q. ground arith;
  cotransitive = λ a b c p q. ground arith;
}

-- Behind an alarm that is not due none is.
none-due :
    (tick t : ℕ) (l : List Alarm)
    → tick < t
    → All (λ a. ltb a.alarm_tick t ≡ false) l
    → (due tick l ≡ []) × (pending tick l ≡ l)
none-due tick t [] h k = (refl, refl)
none-due tick t (a ∷ l) h k =
    let (d, p) = none-due tick t l h k.1 in
    let no : leb a.alarm_tick tick ≡ false = ground (arith, h, k.0) in
    (if_false _ _ no ∙ d, if_false _ _ no ∙ ap (λ r. a ∷ r) p)

check_alarms-due :
    (tick : ℕ) (l : List Alarm)
    → IsOrdered cmp_alarm l
    → check_alarms tick l ≡ (threads (due tick l), pending tick l)
unfolding check_alarms
check_alarms-due tick [] h = refl
check_alarms-due tick (a ∷ l) h = elim (dec_lt tick a.alarm_tick) [
  | yes later ↦
      let (d, p) = none-due tick a.alarm_tick l later h.0 in
      let no : leb a.alarm_tick tick ≡ false = ground (arith, later) in
      if_false _ _ no
      ∙ ap (λ r. (threads r, a ∷ l)) (sym (if_false _ _ no ∙ d))
      ∙ ap (λ r. (threads (due tick (a ∷ l)), r)) (sym (if_false _ _ no ∙ ap (λ r. a ∷ r) p))
  | no now ↦
      let is : leb a.alarm_tick tick ≡ true = ground (arith, now) in
      if_true _ _ is
      ∙ ap (λ r. (a.thread ∷ r.0, r.1)) (check_alarms-due tick l h.1)
      ∙ ap (λ r. (threads r, pending tick l)) (sym (if_true _ _ is))
      ∙ ap (λ r. (threads (due tick (a ∷ l)), r)) (sym (if_true _ _ is))
]

All-pending {κ} :
    (P : Alarm → Type κ) (tick : ℕ) (l : List Alarm) → All P l → All P (pending tick l)
All-pending P tick [] h = tt
All-pending P tick (a ∷ l) h = elim (Bool-cases (leb a.alarm_tick tick)) [
  | inr later ↦
      let stays : a ∷ pending tick l ≡ pending tick (a ∷ l) = sym (if_false _ _ later) in
      subst (All P) stays (h.0, All-pending P tick l h.1)
  | inl now ↦
      let gone : pending tick l ≡ pending tick (a ∷ l) = sym (if_true _ _ now) in
      subst (All P) gone (All-pending P tick l h.1)
]

pending-IsOrdered :
    (tick : ℕ) (l : List Alarm) → IsOrdered cmp_alarm l → IsOrdered cmp_alarm (pending tick l)
pending-IsOrdered tick [] h = tt
pending-IsOrdered tick (a ∷ l) h = elim (Bool-cases (leb a.alarm_tick tick)) [
  | inr later ↦
      let stays : a ∷ pending tick l ≡ pending tick (a ∷ l) = sym (if_false _ _ later) in
      subst (IsOrdered cmp_alarm) stays
        (All-pending (λ y. cmp_alarm y a ≡ false) tick l h.0, pending-IsOrdered tick l h.1)
  | inl now ↦
      let gone : pending tick l ≡ pending tick (a ∷ l) = sym (if_true _ _ now) in
      subst (IsOrdered cmp_alarm) gone (pending-IsOrdered tick l h.1)
]

-- The alarms of one tick.
abbrev pub at_tick : ℕ → List Alarm → List Alarm
at_tick tick [] = []
at_tick tick (a ∷ l) = let rest = at_tick tick l in if a.alarm_tick == tick then a ∷ rest else rest

-- No alarm is overdue.
abbrev pub Ahead : Timer → Type 0
Ahead t = All (λ a. t.ticks < a.alarm_tick) t.alarm_list

due-at_tick :
    (tick : ℕ) (l : List Alarm)
    → All (λ a. tick < a.alarm_tick) l
    → due (tick + 1) l ≡ at_tick (tick + 1) l
due-at_tick tick [] h = refl
due-at_tick tick (a ∷ l) h =
    let same : leb a.alarm_tick (tick + 1) ≡ (a.alarm_tick == tick + 1) = ground (arith, h.0) in
    ap (λ r. if leb a.alarm_tick (tick + 1) then a ∷ r else r) (due-at_tick tick l h.1)
    ∙ ap (λ b. if b then a ∷ at_tick (tick + 1) l else at_tick (tick + 1) l) same

at_tick-pending :
    (m tick : ℕ) (l : List Alarm) → tick < m → at_tick m (pending tick l) ≡ at_tick m l
at_tick-pending m tick [] h = refl
at_tick-pending m tick (a ∷ l) h = elim (Bool-cases (leb a.alarm_tick tick)) [
  | inr later ↦
      ap (at_tick m) (if_false _ _ later)
      ∙ ap (λ r. if a.alarm_tick == m then a ∷ r else r) (at_tick-pending m tick l h)
  | inl now ↦
      let other : (a.alarm_tick == m) ≡ false = ground (arith, now, h) in
      ap (at_tick m) (if_true _ _ now) ∙ at_tick-pending m tick l h ∙ sym (if_false _ _ other)
]

-- No alarm that stays is overdue.
pending-ahead : (tick : ℕ) (l : List Alarm) → All (λ a. tick < a.alarm_tick) (pending tick l)
pending-ahead tick [] = tt
pending-ahead tick (a ∷ l) = elim (Bool-cases (leb a.alarm_tick tick)) [
  | inr later ↦
      let stays : a ∷ pending tick l ≡ pending tick (a ∷ l) = sym (if_false _ _ later) in
      subst (All (λ a. tick < a.alarm_tick)) stays (ground (arith, later), pending-ahead tick l)
  | inl now ↦
      let gone : pending tick l ≡ pending tick (a ∷ l) = sym (if_true _ _ now) in
      subst (All (λ a. tick < a.alarm_tick)) gone (pending-ahead tick l)
]

-- The timer after a number of interrupts.
abbrev pub after : ℕ → Timer → Timer
after zero t = t
after (suc n) t = after n (timer_interrupt t).1

-- If the alarms are in order and none is overdue, then after any number of timer interrupts, with
-- nobody going to sleep meanwhile, the next interrupt wakes exactly the threads whose alarm is set
-- for its tick, in the order of the list.
pub timer_interrupt-at_tick :
    (n : ℕ) (t : Timer)
    → IsOrdered cmp_alarm t.alarm_list
    → Ahead t
    → (timer_interrupt (after n t)).0 ≡ threads (at_tick (t.ticks + n + 1) t.alarm_list)
unfolding timer_interrupt
timer_interrupt-at_tick zero t o h =
    let now : t.ticks + 1 ≡ t.ticks + 0 + 1 = omega arith in
    ap (λ r. r.0) (check_alarms-due (t.ticks + 1) t.alarm_list o)
    ∙ ap threads (due-at_tick t.ticks t.alarm_list h ∙ ap (λ m. at_tick m t.alarm_list) now)
timer_interrupt-at_tick (suc n) t o h =
    let next : Timer = record {
      ticks = t.ticks + 1;
      alarm_list = pending (t.ticks + 1) t.alarm_list;
    } in
    let step : (timer_interrupt t).1 ≡ next =
      ap (λ r. record { ticks = t.ticks + 1; alarm_list = r.1 })
        (check_alarms-due (t.ticks + 1) t.alarm_list o) in
    let then_on =
      timer_interrupt-at_tick n next (pending-IsOrdered (t.ticks + 1) t.alarm_list o)
        (pending-ahead (t.ticks + 1) t.alarm_list) in
    let same : t.ticks + 1 + n + 1 ≡ t.ticks + suc n + 1 = omega arith in
    ap (λ z. (timer_interrupt (after n z)).0) step
    ∙ then_on
    ∙ ap threads (
        at_tick-pending (t.ticks + 1 + n + 1) (t.ticks + 1) t.alarm_list (omega arith)
        ∙ ap (λ m. at_tick m t.alarm_list) same)

-- Going to sleep keeps the alarms in order.
pub timer_sleep-IsOrdered :
    (t : Timer) (me ticks : ℕ)
    → IsOrdered cmp_alarm t.alarm_list
    → IsOrdered cmp_alarm (timer_sleep t me ticks).alarm_list
unfolding timer_sleep
timer_sleep-IsOrdered t me ticks o =
    let (before, behind, was, is, lo, ordered) =
      list_insert_ordered-InsertedIn cmp_alarm cmp_alarm-IsWeakOrder
        (record { thread = me; alarm_tick = t.ticks + ticks }) t.alarm_list o in
    ordered
