-- ===== src/Timer.antt =====
-- pintos/src/devices/timer.c: threads that sleep until a tick. An alarm has its thread for its
-- semaphore, and `sema_up` on it is that the thread is woken. Ticks do not overflow, and a thread
-- does not sleep for a negative number of ticks.
pub mod Alarms
mod Tests
use cs140_w.Prelude.{
  ℕ, zero, suc, ◌+◌, leb, ltb, Bool, true, false, if◌then◌else◌, List, [], ◌∷◌, ◌++◌,
}
use cs140_w.KernelList.{list_insert_ordered}

-- `struct alarm`
pub record Alarm : Type 0 where
  pub thread : ℕ
  pub alarm_tick : ℕ

-- `ticks` and `alarm_list`.
pub record Timer : Type 0 where
  pub ticks : ℕ
  pub alarm_list : List Alarm

abbrev pub cmp_alarm : Alarm → Alarm → Bool
cmp_alarm a b = ltb a.alarm_tick b.alarm_tick

-- `timer_sleep` up to its `sema_down`, which blocks the thread.
unfoldable pub timer_sleep : Timer → ℕ → ℕ → Timer
timer_sleep t me ticks = record t {
  alarm_list =
      list_insert_ordered cmp_alarm (record { thread = me; alarm_tick = t.ticks + ticks })
        t.alarm_list;
}

-- The threads woken, in order, and the alarms that stay.
unfoldable pub check_alarms : ℕ → List Alarm → List ℕ × List Alarm
check_alarms ticks [] = ([], [])
check_alarms ticks (next_alarm ∷ rest) =
    let later = check_alarms ticks rest in
    if leb next_alarm.alarm_tick ticks
    then (next_alarm.thread ∷ later.0, later.1)
    else ([], next_alarm ∷ rest)

-- `timer_interrupt` without the accounting of threads.
unfoldable pub timer_interrupt : Timer → List ℕ × Timer
timer_interrupt t =
    let r = check_alarms (t.ticks + 1) t.alarm_list in
    (r.0, record { ticks = t.ticks + 1; alarm_list = r.1 })
