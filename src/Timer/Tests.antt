-- ===== src/Timer/Tests.antt =====
-- Runs and instances of the theorems on alarms: at tick 10, alarms for the ticks 11, 13 and 13.
use cs140_w.Prelude.{◌≡◌, refl, [], ◌∷◌, arith}
use cs140_w.Timer.{Timer, timer_interrupt}
use cs140_w.Timer.Alarms.{after, timer_interrupt-at_tick}

abbrev timer : Timer
timer = record {
  ticks = 10;
  alarm_list =
      record { thread = 4; alarm_tick = 11 }
      ∷ record { thread = 6; alarm_tick = 13 }
      ∷ record { thread = 5; alarm_tick = 13 }
      ∷ [];
}

timer_interrupt-at_tick_example : (timer_interrupt (after 2 timer)).0 ≡ 6 ∷ 5 ∷ []
timer_interrupt-at_tick_example =
    timer_interrupt-at_tick 2 timer ((refl, (refl, tt)), ((refl, tt), (tt, tt)))
      (omega arith, (omega arith, (omega arith, tt)))
