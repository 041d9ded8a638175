-- ===== src/Scheduler/Tests.antt =====
-- Concrete runs of the delay queue, and the theorems at concrete inputs.
use huicpp.Base.{ℕ, ◌-◌, ◌≡◌, refl, arith, [], ◌∷◌, none, some}
use huicpp.Scheduler.Timeval.{Timeval, eq, scale, micros}
use huicpp.Scheduler.DelayQueue.{
  DelayQueue, link, advance, synchronize, add_entry, remove_entry, head_delta, handle_due,
  handle_alarm,
}
use huicpp.Scheduler.DelayQueue.Schedule.{earlier, schedule_at, without, due, pending, schedule}
use huicpp.Scheduler.DelayQueue.Loops.{IsChain, total}
use huicpp.Scheduler.DelayQueue.Refine.{
  IsDelayQueue, Follows, Stands, Becomes, elapsed, end_of_queue, synchronize_refines,
  add_entry_refines, remove_entry_refines,
}
use huicpp.Scheduler.DelayQueue.Alarms.{current, handle_alarm_refines}

abbrev interval : ℕ → ℕ → Timeval
interval s u = record { seconds = s; useconds = u }

-- Alarms at 1.5 seconds and at 2 seconds after the time 100.
abbrev two_alarms : DelayQueue
two_alarms = record {
  entries =
      record { token = 7; delta = interval 1 500000 }
      ∷ record { token = 8; delta = interval 0 500000 }
      ∷ [];
  rest = interval 1000 0;
  last_sync_time = interval 100 0;
}

two_alarms-IsDelayQueue : IsDelayQueue two_alarms
unfolding IsChain end_of_queue total micros
two_alarms-IsDelayQueue = record {
  chain = (omega arith, (omega arith, omega arith));
  last_normal = omega arith;
  last_in = omega arith;
  bounded = omega arith;
}

at_102 : Follows (interval 101 700000) two_alarms
unfolding elapsed end_of_queue total micros
at_102 = record {
  normal = omega arith;
  in_range = omega arith;
  soon = omega arith;
  early = omega arith;
}

one_day : scale 24 (scale 60 (scale 60 (interval 1 0))) ≡ interval 86400 0
unfolding scale
one_day = refl

alarm_run :
    handle_alarm 5 (λ n q. q) (interval 101 700000) two_alarms
    ≡ some (
      7 ∷ [],
      record {
        entries = record { token = 8; delta = interval 0 300000 } ∷ [];
        rest = interval 1000 0;
        last_sync_time = interval 101 700000;
      },
    )
unfolding handle_alarm handle_due synchronize advance head_delta remove_entry eq link
alarm_run = refl

synchronize_refines_example :
    Becomes
      (interval 101 700000)
      (synchronize (interval 101 700000) two_alarms)
      (earlier (elapsed (interval 101 700000) two_alarms) (schedule two_alarms.entries))
      (end_of_queue two_alarms - elapsed (interval 101 700000) two_alarms)
synchronize_refines_example = synchronize_refines two_alarms-IsDelayQueue at_102

add_entry_refines_example :
    Becomes
      (interval 101 700000)
      (add_entry (interval 101 700000) 9 (interval 0 300000) two_alarms)
      (schedule_at 9
        (micros (interval 0 300000))
        (earlier (elapsed (interval 101 700000) two_alarms) (schedule two_alarms.entries)))
      (end_of_queue two_alarms - elapsed (interval 101 700000) two_alarms)
add_entry_refines_example =
    add_entry_refines two_alarms-IsDelayQueue at_102 9 (interval 0 300000) (omega arith)
      (unfold elapsed end_of_queue total micros in omega arith)

remove_entry_refines_example :
    Stands
      (interval 100 0)
      (remove_entry (some 7) two_alarms)
      (without 7 (schedule two_alarms.entries))
      (end_of_queue two_alarms)
    × (remove_entry none two_alarms ≡ two_alarms)
remove_entry_refines_example = remove_entry_refines two_alarms-IsDelayQueue 7

handle_alarm_refines_example :
    (q' : DelayQueue) × (handle_alarm 5 (λ n q. q) (interval 101 700000) two_alarms
      ≡ some (due (current (interval 101 700000) two_alarms), q'))
    × (schedule q'.entries ≡ pending (current (interval 101 700000) two_alarms))
    × IsDelayQueue q'
handle_alarm_refines_example =
    handle_alarm_refines (λ n q. q) (λ n q. refl) 5 two_alarms-IsDelayQueue at_102 (omega arith)
