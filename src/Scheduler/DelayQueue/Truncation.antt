-- ===== src/Scheduler/DelayQueue/Truncation.antt =====
-- A delay queue after a gap of more than 2 ^ 31 seconds.
use huicpp.Base.{◌+◌, ◌^◌, ◌<◌, ◌≡◌, refl, ◌∙◌, arith, false}
use huicpp.Scheduler.Timeval.{Timeval, lt, geq, micros, IsNormal, delay_zero, diff_truncated}
use huicpp.Scheduler.DelayQueue.{DelayQueue, synchronize, relink}
use huicpp.Scheduler.DelayQueue.Schedule.{schedule, earlier-zero}
use huicpp.Scheduler.DelayQueue.Loops.{advance-Gives}
use huicpp.Scheduler.DelayQueue.Refine.{IsDelayQueue, Becomes, end_of_queue}

-- If the clock has gone on by more than 2 ^ 31 and less than 2 ^ 32 seconds, then `synchronize` moves
-- no alarm, although the queue is synchronized with the new time: the time is lost.
pub synchronize_truncated :
    {q : DelayQueue} {now : Timeval}
    → IsDelayQueue q
    → IsNormal now
    → now.seconds < 2 ^ 63
    → q.last_sync_time.seconds + 2 ^ 31 < now.seconds
    → now.seconds < q.last_sync_time.seconds + 2 ^ 32
    → 0 < end_of_queue q
    → Becomes now (synchronize now q) (schedule q.entries) (end_of_queue q)
unfolding synchronize relink end_of_queue
synchronize_truncated {q} {now} v hn hr h1 h2 h =
    let z = diff_truncated now q.last_sync_time h1 h2 in
    let b : lt now q.last_sync_time ≡ false = unfold lt geq in grind arith in
    let m : micros delay_zero ≡ 0 = unfold micros in refl in
    let g = advance-Gives delay_zero q.entries q.rest (omega arith) v.chain (rw m h) in
    record {
      queue = relink (record q { last_sync_time = now }) g.chain;
      result = rw (b, z, g.result) refl;
      stands = record {
        valid = record {
          chain = g.holds.chain;
          last_normal = hn;
          last_in = hr;
          bounded = omega (arith, v.bounded, g.holds.sum);
        };
        alarms = g.holds.alarms ∙ rw (m, earlier-zero (schedule q.entries)) refl;
        ends = omega (arith, g.holds.sum, m);
        last = refl;
      };
    }
