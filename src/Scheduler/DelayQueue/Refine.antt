-- ===== src/Scheduler/DelayQueue/Refine.antt =====
-- The operations that change a delay queue, against the schedule that it stands for.
use huicpp.Base.{
  ℕ, ◌+◌, ◌-◌, ◌/◌, ◌%◌, ◌^◌, ◌≤◌, ◌<◌, ◌≡◌, refl, ◌∙◌, arith, List, [], true, false, Bool-cases,
  inl, inr, Option, none, some,
}
use huicpp.Base.Options.{◌>>=◌}
use huicpp.Scheduler.Timeval.{
  Timeval, lt, diff, micros, million, eternity, IsNormal, geq-micros, micros-diff, diff-IsNormal,
}
use huicpp.Scheduler.DelayQueue.{
  DelayQueue, construct, relink, synchronize, add_entry, unlink, remove_entry, update_entry,
  schedule_delay_task,
}
use huicpp.Scheduler.DelayQueue.Schedule.{
  Alarm, earlier, schedule_at, without, schedule, earlier-zero,
}
use huicpp.Scheduler.DelayQueue.Loops.{IsChain, total, advance-Gives, place-Gives, unlink-Holds}

-- The microseconds until the queue's own entry is due, which no sum of intervals exceeds.
unfoldable pub end_of_queue : DelayQueue → ℕ
end_of_queue q = total q.entries q.rest

pub record IsDelayQueue (q : DelayQueue) : Type 0 where
  pub chain : IsChain q.entries q.rest
  pub last_normal : IsNormal q.last_sync_time
  pub last_in : q.last_sync_time.seconds < 2 ^ 63
  pub bounded : end_of_queue q ≤ micros eternity

-- How far the clock is ahead of the last synchronization; 0 if it went back.
unfoldable pub elapsed : Timeval → DelayQueue → ℕ
elapsed now q = micros now - micros q.last_sync_time

-- `now` is a time of the clock, less than 2 ^ 31 seconds after the last synchronization and before
-- the queue's own entry is due.
pub record Follows (now : Timeval) (q : DelayQueue) : Type 0 where
  pub normal : IsNormal now
  pub in_range : now.seconds < 2 ^ 63
  pub soon : now.seconds < q.last_sync_time.seconds + 2 ^ 31
  pub early : elapsed now q < end_of_queue q

-- `q` is well formed, synchronized at `now`, stands for the schedule `s` and ends after `n`.
pub record Stands (now : Timeval) (q : DelayQueue) (s : List Alarm) (n : ℕ) : Type 0 where
  pub valid : IsDelayQueue q
  pub alarms : schedule q.entries ≡ s
  pub ends : end_of_queue q ≡ n
  pub last : q.last_sync_time ≡ now

pub record Becomes (now : Timeval) (o : Option DelayQueue) (s : List Alarm) (n : ℕ) : Type 0 where
  pub queue : DelayQueue
  pub result : o ≡ some queue
  pub stands : Stands now queue s n

-- A new queue has no alarm and ends after the longest interval.
pub construct_empty :
    (now : Timeval)
    → IsNormal now
    → now.seconds < 2 ^ 63
    → Stands now (construct now) [] (micros eternity)
unfolding construct end_of_queue total IsChain schedule micros
construct_empty now hn hr = record {
  valid = record { chain = omega arith; last_normal = hn; last_in = hr; bounded = omega arith };
  alarms = refl;
  ends = refl;
  last = refl;
}

module _ {q : DelayQueue} {now : Timeval} (v : IsDelayQueue q) (f : Follows now q) where
  lt-elapsed : lt now q.last_sync_time ≡ true → elapsed now q ≡ 0
  unfolding lt elapsed
  lt-elapsed e = let g = geq-micros now q.last_sync_time f.normal v.last_normal in grind arith

  not_lt-elapsed :
      lt now q.last_sync_time ≡ false → micros (diff now q.last_sync_time) ≡ elapsed now q
  unfolding lt elapsed
  not_lt-elapsed e =
      let g = geq-micros now q.last_sync_time f.normal v.last_normal in
      micros-diff now q.last_sync_time f.normal v.last_normal f.soon f.in_range v.last_in
        (grind arith)

  -- `synchronize` takes the time that has gone by off every alarm, down to 0.
  pub synchronize_refines :
      Becomes now
        (synchronize now q)
        (earlier (elapsed now q) (schedule q.entries))
        (end_of_queue q - elapsed now q)
  unfolding synchronize relink end_of_queue
  synchronize_refines = elim (Bool-cases (lt now q.last_sync_time)) [
    | inl b ↦
        (let z = lt-elapsed b in
          record {
            queue = record q { last_sync_time = now };
            result = rw b refl;
            stands = record {
              valid = record {
                chain = v.chain;
                last_normal = f.normal;
                last_in = f.in_range;
                bounded = v.bounded;
              };
              alarms = rw (z, earlier-zero (schedule q.entries)) refl;
              ends = omega (arith, z);
              last = refl;
            };
          })
    | inr b ↦
        (let z = not_lt-elapsed b in
          let g =
            advance-Gives (diff now q.last_sync_time) q.entries q.rest
              (diff-IsNormal now q.last_sync_time f.normal v.last_normal) v.chain (rw z f.early) in
          record {
            queue = relink (record q { last_sync_time = now }) g.chain;
            result = rw (b, g.result) refl;
            stands = record {
              valid = record {
                chain = g.holds.chain;
                last_normal = f.normal;
                last_in = f.in_range;
                bounded = omega (arith, v.bounded, g.holds.sum);
              };
              alarms = g.holds.alarms ∙ rw z refl;
              ends = g.holds.sum ∙ rw z refl;
              last = refl;
            };
          })
  ]

  -- `add_entry` puts the new alarm among the others at its own time, behind those of the same time.
  pub add_entry_refines :
      (n : ℕ) (d : Timeval)
      → IsNormal d
      → micros d + elapsed now q < end_of_queue q
      → Becomes now
          (add_entry now n d q)
          (schedule_at n (micros d) (earlier (elapsed now q) (schedule q.entries)))
          (end_of_queue q - elapsed now q)
  unfolding add_entry relink end_of_queue ◌>>=◌
  add_entry_refines n d hd h =
      let s = synchronize_refines in
      let q' = s.queue in
      let e : total q'.entries q'.rest ≡ total q.entries q.rest - elapsed now q = s.stands.ends in
      let g = place-Gives n d q'.entries q'.rest hd s.stands.valid.chain (rw e (omega arith)) in
      record {
        queue = relink q' g.chain;
        result = rw (s.result, g.result) refl;
        stands = record {
          valid = record {
            chain = g.holds.chain;
            last_normal = s.stands.valid.last_normal;
            last_in = s.stands.valid.last_in;
            bounded = rw g.holds.sum s.stands.valid.bounded;
          };
          alarms = g.holds.alarms ∙ rw s.stands.alarms refl;
          ends = g.holds.sum ∙ e;
          last = s.stands.last;
        };
      }

module _ {q : DelayQueue} (v : IsDelayQueue q) where
  -- `remove_entry` takes the entry's alarm out, and no other alarm changes; a null pointer changes
  -- nothing.
  pub remove_entry_refines :
      (n : ℕ)
      → Stands q.last_sync_time
          (remove_entry (some n) q)
          (without n (schedule q.entries))
          (end_of_queue q)
        × (remove_entry none q ≡ q)
  unfolding remove_entry relink end_of_queue
  remove_entry_refines n =
      let w = unlink-Holds n q.entries q.rest v.chain in
      (
        record {
          valid = record {
            chain = w.chain;
            last_normal = v.last_normal;
            last_in = v.last_in;
            bounded = rw w.sum v.bounded;
          };
          alarms = w.alarms;
          ends = w.sum;
          last = refl;
        },
        refl,
      )

module _ {q : DelayQueue} {now : Timeval} (v : IsDelayQueue q) (f : Follows now q) where
  -- `update_entry` moves an alarm to its new time; the other alarms keep theirs.
  pub update_entry_refines :
      (n : ℕ) (d : Timeval)
      → IsNormal d
      → micros d + elapsed now q < end_of_queue q
      → Becomes now
          (update_entry now (some n) d q)
          (schedule_at n (micros d) (earlier (elapsed now q) (without n (schedule q.entries))))
          (end_of_queue q - elapsed now q)
  unfolding update_entry remove_entry relink elapsed
  update_entry_refines n d hd h =
      let s = (remove_entry_refines v n).0 in
      let e : end_of_queue (relink q (unlink n q.entries q.rest)) ≡ end_of_queue q = s.ends in
      let f' : Follows now (relink q (unlink n q.entries q.rest)) = record {
        normal = f.normal;
        in_range = f.in_range;
        soon = f.soon;
        early = omega (arith, e, f.early);
      } in
      let b = add_entry_refines s.valid f' n d hd (omega (arith, e)) in
      record {
        queue = b.queue;
        result = b.result;
        stands = record {
          valid = b.stands.valid;
          alarms = b.stands.alarms ∙ rw s.alarms refl;
          ends = b.stands.ends ∙ rw e refl;
          last = b.stands.last;
        };
      }

  -- `schedule_delay_task` sets an alarm for that many microseconds from now.
  pub schedule_delay_task_refines :
      (n microseconds : ℕ)
      → microseconds + elapsed now q < end_of_queue q
      → Becomes now
          (schedule_delay_task now n microseconds q)
          (schedule_at n microseconds (earlier (elapsed now q) (schedule q.entries)))
          (end_of_queue q - elapsed now q)
  unfolding schedule_delay_task
  schedule_delay_task_refines n u h =
      let d : Timeval = record { seconds = u / million; useconds = u % million } in
      let m : micros d ≡ u = unfold micros in omega arith in
      rw m at (add_entry_refines v f n d (omega arith) (rw m h))
