-- ===== src/Scheduler/DelayQueue/Alarms.antt =====
-- The operations that ask for the next alarm and handle those that are due.
use huicpp.Base.{
  ℕ, zero, suc, ◌<◌, ◌≡◌, refl, ap, ◌∙◌, arith, List, [], ◌∷◌, length, true, false, ◌==◌,
  if◌then◌else◌, Bool-cases, inl, inr, Option, some,
}
use huicpp.Scheduler.Timeval.{Timeval, eq, micros, delay_zero, IsNormal, eq-micros}
use huicpp.Scheduler.DelayQueue.{
  DelayQueue, Entry, give, unlink, relink, remove_entry, head_delta, time_to_next_alarm, handle_due,
  handle_alarm,
}
use huicpp.Scheduler.DelayQueue.Schedule.{
  Alarm, later, earlier, without, due, pending, schedule, later-zero, length-earlier,
  length-schedule,
}
use huicpp.Scheduler.DelayQueue.Loops.{IsChain, total}
use huicpp.Scheduler.DelayQueue.Refine.{
  IsDelayQueue, Follows, Stands, elapsed, end_of_queue, synchronize_refines, remove_entry_refines,
}

-- The time of the first alarm, or of the end of the queue.
unfoldable pub soonest : List Alarm → ℕ → ℕ
soonest [] n = n
soonest ((k, u) ∷ xs) n = u

zero-or_not : (t : Timeval) → IsNormal t → eq t delay_zero ≡ (micros t == 0)
unfolding micros
zero-or_not t h = eq-micros t delay_zero h (omega arith)

module _ {q : DelayQueue} (v : IsDelayQueue q) where
  head-IsNormal : IsNormal (head_delta q)
  unfolding IsChain head_delta
  head-IsNormal = go q.entries v.chain
    where
      go : (es : List Entry) → IsChain es q.rest → IsNormal (head_delta (record q { entries = es }))
      go [] h = h
      go (e ∷ es) h = h.0

  head-soonest : micros (head_delta q) ≡ soonest (schedule q.entries) (end_of_queue q)
  unfolding head_delta schedule soonest total end_of_queue
  head-soonest = go q.entries
    where
      go :
          (es : List Entry)
          → micros (head_delta (record q { entries = es }))
            ≡ soonest (schedule es) (total es q.rest)
      go [] = refl
      go (e ∷ es) = refl

  head-eq : eq (head_delta q) delay_zero ≡ (soonest (schedule q.entries) (end_of_queue q) == 0)
  head-eq = zero-or_not (head_delta q) head-IsNormal ∙ rw head-soonest refl

-- The alarms that an operation works on: as they stand if the first is due, else brought to now.
unfoldable pub current : Timeval → DelayQueue → List Alarm
current now q =
    if soonest (schedule q.entries) (end_of_queue q) == 0
    then schedule q.entries
    else earlier (elapsed now q) (schedule q.entries)

module _ {q : DelayQueue} {now : Timeval} (v : IsDelayQueue q) (f : Follows now q) where
  -- `time_to_next_alarm` gives the time of the first alarm, or of the end of the queue if there is
  -- none, and a queue that still stands for the same alarms.
  pub time_to_next_alarm_refines :
      (t : Timeval) × (q' : DelayQueue) × (time_to_next_alarm now q ≡ some (t, q'))
      × (schedule q'.entries ≡ current now q)
      × (micros t ≡ soonest (current now q) (end_of_queue q'))
      × IsDelayQueue q'
  unfolding time_to_next_alarm current
  time_to_next_alarm_refines =
      elim (Bool-cases (soonest (schedule q.entries) (end_of_queue q) == 0)) [
        | inl b ↦
            (let z : soonest (schedule q.entries) (end_of_queue q) ≡ 0 = grind arith in
              (
                delay_zero,
                q,
                rw (head-eq v, b) refl,
                rw b refl,
                rw (b, z) (unfold micros in refl),
                v,
              ))
        | inr b ↦
            (let s = synchronize_refines v f in
              (
                head_delta s.queue,
                s.queue,
                rw (head-eq v, b, s.result) refl,
                rw b s.stands.alarms,
                rw b (head-soonest s.stands.valid ∙ rw s.stands.alarms refl),
                s.stands.valid,
              ))
      ]

-- The loop ends after the alarms of `s` that are due, and leaves the others.
pub record Fires (o : Option (List ℕ × DelayQueue)) (s : List Alarm) (n : ℕ) : Type 0 where
  pub queue : DelayQueue
  pub result : o ≡ some (due s, queue)
  pub alarms : schedule queue.entries ≡ pending s
  pub ends : end_of_queue queue ≡ n
  pub valid : IsDelayQueue queue

same : (n : ℕ) → (n == n) ≡ true
same n = grind arith

length-give :
    (d : Timeval) (es : List Entry) (rest : Timeval) → length (give d es rest).0 ≡ length es
unfolding give
length-give d [] rest = refl
length-give d (e ∷ es) rest = refl

abbrev queue_of : List Entry → Timeval → Timeval → DelayQueue
queue_of es rest last = record { entries = es; rest = rest; last_sync_time = last }

-- An alarm that is due is taken out without a change of the others.
remove_head :
    (e : Entry) (es : List Entry) (rest last : Timeval)
    → IsDelayQueue (queue_of (e ∷ es) rest last)
    → micros e.delta ≡ 0
    → let q' = remove_entry (some e.token) (queue_of (e ∷ es) rest last) in
      (q'.entries ≡ (give e.delta es rest).0)
      × Stands last q' (schedule es) (end_of_queue (queue_of (e ∷ es) rest last))
unfolding remove_entry relink unlink
remove_head e es rest last v z =
    let s = (remove_entry_refines v e.token).0 in
    (
      rw (same e.token) refl,
      record {
        valid = s.valid;
        alarms =
            s.alarms ∙ (unfold schedule without in rw (same e.token, z) (later-zero (schedule es)));
        ends = s.ends;
        last = refl;
      },
    )

module _ (handle : ℕ → DelayQueue → DelayQueue)
    (inert : (n : ℕ) (q : DelayQueue) → handle n q ≡ q) where
  fire_head :
      (fuel : ℕ) (e : Entry) (es : List Entry) (rest last : Timeval) (q' : DelayQueue) {n : ℕ}
      → remove_entry (some e.token) (queue_of (e ∷ es) rest last) ≡ q'
      → micros e.delta ≡ 0
      → eq e.delta delay_zero ≡ true
      → schedule q'.entries ≡ schedule es
      → end_of_queue q' ≡ n
      → Fires (handle_due fuel handle q') (schedule q'.entries) (end_of_queue q')
      → Fires (handle_due (suc fuel) handle (queue_of (e ∷ es) rest last)) (schedule (e ∷ es)) n
  unfolding handle_due schedule due pending
  fire_head fuel e es rest last q' r z b hs hn g =
      let w : later (micros e.delta) (schedule es) ≡ schedule es =
        rw z (later-zero (schedule es)) in
      record {
        queue = g.queue;
        result = rw (b, r, inert e.token q', g.result, hs, w, z) refl;
        alarms = g.alarms ∙ rw (w, z, hs) refl;
        ends = g.ends ∙ hn;
        valid = g.valid;
      }

  loop :
      (fuel : ℕ) (es : List Entry) (rest last : Timeval)
      → let q = queue_of es rest last in
        IsDelayQueue q
        → 0 < end_of_queue q
        → length es < fuel
        → Fires (handle_due fuel handle q) (schedule es) (end_of_queue q)
  unfolding handle_due
  loop zero es rest last v h hf = absurd (omega arith)
  loop (suc fuel) [] rest last v h hf =
      let n : IsNormal rest = unfold IsChain in v.chain in
      let p : 0 < micros rest = unfold end_of_queue total in h in
      let z : eq rest delay_zero ≡ false = zero-or_not rest n ∙ grind arith in
      record {
        queue = queue_of [] rest last;
        result = rw z (unfold schedule due in refl);
        alarms = unfold schedule pending in refl;
        ends = refl;
        valid = v;
      }
  loop (suc fuel) (e ∷ es) rest last v h hf =
      let n : IsNormal e.delta × IsChain es rest = unfold IsChain in v.chain in
      let p = zero-or_not e.delta n.0 in
      let hl : length es < fuel = omega (arith, hf) in
      elim (Bool-cases (micros e.delta == 0)) [
        | inl b ↦
            (let z : micros e.delta ≡ 0 = grind arith in
              let (l, s) = remove_head e es rest last v z in
              let q' = remove_entry (some e.token) (queue_of (e ∷ es) rest last) in
              fire_head fuel e es rest last q' refl z (p ∙ b) s.alarms s.ends (
                loop fuel q'.entries q'.rest q'.last_sync_time s.valid (rw s.ends h)
                  (rw (l, length-give e.delta es rest) hl)))
        | inr b ↦ record {
          queue = queue_of (e ∷ es) rest last;
          result = rw (p, b) (unfold schedule due in rw b refl);
          alarms = unfold schedule pending in rw b refl;
          ends = refl;
          valid = v;
        }
      ]

  -- If the handlers leave the queue alone, HandleAlarm calls those of the alarms of `due (current now q)`,
  -- in their order, and leaves the other alarms: those that are due now, or, if the first alarm was due
  -- already when the queue was last synchronized, those that were due then. `fuel` beyond the number of
  -- the entries is enough.
  pub handle_alarm_refines :
      {q : DelayQueue} {now : Timeval} (fuel : ℕ)
      → IsDelayQueue q
      → Follows now q
      → length q.entries < fuel
      → (q' : DelayQueue) × (handle_alarm fuel handle now q ≡ some (due (current now q), q'))
        × (schedule q'.entries ≡ pending (current now q))
        × IsDelayQueue q'
  unfolding handle_alarm current
  handle_alarm_refines {q} {now} fuel v f h =
      elim (Bool-cases (soonest (schedule q.entries) (end_of_queue q) == 0)) [
        | inl b ↦
            (let g = loop fuel q.entries q.rest q.last_sync_time v (omega (arith, f.early)) h in
              (g.queue, rw (head-eq v, b) g.result, rw b g.alarms, g.valid))
        | inr b ↦
            (let s = synchronize_refines v f in
              let q' = s.queue in
              let l : length q'.entries < fuel = omega (
                arith,
                length-schedule q'.entries,
                ap length s.stands.alarms,
                length-earlier (elapsed now q) (schedule q.entries),
                length-schedule q.entries,
              ) in
              let g =
                loop fuel q'.entries q'.rest q'.last_sync_time s.stands.valid
                  (omega (arith, s.stands.ends, f.early)) l in
              (
                g.queue,
                rw (head-eq v, b, s.result) (g.result ∙ rw s.stands.alarms refl),
                rw b (g.alarms ∙ rw s.stands.alarms refl),
                g.valid,
              ))
      ]
