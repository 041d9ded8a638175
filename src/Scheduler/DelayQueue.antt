-- ===== src/Scheduler/DelayQueue.antt =====
-- DelayQueue of src/detail/scheduler/delayqueue_in.h and .cpp, and SchedulerBase::ScheduleDelayTask of
-- scheduler_in.cpp. The entries of the circular list are a list from the head on, an entry's address is
-- a number, and the queue's own entry, which ends the list, is the field `rest`. `now` is what
-- gettimeofday gives.
pub mod Schedule
pub mod Loops
pub mod Refine
pub mod Alarms
pub mod Truncation
use huicpp.Base.{
  ℕ, zero, suc, ◌/◌, ◌%◌, List, [], ◌∷◌, Bool, true, false, not, if◌then◌else◌, ◌==◌, Option, none,
  some,
}
use huicpp.Base.Options.{◌>>=◌, return}
use huicpp.Scheduler.Timeval.{Timeval, million, delay_zero, eternity, geq, lt, eq, add, sub, diff}

-- An entry in the queue. `delta` counts from the entry before it.
pub record Entry : Type 0 where
  pub token : ℕ
  pub delta : Timeval

pub record DelayQueue : Type 0 where
  pub entries : List Entry
  pub rest : Timeval
  pub last_sync_time : Timeval

-- The linked part of the queue: the entries, and what the queue's own entry holds.
abbrev pub Chain : Type 0
Chain = List Entry × Timeval

unfoldable pub link : Entry → Option Chain → Option Chain
link e none = none
link e (some (es, rest)) = some (e ∷ es, rest)

unfoldable pub construct : Timeval → DelayQueue
construct now = record { entries = []; rest = eternity; last_sync_time = now }

-- The loop of `synchronize`. `none`: it goes past the queue's own entry.
unfoldable pub advance : Timeval → List Entry → Timeval → Option Chain
unfolding geq sub
advance t [] rest = if geq t rest then none else some ([], sub rest t)
advance t (e ∷ es) rest =
    let later = advance (sub t e.delta) es rest in
    if geq t e.delta
    then link (record e { delta = delay_zero }) later
    else some (record e { delta = sub e.delta t } ∷ es, rest)

unfoldable pub relink : DelayQueue → Chain → DelayQueue
relink q (es, rest) = record q { entries = es; rest = rest }

unfoldable pub synchronize : Timeval → DelayQueue → Option DelayQueue
unfolding advance lt diff relink
synchronize now q =
    let q' = record q { last_sync_time = now } in
    let moved = advance (diff now q.last_sync_time) q.entries q.rest in
    if lt now q.last_sync_time
    then some q'
    else elim moved [ none ↦ none | some c ↦ some (relink q' c) ]

-- The loop of `AddEntry` and the linking after it. `none`: the loop goes past the queue's own entry.
unfoldable pub place : ℕ → Timeval → List Entry → Timeval → Option Chain
unfolding geq sub
place n d [] rest =
    if geq d rest then none else some (record { token = n; delta = d } ∷ [], sub rest d)
place n d (e ∷ es) rest =
    let later = place n (sub d e.delta) es rest in
    if geq d e.delta
    then link e later
    else some (record { token = n; delta = d } ∷ record e { delta = sub e.delta d } ∷ es, rest)

unfoldable pub add_entry : Timeval → ℕ → Timeval → DelayQueue → Option DelayQueue
unfolding synchronize place relink ◌>>=◌
add_entry now n d q = do
  q' ← synchronize now q
  c ← place n d q'.entries q'.rest
  return (relink q' c)

-- `delta` of the next entry grows by that of the entry that leaves.
unfoldable pub give : Timeval → List Entry → Timeval → Chain
unfolding add
give d [] rest = ([], add rest d)
give d (e ∷ es) rest = (record e { delta = add e.delta d } ∷ es, rest)

unfoldable pub unlink : ℕ → List Entry → Timeval → Chain
unfolding give
unlink n [] rest = ([], rest)
unlink n (e ∷ es) rest =
    let (es', rest') = unlink n es rest in
    if e.token == n then give e.delta es rest else (e ∷ es', rest')

-- The argument is a pointer; an entry that is not in the queue has no successor.
unfoldable pub remove_entry : Option ℕ → DelayQueue → DelayQueue
unfolding unlink relink
remove_entry none q = q
remove_entry (some n) q = relink q (unlink n q.entries q.rest)

unfoldable pub update_entry : Timeval → Option ℕ → Timeval → DelayQueue → Option DelayQueue
unfolding add_entry remove_entry
update_entry now none d q = some q
update_entry now (some n) d q = add_entry now n d (remove_entry (some n) q)

unfoldable pub head_delta : DelayQueue → Timeval
head_delta q = elim q.entries [ [] ↦ q.rest | e ∷ es ↦ e.delta ]

-- The time that is left, and the queue.
unfoldable pub time_to_next_alarm : Timeval → DelayQueue → Option (Timeval × DelayQueue)
unfolding head_delta eq synchronize
time_to_next_alarm now q =
    if eq (head_delta q) delay_zero
    then some (delay_zero, q)
    else elim (synchronize now q) [ none ↦ none | some q' ↦ some (head_delta q', q') ]

-- The loop of `HandleAlarm`. `handle n` is what the handler of the entry `n` does to the queue. The
-- entries that are handled come out in order. `none`: more of them than `fuel`, or the queue's own
-- entry is due.
unfoldable pub handle_due :
    ℕ → (ℕ → DelayQueue → DelayQueue) → DelayQueue → Option (List ℕ × DelayQueue)
handle_due zero handle q = none
handle_due (suc fuel) handle q = elim q.entries [
  | [] ↦ if eq q.rest delay_zero then none else some ([], q)
  | e ∷ es ↦
      let after = handle_due fuel handle (handle e.token (remove_entry (some e.token) q)) in
      if eq e.delta delay_zero
      then elim after [ none ↦ none | some (fired, q') ↦ some (e.token ∷ fired, q') ]
      else some ([], q)
]

unfoldable pub handle_alarm :
    ℕ → (ℕ → DelayQueue → DelayQueue) → Timeval → DelayQueue → Option (List ℕ × DelayQueue)
handle_alarm fuel handle now q =
    let synchronized = synchronize now q in
    if not (eq (head_delta q) delay_zero)
    then elim synchronized [ none ↦ none | some q' ↦ handle_due fuel handle q' ]
    else handle_due fuel handle q

-- The handler that is made gets the address `n`.
unfoldable pub schedule_delay_task : Timeval → ℕ → ℕ → DelayQueue → Option DelayQueue
unfolding add_entry
schedule_delay_task now n microseconds =
    add_entry now n (record { seconds = microseconds / million; useconds = microseconds % million })
